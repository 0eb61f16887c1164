-- ===== src/Table/Pages.antt =====
-- Tables that are only inserted into: `PageBuffer` and `InsertonlyTable` of src/table.rs, for one
-- thread. The persistent pages that the thread has filled are kept, the last one first.
use alchemy.Base.{
  ◌*◌, ◌/◌, true, ℕ, zero, suc, ◌≤◌, ◌<◌, ◌≡◌, ◌≢◌, refl, ap, ◌∙◌, arith, Option, none, some,
  Result, ok, err, List, [], ◌∷◌, ◌++◌, put, put-self, ltb, if◌then◌else◌, ==-ne, if_true, if_false,
  inl, inr, Bool-cases,
}
use alchemy.Rid.{SystemError}
use alchemy.Alloc.{Memory, ArrayAllocator, alloc, reset, new, align_up}

-- `PageBuffer`.
pub record PageBuffer (T : Type 0) : Type 0 where
  pub next : ℕ
  pub cells : ℕ → T

-- `InsertonlyTable`: the allocator of pages with its memory, the page of the running thread if
-- it has one, and the pages copied.
pub record InsertonlyTable (T : Type 0) : Type 0 where
  pub storage : ArrayAllocator
  pub links : Memory
  pub tls_page : Option (PageBuffer T)
  pub copied : List (ℕ → T)

abbrev pub hugepage_size : ℕ
hugepage_size = 2 * 1024 * 1024

module _ {T : Type 0} where
  -- `PageBuffer::new`.
  abbrev pub new_page : (zeroed : T) → PageBuffer T
  new_page zeroed = record { next = 0; cells = λ _. zeroed }

  -- `PageBuffer::try_insert`, with the number of tuples that a page holds: the value comes back if
  -- the page is full.
  unfoldable pub try_insert : (cap : ℕ) → T → PageBuffer T → Result (Unit {0}) T × PageBuffer T
  try_insert cap value p =
      if ltb p.next cap
      then (ok tt, record { next = suc p.next; cells = put p.cells p.next value })
      else (err value, p)

  -- `InsertonlyTable::new`, with the size of a tuple in bytes and the address of the memory that it
  -- gets. A page is an array of words.
  unfoldable pub new_table : (cap tuple_size addr : ℕ) → Memory → Option (InsertonlyTable T)
  unfolding align_up new
  new_table cap tuple_size addr m =
      let size : ℕ = align_up (cap * tuple_size) hugepage_size in
      elim (new (size / hugepage_size) addr hugepage_size 8 m) [
        | none ↦ none
        | some (storage, links) ↦
            some (record { storage = storage; links = links; tls_page = none; copied = [] })
      ]

  -- `InsertonlyTable::get_tls_page`.
  unfoldable pub get_tls_page : (zeroed : T) → InsertonlyTable T → PageBuffer T
  get_tls_page zeroed t = elim t.tls_page [ none ↦ new_page zeroed | some page ↦ page ]

  -- A full page goes to the block allocated, and the tuple to its first cell.
  unfoldable pub copy_page :
      (cap : ℕ) (tuple : T) (page : PageBuffer T) (t : InsertonlyTable T)
      → Result (ℕ × ℕ) SystemError × ArrayAllocator
      → Option (InsertonlyTable T)
  unfolding try_insert
  copy_page cap tuple page t (err e, storage) = none
  copy_page cap tuple page t (ok _, storage) = some (record t {
    storage = storage;
    tls_page = some (try_insert cap tuple (record page { next = 0 })).1;
    copied = page.cells ∷ t.copied;
  })

  unfoldable pub after_try :
      (cap : ℕ) (t : InsertonlyTable T)
      → Result (Unit {0}) T × PageBuffer T
      → Option (InsertonlyTable T)
  unfolding copy_page alloc
  after_try cap t (ok _, page) = some (record t { tls_page = some page })
  after_try cap t (err tuple, page) = copy_page cap tuple page t (alloc t.storage t.links)

  -- `InsertonlyTable::insert`; `none` is the failed `unwrap`.
  unfoldable pub insert :
      (cap : ℕ) (zeroed tuple : T) → InsertonlyTable T → Option (InsertonlyTable T)
  unfolding try_insert get_tls_page after_try
  insert cap zeroed tuple t = after_try cap t (try_insert cap tuple (get_tls_page zeroed t))

  -- `InsertonlyTable::reset`.
  unfoldable pub reset_pages : InsertonlyTable T → InsertonlyTable T
  unfolding reset
  reset_pages t =
      let (storage, links) = reset t.storage t.links in
      record t { storage = storage; links = links; tls_page = none; copied = [] }

  -- The first cells of a page, in order.
  unfoldable pub rows : ℕ → (ℕ → T) → List T
  rows zero f = []
  rows (suc n) f = rows n f ++ (f n ∷ [])

  unfoldable pub copied_rows : (cap : ℕ) → List (ℕ → T) → List T
  unfolding rows
  copied_rows cap [] = []
  copied_rows cap (p ∷ pages) = copied_rows cap pages ++ rows cap p

  -- What the thread has inserted: the pages copied, and the page being filled.
  abbrev pub page_rows : PageBuffer T → List T
  page_rows p = rows p.next p.cells

  unfoldable pub contents : (cap : ℕ) (zeroed : T) → InsertonlyTable T → List T
  unfolding copied_rows rows get_tls_page
  contents cap zeroed t =
      copied_rows cap t.copied ++ rows (get_tls_page zeroed t).next (get_tls_page zeroed t).cells

  rows-put : (n : ℕ) (f : ℕ → T) (i : ℕ) (v : T) → n ≤ i → rows n (put f i v) ≡ rows n f
  unfolding rows
  rows-put zero f i v h = refl
  rows-put (suc n) f i v h =
      rw (rows-put n f i v (omega arith), ==-ne i n (λ e. absurd (omega arith))) refl

  rows-next : (n : ℕ) (f : ℕ → T) (v : T) → rows (suc n) (put f n v) ≡ rows n f ++ (v ∷ [])
  unfolding rows
  rows-next n f v =
      rw (rows-put n f n v (omega arith))
        (ap (λ x. rows n f ++ (x ∷ [])) (put-self (λ x. x ≡ v) f n refl))

  -- A page that is started again takes the tuple at its first cell.
  fresh_page :
      (cap : ℕ) (v : T) (p : PageBuffer T)
      → 0 < cap
      → (try_insert cap v (record p { next = 0 })).1 ≡ record { next = 1; cells = put p.cells 0 v }
  unfolding try_insert
  fresh_page cap v p pos = let room : ltb 0 cap ≡ true = ground arith in rw (room, try_insert) refl

  append_assoc : (xs ys zs : List T) → xs ++ (ys ++ zs) ≡ (xs ++ ys) ++ zs
  append_assoc [] ys zs = refl
  append_assoc (x ∷ xs) ys zs = ap (λ r. x ∷ r) (append_assoc xs ys zs)

  -- A page holds at least one tuple, the page being filled is no longer than that, and if it is full there is
  -- a block left for the copy. Then `insert` succeeds, what the thread has inserted grows by the tuple
  -- at its end, and the page is no longer than it may be.
  pub insert-contents :
      (cap : ℕ) (zeroed tuple : T) (t : InsertonlyTable T)
      → 0 < cap
      → (get_tls_page zeroed t).next ≤ cap
      → ((get_tls_page zeroed t).next ≡ cap → t.storage.list_node ≢ 0)
      → (t' : InsertonlyTable T) × (insert cap zeroed tuple t ≡ some t')
        × (contents cap zeroed t' ≡ contents cap zeroed t ++ (tuple ∷ []))
        × ((get_tls_page zeroed t').next ≤ cap)
  unfolding insert after_try copy_page contents copied_rows rows try_insert get_tls_page alloc
  insert-contents cap zeroed tuple t pos short room =
      let page = get_tls_page zeroed t in
      elim (Bool-cases (ltb page.next cap)) [
        | inl fits ↦ (
          record t {
            tls_page =
                some (record { next = suc page.next; cells = put page.cells page.next tuple });
          },
          ap (after_try cap t) (if_true _ _ fits),
          ap (λ r. copied_rows cap t.copied ++ r) (rows-next page.next page.cells tuple)
              ∙ append_assoc (copied_rows cap t.copied) (rows page.next page.cells) (tuple ∷ []),
          ground arith,
        )
        | inr full ↦
            let at_end : page.next ≡ cap = ground arith in
            (
              record t {
                storage = record t.storage { list_node = t.links t.storage.list_node };
                tls_page = some (record { next = 1; cells = put page.cells 0 tuple });
                copied = page.cells ∷ t.copied;
              },
              ap (after_try cap t) (if_false _ _ full)
                  ∙ ap (copy_page cap tuple page t)
                      (if_false _ _ (==-ne t.storage.list_node 0 (room at_end)))
                  ∙ ap
                      (λ p. some (record t {
                        storage = record t.storage { list_node = t.links t.storage.list_node };
                        tls_page = some p;
                        copied = page.cells ∷ t.copied;
                      }))
                      (fresh_page cap tuple page pos),
              rw at_end (
                  ap (λ r. (copied_rows cap t.copied ++ rows cap page.cells) ++ r)
                    (rows-next 0 page.cells tuple)),
              omega arith,
            )
      ]
