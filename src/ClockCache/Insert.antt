-- ===== src/ClockCache/Insert.antt =====
-- `insert` of src/attribute_cache/clock_cache/mod.rs, with the record id that `HeapArray::append` gives.
use alchemy.Base.{
  ℕ, suc, ◌<◌, ◌≡◌, ◌≢◌, refl, sym, ap, ◌∙◌, arith, Bool, true, false, Option, none, some, put,
  put-self, put-other, ℕ_discrete, if_true, not, ==-ne, ==-refl,
}
use alchemy.Rid.{Rid, sentinel}
use alchemy.Oid.{is_rid, to_rid, write_locked}
use alchemy.Oid.Layout.{tag, locks, to_rid_lem, write_locked_lem}
use alchemy.Schema.{Schema}
use alchemy.Clock.{ClockNode, Mem, Chance, node, probe_and_replace_rng}
use alchemy.Clock as Inner
use alchemy.Clock.Coherent.{Coherent}
use alchemy.Clock.Outcome.{Placed, Still-refl}
use alchemy.Clock.Find.{Search, probe_and_replace_rng-Search}
use alchemy.ClockCache.{ClockCache, insert, insert_at, finish_insert, write_back_evicted}
use alchemy.ClockCache.View.{view, view-home, view-same, is_cached-home}
use alchemy.ClockCache.Kept.{Kept, Still-Kept}
use alchemy.ClockCache.Leave.{write_back_evicted-Kept}
use alchemy.ClockCache.Fresh.{
  allocated, alloc_rid_lem, own_word, other_word, live'-rid, live'-old, old-ne, allocated-Coherent,
}

-- Two writes to different cells, of which one changes what its cell holds, in either order.
put-put :
    {A : Type 0} (f : ℕ → A) (g : A → A) (a b : ℕ) (u : A) (x : ℕ)
    → a ≢ b
    → put (put f a u) b (g (put f a u b)) x ≡ put (put f b (g (f b))) a u x
put-put f g a b u x ne = elim (ℕ_discrete a x) [
  | yes here ↦ rw (← here) (rw (==-refl a, ==-ne a b ne, ==-ne b a (λ e. ne (sym e))) refl)
  | no apart ↦ rw (==-ne a x apart, ==-ne a b ne) refl
]

-- The evicted record is not the given one.
abbrev Apart : {F : Type 0} → Option (ClockNode F × Rid) → ℕ → Type 0
Apart none rid = Unit {0}
Apart (some (old, e)) rid = rid ≢ old.rid

Placed-Apart :
    {F : Type 0} {m m' : Mem F} {oid index : ℕ} {new_node : ClockNode F}
    (evicted : Option (ClockNode F × Rid))
    → Placed m oid new_node index evicted m'
    → Apart evicted oid
Placed-Apart none p = tt
Placed-Apart (some (old, e)) p =
    let (_, _, own, _, ne, _, _) = p.victim in λ same. ne (sym (same ∙ own))

view-storage :
    (S : Schema) (mem : Mem S.Cached) (st st' : ℕ → S.Tuple) (x : ℕ)
    → st x ≡ st' x
    → view {S = S} (record { mem = mem; storage = st }) x
      ≡ view {S = S} (record { mem = mem; storage = st' }) x
unfolding view
view-storage S mem st st' x e = rw e refl

module _ {S : Schema} where
  abbrev stored : ClockCache S → Rid → S.Tuple → ClockCache S
  stored s rid val = record s { storage = put s.storage rid val }

  -- Storing the new tuple first or last makes no difference.
  store_first :
      (s : ClockCache S) (rid : ℕ) (val : S.Tuple) (evicted : Option (ClockNode S.Cached × Rid))
      (m : Mem S.Cached)
      → Apart evicted rid
      → (x : ℕ)
      → (stored (write_back_evicted evicted (record s { mem = m })) rid val).storage x
        ≡ (write_back_evicted evicted (stored (record s { mem = m }) rid val)).storage x
  unfolding write_back_evicted
  store_first s rid val none m ne x = refl
  store_first s rid val (some (old, e)) m ne x =
      sym (put-put s.storage (S.write_back old.val) rid old.rid val x ne)

  -- So it makes no difference to any view.
  store_first-view :
      (s : ClockCache S) (rid : ℕ) (val : S.Tuple) (evicted : Option (ClockNode S.Cached × Rid))
      (m : Mem S.Cached)
      → Apart evicted rid
      → (x : ℕ)
      → view (stored (write_back_evicted evicted (record s { mem = m })) rid val) x
        ≡ view (write_back_evicted evicted (stored (record s { mem = m }) rid val)) x
  unfolding write_back_evicted
  store_first-view s rid val none m ne x = refl
  store_first-view s rid val (some (old, e)) m ne x =
      view-storage S _ _ _ x (store_first s rid val (some (old, e)) m ne x)

  -- The new record holds its tuple, and the others theirs.
  abbrev pub Inserted :
      (live : ℕ → Bool) → ClockCache S → (rid : ℕ) → S.Tuple → ClockCache S → Type 0
  Inserted live s rid val s' =
      (view s' rid ≡ val)
      × ((x : ℕ) → live x ≡ true → view s' x ≡ view s x)
      × Coherent (put live rid true) s'.mem
      × (write_locked (s'.mem.oids rid) ≡ true)

  module _ {live : ℕ → Bool} (s : ClockCache S) (c : Coherent live s.mem) (rid : ℕ)
      (fresh : live rid ≡ false) (lt : rid < sentinel) (val : S.Tuple)
      (filled : S.write_back (S.to_cached val) val ≡ val) where
    abbrev start : ClockCache S
    start = stored (allocated s c rid fresh lt) rid val

    start_home : tag (start.mem.oids rid) ≡ 0
    start_home = omega (arith, own_word s c rid fresh lt)

    start_locks : locks (start.mem.oids rid) ≡ 128
    start_locks = omega (arith, own_word s c rid fresh lt)

    start_tuple : start.storage rid ≡ val
    start_tuple = put-self (λ t. t ≡ val) s.storage rid refl

    start_rest : (x : ℕ) → live x ≡ true → view start x ≡ view s x
    start_rest x l =
        let ne = old-ne s c rid fresh lt x l in
        let same = other_word s c rid fresh lt x ne in
        view-same s start x (c.words x l).0 (c.words x l).1 (rw same (c.words x l).0) (rw same refl)
          (put-other (λ t. t ≡ s.storage x) s.storage rid x val ne refl) (λ _. refl)

    Kept-Inserted :
        (s' : ClockCache S) → Kept (put live rid true) start s' → Inserted live s rid val s'
    Kept-Inserted s' k =
        let alive = live'-rid s c rid fresh lt in
        (
          k.views rid alive ∙ view-home start rid start_home ∙ start_tuple,
          (λ x l. k.views x (live'-old s c rid fresh lt x l) ∙ start_rest x l),
          k.coherent,
          write_locked_lem (s'.mem.oids rid) (k.coherent.words rid alive).0
              ∙ rw (k.same_locks rid alive, start_locks) refl,
        )

    swap :
        (ev : Option (ClockNode S.Cached × Rid)) (m : Mem S.Cached)
        → Apart ev rid
        → Inserted live s rid val (write_back_evicted ev (stored (record s { mem = m }) rid val))
        → Inserted live s rid val (stored (write_back_evicted ev (record s { mem = m })) rid val)
    unfolding write_back_evicted
    swap none m ne h = h
    swap (some (old, e)) m ne (own, rest, coherent, locked) = (
      store_first-view s rid val (some (old, e)) m ne rid ∙ own,
      (λ x l. store_first-view s rid val (some (old, e)) m ne x ∙ rest x l),
      coherent,
      locked,
    )

    abbrev evicted_of :
        Option (ℕ × Option (ClockNode S.Cached × Rid)) → Option (ClockNode S.Cached × Rid)
    evicted_of placed = elim placed [ none ↦ none | some (index, evicted) ↦ evicted ]

    abbrev new_node : ClockNode S.Cached
    new_node = node (S.to_cached val) rid

    finished :
        (found : Option (ℕ × Option (ClockNode S.Cached × Rid)) × Mem S.Cached)
        → Search start.mem rid new_node found
        → Inserted live s rid val
            (stored (write_back_evicted (evicted_of found.0) (record s { mem = found.1 })) rid val)
    unfolding write_back_evicted
    finished (none, m) st =
        Kept-Inserted (record start { mem = m })
          (Still-Kept start (allocated-Coherent s c rid fresh lt) st)
    finished (some (index, ev), m) p = swap ev m (Placed-Apart ev p) (
        Kept-Inserted _ (
          write_back_evicted-Kept start (allocated-Coherent s c rid fresh lt)
            (live'-rid s c rid fresh lt) start_home refl (rw start_tuple filled) ev p
            (Still-refl m)))

    abbrev found : (ℕ → Chance) → Option (ℕ × Option (ClockNode S.Cached × Rid)) × Mem S.Cached
    found chance = probe_and_replace_rng true new_node rid rid chance start.mem

    inner_lem :
        (chance : ℕ → Chance)
        → Inner.insert rid (S.to_cached val) chance start.mem
          ≡ some (evicted_of (found chance).0, (found chance).1)
    unfolding Inner.insert is_rid
    inner_lem chance =
        let place : Rid → Option (Option (ClockNode S.Cached × Rid) × Mem S.Cached) = λ x.
          (let (placed, m') =
              probe_and_replace_rng true (node (S.to_cached val) x) x rid chance start.mem in
            some (evicted_of placed, m')) in
        if_true (place (to_rid (start.mem.oids rid))) none
          (ap not (is_cached-home start rid start_home))
        ∙ ap place (to_rid_lem (start.mem.oids rid) ∙ omega (arith, own_word s c rid fresh lt))

    abbrev inserted : (ℕ → Chance) → ClockCache S
    inserted chance =
        stored
          (write_back_evicted (evicted_of (found chance).0) (record s { mem = (found chance).1 }))
          rid val

    -- The words and the entries agree, `append` gives the id of a record that does not exist yet and is not
    -- the sentinel, writing the cached part of the tuple back to it changes nothing, and the loop of `write` is
    -- given a round, after its first, whose exchange does not fail for no reason. Then, however the
    -- exchanges of the probes turn out, `insert` returns that id. The new record has the tuple
    -- given, in the cache or not, and its writer bit is set; every other record keeps the tuple it had, the one evicted for it
    -- included; and the words and the entries agree with the new record among them.
    pub insert-Inserted :
        (k : ℕ) (spurious : ℕ → Bool) (chance : ℕ → Chance)
        → spurious (suc k) ≡ false
        → (s' : ClockCache S) × (insert (some rid) (suc (suc k)) spurious chance val s
            ≡ some (rid, s'))
          × Inserted live s rid val s'
    unfolding insert insert_at finish_insert
    insert-Inserted k spurious chance fair = (
      inserted chance,
      ap (insert_at chance val) (alloc_rid_lem s c rid fresh lt k spurious fair)
          ∙ ap (finish_insert rid val (allocated s c rid fresh lt)) (inner_lem chance),
      finished (found chance) (
          probe_and_replace_rng-Search new_node rid rid true chance start.mem
            (allocated-Coherent s c rid fresh lt) start_home),
    )
