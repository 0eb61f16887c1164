-- ===== src/Table/Sessions/Agree.antt =====
-- What holds between a table (src/table.rs) and the tuples that its client expects.
use alchemy.Base.{
  ℕ, ◌%◌, ◌^◌, ◌<◌, ◌≤◌, ◌≡◌, refl, sym, ap, ◌∙◌, Bool, true, Option, none, some, Option-cases, inl,
  inr, put, put-self, put-other, ℕ_discrete,
}
use mathlib.Core.Path.{subst}
use alchemy.Rid.{Rid, sentinel}
use alchemy.Schema.{Schema}
use alchemy.Clock.Coherent.{Coherent}
use alchemy.ClockCache.{ClockCache, set_word}
use alchemy.ClockCache.View.{view, view-same, Relock-Coherent}
use alchemy.Alloc.Heap.{capacity}
use alchemy.Alloc.Slots.Reached.{Reach}
use alchemy.Table.{DbIndex}
use alchemy.Table.Rows.{row}
use alchemy.Table.Sessions.{Session, with_cache}
use alchemy.Table.Sessions.Words.{Relocks}

module _ {I : DbIndex} {S : Schema} where
  -- The records that exist are the slots that are held; the index leads from a key to such a record, from
  -- different keys to different ones, and the record has the tuple that is expected under the key.
  pub record Agrees (s : Session I S) (spec : ℕ → Option S.Tuple) : Type 0 where
    pub live : ℕ → Bool
    pub reach : Reach s.heap s.words live
    pub small : capacity s.heap ≤ sentinel
    pub coherent : Coherent live s.table.cache.mem
    pub indexed : (key : ℕ) (r : Rid) → I.get s.table.index key ≡ some r → live r ≡ true
    pub apart :
        (key key' : ℕ) (r : Rid)
        → I.get s.table.index key ≡ some r
        → I.get s.table.index key' ≡ some r
        → key ≡ key'
    pub found :
        (key : ℕ) (r : Rid)
        → I.get s.table.index key ≡ some r
        → spec key ≡ some (view s.table.cache r)
    pub missing : (key : ℕ) → I.get s.table.index key ≡ none → spec key ≡ none

  -- The rows are the tuples expected.
  pub Agrees-row :
      (s : Session I S) (spec : ℕ → Option S.Tuple)
      → Agrees s spec
      → (key : ℕ) → row s.table key ≡ spec key
  unfolding row
  Agrees-row s spec a key = elim (Option-cases (I.get s.table.index key)) [
    | inl e ↦ rw (e, row) (sym (a.missing key e))
    | inr (r, e) ↦ rw (e, row) (sym (a.found key r e))
  ]

  -- A call that changes the cache only, and no record's tuple.
  pub keeps :
      (s : Session I S) (spec : ℕ → Option S.Tuple) (a : Agrees s spec) (c : ClockCache S)
      → Coherent a.live c.mem
      → ((x : ℕ) → a.live x ≡ true → view c x ≡ view s.table.cache x)
      → Agrees (with_cache s c) spec
  keeps s spec a c coherent views = record {
    live = a.live;
    reach = a.reach;
    small = a.small;
    coherent = coherent;
    indexed = a.indexed;
    apart = a.apart;
    found = λ key r e. a.found key r e ∙ ap some (sym (views r (a.indexed key r e)));
    missing = a.missing;
  }

  -- A call that changes the locks of a word only.
  pub relocks :
      (s : Session I S) (spec : ℕ → Option S.Tuple) (a : Agrees s spec) (rid word : ℕ)
      → Relocks (s.table.cache.mem.oids rid) word
      → Agrees (with_cache s (set_word s.table.cache rid word)) spec
  relocks s spec a rid word same =
      let oids : ℕ → ℕ = s.table.cache.mem.oids in
      let each =
        λ (x : ℕ) (l : a.live x ≡ true). put-word oids rid word x same (a.coherent.words x l).0 in
      keeps s spec a (set_word s.table.cache rid word)
        (Relock-Coherent (put oids rid word) a.coherent each)
        (λ x l.
          view-same s.table.cache (set_word s.table.cache rid word) x (a.coherent.words x l).0
            (a.coherent.words x l).1 (each x l).0 (each x l).1 refl (λ _. refl))
    where
      put-word :
          (oids : ℕ → ℕ) (rid word x : ℕ)
          → Relocks (oids rid) word
          → oids x < 2 ^ 64
          → (put oids rid word x < 2 ^ 64) × (put oids rid word x % 2 ^ 56 ≡ oids x % 2 ^ 56)
      put-word oids rid word x same w = elim (ℕ_discrete rid x) [
        | yes e ↦
            subst
              (λ y.
                (put oids rid word y < 2 ^ 64) × (put oids rid word y % 2 ^ 56 ≡ oids y % 2 ^ 56))
              e
              (put-self (λ v. (v < 2 ^ 64) × (v % 2 ^ 56 ≡ oids rid % 2 ^ 56)) oids rid
                (same (rw e w)))
        | no ne ↦
            put-other (λ v. (v < 2 ^ 64) × (v % 2 ^ 56 ≡ oids x % 2 ^ 56)) oids rid x word ne
              (w, refl)
      ]
