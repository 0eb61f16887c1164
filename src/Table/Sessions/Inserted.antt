-- ===== src/Table/Sessions/Inserted.antt =====
-- An insertion into a table (src/table.rs) agrees with what the client expects.
use mathlib.Core.Path.{subst}
use alchemy.Base.{
  ℕ, suc, ◌<◌, ◌≡◌, ◌≢◌, ◌⊎◌, refl, sym, ap, ◌∙◌, arith, Bool, true, false, Option, none, some, inl,
  inr, put, put-self, put-other, ℕ_discrete,
}
use alchemy.Rid.{Rid, sentinel}
use alchemy.Oid.{from_rid}
use alchemy.Schema.{Schema}
use alchemy.Schema.Laws.{SchemaLaws}
use alchemy.Query.{Field}
use alchemy.Clock.{Chance}
use alchemy.ClockCache.{ClockCache}
use alchemy.ClockCache.View.{view}
use alchemy.ClockCache.Insert.{insert-Inserted, Inserted}
use alchemy.Alloc.{Memory}
use alchemy.Alloc.Heap.{HeapArray, Outcome, append}
use alchemy.Alloc.Slots.Reached.{appended, append-fresh, append-capacity}
use alchemy.Table.{DbIndex, DbTable, insert}
use alchemy.Table.Rows.{IndexLaws}
use alchemy.Table.Sessions.{Session}
use alchemy.Table.Sessions.Agree.{Agrees}

module _ {I : DbIndex} {S : Schema} where
  pair-eq : (a b : Rid × DbTable I S) → Path (Option (Rid × DbTable I S)) (some a) (some b) → a ≡ b
  pair-eq a b e = cc (e)

  module _ (index_laws : IndexLaws I) {proper : Field → Type 0} (laws : SchemaLaws S proper)
      (s : Session I S) (spec : ℕ → Option S.Tuple) (a : Agrees s spec)
      (fuel thread_id index rounds : ℕ) (spurious : ℕ → Bool) (chance : ℕ → Chance)
      (tuple : S.Tuple) (h : HeapArray) (m : Memory)
      (got : append fuel thread_id (from_rid 0) s.heap s.words ≡ some (Outcome.done index h m))
      (fair : spurious (suc rounds) ≡ false) where
    fresh : (a.live index ≡ false) × (index < sentinel)
    fresh =
        let (free, below, _, _) =
          append-fresh s.heap h s.words m a.live fuel thread_id (from_rid 0) index a.reach got in
        (free, omega (arith, below, a.small))

    into_cache :
        (c : ClockCache S) × ((insert (some index) (suc (suc rounds)) spurious chance tuple s.table)
          ≡ some (index, record { cache = c; index = I.insert s.table.index (S.key tuple) index }))
        × Inserted a.live s.table.cache index tuple c
    unfolding insert
    into_cache =
        let (c, e, done) =
          insert-Inserted s.table.cache a.coherent index fresh.0 fresh.1 tuple
            (laws.write_back-to_cached tuple) rounds spurious chance fair in
        (c, rw (e, insert) refl, done)

    abbrev after : DbTable I S
    after = record { cache = into_cache.0; index = I.insert s.table.index (S.key tuple) index }

    not_new : (key : ℕ) → I.get s.table.index key ≢ some index
    not_new key e = cc (fresh.0, a.indexed key index e)

    lookup :
        (key : ℕ)
        → ((S.key tuple ≡ key) × (I.get after.index key ≡ some index))
          ⊎ ((S.key tuple ≢ key) × (I.get after.index key ≡ I.get s.table.index key))
    lookup key = elim (ℕ_discrete (S.key tuple) key) [
      | yes e ↦ inl (
        e,
        subst (λ k. I.get after.index k ≡ some index) e
            (index_laws.get-insert_self s.table.index (S.key tuple) index),
      )
      | no ne ↦ inr (ne, index_laws.get-insert_other s.table.index (S.key tuple) key index ne)
    ]

    -- What a key leads to afterwards.
    abbrev At : ℕ → Rid → Type 0
    At key r =
        ((S.key tuple ≡ key) × (index ≡ r))
        ⊎ ((S.key tuple ≢ key) × (I.get s.table.index key ≡ some r))

    after-At : (key : ℕ) (r : Rid) → I.get after.index key ≡ some r → At key r
    after-At key r at = elim (lookup key) [
      | inl (e, here) ↦ inl (e, cc (here, at))
      | inr (ne, same) ↦ inr (ne, sym same ∙ at)
    ]

    old-ne : (key : ℕ) (r : Rid) → I.get s.table.index key ≡ some r → index ≢ r
    old-ne key r old e = not_new key (old ∙ ap some (sym e))

    after-Agrees :
        Agrees (record { table = after; heap = h; words = m }) (put spec (S.key tuple) (some tuple))
    after-Agrees =
        let c = into_cache.0 in
        let (own, rest, coherent, _) = into_cache.2 in
        record {
          live = put a.live index true;
          reach = appended fuel thread_id (from_rid 0) index a.reach got;
          small = omega (
            arith,
            a.small,
            append-capacity s.heap h s.words m a.live fuel thread_id (from_rid 0) index a.reach got,
          );
          coherent = coherent;
          indexed = λ key r at. elim (after-At key r at) [
            | inl (_, e) ↦
                subst (λ x. put a.live index true x ≡ true) e
                  (put-self (λ v. v ≡ true) a.live index refl)
            | inr (_, old) ↦
                put-other (λ v. v ≡ true) a.live index r true (old-ne key r old)
                  (a.indexed key r old)
          ];
          apart = λ key key' r at at'. elim (after-At key r at) [
            | inl (e, here) ↦ elim (after-At key' r at') [
              | inl (e', _) ↦ sym e ∙ e'
              | inr (_, old) ↦ absurd (old-ne key' r old here)
            ]
            | inr (_, old) ↦ elim (after-At key' r at') [
              | inl (_, here) ↦ absurd (old-ne key r old here)
              | inr (_, old') ↦ a.apart key key' r old old'
            ]
          ];
          found = λ key r at. elim (after-At key r at) [
            | inl (e, here) ↦
                subst (λ k. put spec (S.key tuple) (some tuple) k ≡ some (view c r)) e
                  (put-self (λ v. v ≡ some (view c r)) spec (S.key tuple)
                    (ap some (sym own ∙ ap (view c) here)))
            | inr (ne, old) ↦
                put-other (λ v. v ≡ some (view c r)) spec (S.key tuple) key (some tuple) ne
                  (a.found key r old ∙ ap some (sym (rest r (a.indexed key r old))))
          ];
          missing = λ key at. elim (lookup key) [
            | inl (_, here) ↦ cc (here, at)
            | inr (ne, same) ↦
                put-other (λ v. v ≡ none) spec (S.key tuple) key (some tuple) ne
                  (a.missing key (sym same ∙ at))
          ];
        }

    -- What `insert` answers, and that the table agrees with the client afterwards.
    pub inserted-Agrees :
        (rid : Rid) (t : DbTable I S)
        → insert (some index) (suc (suc rounds)) spurious chance tuple s.table ≡ some (rid, t)
        → (rid ≡ index)
          × Agrees (record { table = t; heap = h; words = m }) (put spec (S.key tuple) (some tuple))
    inserted-Agrees rid t e =
        let same = pair-eq (index, after) (rid, t) (sym into_cache.1 ∙ e) in
        (
          sym (ap (λ x. x.0) same),
          subst
              (λ x.
                Agrees (record { table = x; heap = h; words = m })
                  (put spec (S.key tuple) (some tuple)))
              (ap (λ x. x.1) same) after-Agrees,
        )

    pub insert-returns :
        (t : DbTable I S) × (insert (some index) (suc (suc rounds)) spurious chance tuple s.table
          ≡ some (index, t))
    insert-returns = (after, into_cache.1)
