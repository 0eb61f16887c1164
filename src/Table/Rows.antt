-- ===== src/Table/Rows.antt =====
-- A table of src/table.rs as a map from keys to tuples.
use alchemy.Base.{
  ℕ, suc, ◌<◌, ◌≡◌, ◌≢◌, refl, sym, ap, ◌∙◌, Bool, true, false, Option, none, some, Option-cases,
  inl, inr,
}
use alchemy.Rid.{Rid, sentinel}
use alchemy.Schema.{Schema}
use alchemy.Clock.{Chance}
use alchemy.Clock.Coherent.{Coherent}
use alchemy.ClockCache.View.{view}
use alchemy.ClockCache.Insert.{insert-Inserted}
use alchemy.Table.{DbIndex, DbTable, insert}

-- What a table relies on in an index: a lookup gives what was inserted last under its key.
pub record IndexLaws (I : DbIndex) : Type 0 where
  pub get-insert_self :
      (index : I.Index) (key : ℕ) (rid : Rid) → I.get (I.insert index key rid) key ≡ some rid
  pub get-insert_other :
      (index : I.Index) (key key' : ℕ) (rid : Rid)
      → key ≢ key'
      → I.get (I.insert index key rid) key' ≡ I.get index key'

-- The tuple under a key.
unfoldable pub row : {I : DbIndex} {S : Schema} → DbTable I S → ℕ → Option S.Tuple
unfolding view
row {I} {S} t key = elim (I.get t.index key) [ none ↦ none | some rid ↦ some (view t.cache rid) ]

module _ {I : DbIndex} {S : Schema} (laws : IndexLaws I) where
  at_found :
      (t : DbTable I S) (key : ℕ) (rid : Rid)
      → I.get t.index key ≡ some rid
      → row t key ≡ some (view t.cache rid)
  unfolding row
  at_found t key rid e = rw (e, row) refl

  at_missing : (t : DbTable I S) (key : ℕ) → I.get t.index key ≡ none → row t key ≡ none
  unfolding row
  at_missing t key e = rw (e, row) refl

  -- The index obeys its laws and leads to existing records only, the words and the entries of the cache agree, `append`
  -- gives the id of a record that does not exist yet and is not the sentinel, writing the cached part of
  -- the tuple back to it changes nothing, and the loop of `write` is given a round, after its first, whose
  -- exchange does not fail for no reason. Then `insert` returns; the tuple is found under its
  -- key, and every other key leads to the tuple, or to none, as before.
  pub row-insert :
      {live : ℕ → Bool} (t : DbTable I S) (rid : ℕ) (tuple : S.Tuple) (k : ℕ) (spurious : ℕ → Bool)
      (chance : ℕ → Chance)
      → Coherent live t.cache.mem
      → ((key : ℕ) (r : Rid) → I.get t.index key ≡ some r → live r ≡ true)
      → live rid ≡ false
      → rid < sentinel
      → S.write_back (S.to_cached tuple) tuple ≡ tuple
      → spurious (suc k) ≡ false
      → (t' : DbTable I S) × (insert (some rid) (suc (suc k)) spurious chance tuple t
          ≡ some (rid, t'))
        × (row t' (S.key tuple) ≡ some tuple)
        × ((key : ℕ) → S.key tuple ≢ key → row t' key ≡ row t key)
  unfolding insert
  row-insert t rid tuple k spurious chance c indexed fresh lt filled fair =
      let (cache, e, (own, rest, _, _)) =
        insert-Inserted t.cache c rid fresh lt tuple filled k spurious chance fair in
      let t' : DbTable I S = record { cache = cache; index = I.insert t.index (S.key tuple) rid } in
      (
        t',
        rw (e, insert) refl,
        at_found t' (S.key tuple) rid (laws.get-insert_self t.index (S.key tuple) rid)
            ∙ ap some own,
        λ key ne.
            let same = laws.get-insert_other t.index (S.key tuple) key rid ne in
            elim (Option-cases (I.get t.index key)) [
              | inl missing ↦ at_missing t' key (same ∙ missing) ∙ sym (at_missing t key missing)
              | inr (r, found) ↦
                  at_found t' key r (same ∙ found)
                  ∙ ap some (rest r (indexed key r found))
                  ∙ sym (at_found t key r found)
            ],
      )
