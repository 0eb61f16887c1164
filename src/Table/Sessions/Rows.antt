-- ===== src/Table/Sessions/Rows.antt =====
-- What a client of a table (src/table.rs) sees over any sequence of calls.
use alchemy.Base.{
  ℕ, suc, ◌≡◌, ◌≢◌, refl, sym, ◌∙◌, Bool, false, Option, some, put-self, put-other, get_elem?,
}
use alchemy.Rid.{Rid}
use alchemy.Oid.{from_rid, read_unlock, write_unlock}
use alchemy.Query.{Field, FieldsMeta}
use alchemy.Schema.{Schema}
use alchemy.Schema.Laws.{SchemaLaws}
use alchemy.Clock.{Chance}
use alchemy.ClockCache.{get_value}
use alchemy.ClockCache.View.{view}
use alchemy.ClockCache.Contract.{get_value-read, get_value-read_and_promote}
use alchemy.Alloc.{Memory}
use alchemy.Alloc.Heap.{HeapArray, Outcome, append}
use alchemy.Table.{DbIndex, DbTable, insert, read, read_and_promote, read_oid, write_oid}
use alchemy.Table.Rows.{IndexLaws, row}
use alchemy.Table.Sessions.{
  Session, Run, opened, inserted, read_guard, write_guard, drop_read, drop_write, reads, promotes,
  writes,
}
use alchemy.Table.Sessions.Words.{read_unlock-Relocks, write_unlock-Relocks}
use alchemy.Table.Sessions.Agree.{Agrees, Agrees-row, relocks}
use alchemy.Table.Sessions.Opened.{opened-Agrees}
use alchemy.Table.Sessions.Inserted.{inserted-Agrees, insert-returns}
use alchemy.Table.Sessions.Refine.{
  read_oid-Agrees, write_oid-Agrees, given_table, read-Agrees, promote-Agrees, write-Agrees,
}

module _ {I : DbIndex} {S : Schema} (index_laws : IndexLaws I) {proper : Field → Type 0}
    (laws : SchemaLaws S proper) where
  pub Run-Agrees : {s : Session I S} {spec : ℕ → Option S.Tuple} → Run proper s spec → Agrees s spec
  Run-Agrees (opened node_size tuple_size zeroed oids storage b {t} {h} {m} e room no_key r small) =
      opened-Agrees node_size tuple_size zeroed oids storage b t h m e room no_key r small
  Run-Agrees
        (inserted fuel thread_id index rounds spurious chance tuple rid {s} {spec} {t} {h} {m} r got
          fair e) =
      (inserted-Agrees index_laws laws s spec (Run-Agrees r) fuel thread_id index rounds spurious
        chance tuple h m got fair rid t e).1
  Run-Agrees (read_guard key val spurious out {s} {spec} {t} r e) =
      given_table s spec (read_oid key val spurious s.table) out t e
        (read_oid-Agrees s spec key val spurious (Run-Agrees r))
  Run-Agrees (write_guard key val spurious out {s} {spec} {t} r e) =
      given_table s spec (write_oid key val spurious s.table) out t e
        (write_oid-Agrees s spec key val spurious (Run-Agrees r))
  Run-Agrees (drop_read rid {s} {spec} r _ _) =
      relocks s spec (Run-Agrees r) rid (read_unlock (s.table.cache.mem.oids rid))
        (read_unlock-Relocks (s.table.cache.mem.oids rid))
  Run-Agrees (drop_write rid {s} {spec} r _) =
      relocks s spec (Run-Agrees r) rid (write_unlock (s.table.cache.mem.oids rid))
        (write_unlock-Relocks (s.table.cache.mem.oids rid))
  Run-Agrees (reads roll key rid query q {s} {spec} {t} r at e) =
      given_table s spec (read roll rid query s.table) q t e
        (read-Agrees laws s spec (Run-Agrees r) roll key rid query at)
  Run-Agrees (promotes roll0 roll ref_roll chance key rid query q {s} {spec} {t} r at e) =
      given_table s spec (read_and_promote roll0 roll ref_roll chance rid query s.table) q t e
        (promote-Agrees laws s spec (Run-Agrees r) roll0 roll ref_roll chance key rid query at)
  Run-Agrees
        (writes roll0 roll ref_roll chance key rid query q i f v tuple {s} {spec} {t} {c} r at e
          asked ok_f wrote expected) =
      write-Agrees laws s spec (Run-Agrees r) roll0 roll ref_roll chance key rid query q i f v tuple
        t c at e asked ok_f wrote expected

  -- The index and the schema obey their laws. After any sequence of insertions, reads, promotions, writes of fields,
  -- and guards that are taken and dropped, on a new table, each key leads to the tuple that was
  -- inserted last under it with the fields that were written since, or to none where nothing was inserted: wherever
  -- the cache has moved the record.
  pub row-Run :
      (s : Session I S) (spec : ℕ → Option S.Tuple)
      → Run proper s spec
      → (key : ℕ) → row s.table key ≡ spec key
  row-Run s spec r = Agrees-row s spec (Run-Agrees r)

  -- The index and the schema obey their laws. After any such sequence, a record that the index has under
  -- a key is read, with or without promotion: `get_value` of a proper field that the query asks for
  -- does not panic, and gives that field of the tuple that the client expects under the key.
  pub get_value-Run :
      (s : Session I S) (spec : ℕ → Option S.Tuple) (key : ℕ) (rid : Rid) (query : FieldsMeta)
      (i : ℕ) (f : Field)
      → Run proper s spec
      → I.get s.table.index key ≡ some rid
      → get_elem? query i ≡ some f
      → proper f
      → (tuple : S.Tuple) × (spec key ≡ some tuple)
        × ((roll : Bool)
            → get_value (read roll rid query s.table).1.cache (read roll rid query s.table).0 f
              ≡ some (S.load_tuple tuple f))
        × ((roll0 roll ref_roll : Bool) (chance : ℕ → Chance)
            → (let (q, t) = read_and_promote roll0 roll ref_roll chance rid query s.table in
                get_value t.cache q f ≡ some (S.load_tuple tuple f)))
  unfolding read read_and_promote
  get_value-Run s spec key rid query i f r at asked ok_f =
      let a = Run-Agrees r in
      let alive = a.indexed key rid at in
      (
        view s.table.cache rid,
        a.found key rid at,
        (λ roll.
            get_value-read laws a.live roll rid query s.table.cache a.coherent alive i f asked
              ok_f),
        λ roll0 roll ref_roll chance.
            get_value-read_and_promote laws a.live roll0 roll ref_roll chance rid query
              s.table.cache a.coherent alive i f asked ok_f,
      )

  -- The index and the schema obey their laws. After any such sequence, if `append` gives an index, and the
  -- loop of `write` is given a round, after its first, whose exchange does not fail for no reason, then
  -- `insert` returns that index as the record's id. The tuple is found under its key, and every other key leads where
  -- it did.
  pub insert-Run :
      (s : Session I S) (spec : ℕ → Option S.Tuple) (fuel thread_id index rounds : ℕ)
      (spurious : ℕ → Bool) (chance : ℕ → Chance) (tuple : S.Tuple) (h : HeapArray) (m : Memory)
      → Run proper s spec
      → append fuel thread_id (from_rid 0) s.heap s.words ≡ some (Outcome.done index h m)
      → spurious (suc rounds) ≡ false
      → (t : DbTable I S) × (insert (some index) (suc (suc rounds)) spurious chance tuple s.table
          ≡ some (index, t))
        × (row t (S.key tuple) ≡ some tuple)
        × ((key : ℕ) → S.key tuple ≢ key → row t key ≡ row s.table key)
  insert-Run s spec fuel thread_id index rounds spurious chance tuple h m r got fair =
      let a = Run-Agrees r in
      let (t, e) =
        insert-returns index_laws laws s spec a fuel thread_id index rounds spurious chance tuple h
          m got fair in
      let (_, after) =
        inserted-Agrees index_laws laws s spec a fuel thread_id index rounds spurious chance tuple h
          m got fair index t e in
      let now = Agrees-row _ _ after in
      (
        t,
        e,
        now (S.key tuple) ∙ put-self (λ x. x ≡ some tuple) spec (S.key tuple) refl,
        λ key ne.
            now key
            ∙ put-other (λ x. x ≡ spec key) spec (S.key tuple) key (some tuple) ne refl
            ∙ sym (Agrees-row s spec a key),
      )
