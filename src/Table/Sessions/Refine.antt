-- ===== src/Table/Sessions/Refine.antt =====
-- A table (src/table.rs) over its cache, its index and the heap of its lock words is a map from keys to tuples.
use mathlib.Core.Path.{subst}
use alchemy.Base.{
  ℕ, ◌≡◌, ◌≢◌, sym, ap, ◌∙◌, Bool, true, Option, none, some, Option-cases, inl, inr, put, put-self,
  put-other, ℕ_discrete, get_elem?,
}
use alchemy.Rid.{Rid}
use alchemy.Oid.{try_read, try_write}
use alchemy.Query.{Field, FieldsMeta}
use alchemy.Schema.{Schema}
use alchemy.Schema.Laws.{SchemaLaws}
use alchemy.Clock.{Chance}
use alchemy.ClockCache.{
  ClockCache, QueryValue, get_value, get_value_mut, set_word, read_lock, write_lock,
}
use alchemy.ClockCache as Cache
use alchemy.Clock.Coherent.{Coherent}
use alchemy.ClockCache.View.{view}
use alchemy.ClockCache.Reads.{read-Served}
use alchemy.ClockCache.Contract.{read_and_promote-Kept, get_value_mut-read_and_promote}
use alchemy.Table.{DbIndex, DbTable, read, read_and_promote, read_oid, write_oid}
use alchemy.Table.Sessions.{Session, with_table, with_cache}
use alchemy.Table.Sessions.Words.{try_read-Relocks, try_write-Relocks}
use alchemy.Table.Sessions.Agree.{Agrees, keeps, relocks}

some-eq : {A : Type 0} (x y : A) → Path (Option A) (some x) (some y) → x ≡ y
some-eq x y e = cc (e)

module _ {I : DbIndex} {S : Schema} where
  pub read_oid-Agrees :
      (s : Session I S) (spec : ℕ → Option S.Tuple) (key val : ℕ) (spurious : Bool)
      → Agrees s spec
      → Agrees (with_table s (read_oid key val spurious s.table).1) spec
  unfolding read_oid read_lock
  read_oid-Agrees s spec key val spurious a = elim (Option-cases (I.get s.table.index key)) [
    | inl e ↦ rw (e, read_oid) a
    | inr (rid, e) ↦
        rw (e, read_oid)
          (relocks s spec a rid (try_read val (s.table.cache.mem.oids rid) spurious).1
            (try_read-Relocks val (s.table.cache.mem.oids rid) spurious))
  ]

  pub write_oid-Agrees :
      (s : Session I S) (spec : ℕ → Option S.Tuple) (key val : ℕ) (spurious : Bool)
      → Agrees s spec
      → Agrees (with_table s (write_oid key val spurious s.table).1) spec
  unfolding write_oid write_lock
  write_oid-Agrees s spec key val spurious a = elim (Option-cases (I.get s.table.index key)) [
    | inl e ↦ rw (e, write_oid) a
    | inr (rid, e) ↦
        rw (e, write_oid)
          (relocks s spec a rid (try_write val (s.table.cache.mem.oids rid) spurious).1
            (try_write-Relocks val (s.table.cache.mem.oids rid) spurious))
  ]

  -- A call whose result is given.
  pub given_table :
      {A : Type 0} (s : Session I S) (spec : ℕ → Option S.Tuple) (out : A × DbTable I S) (r : A)
      (t : DbTable I S)
      → out ≡ (r, t)
      → Agrees (with_table s out.1) spec
      → Agrees (with_table s t) spec
  given_table s spec out r t e = subst (λ x. Agrees (with_table s x) spec) (ap (λ x. x.1) e)

  module _ {proper : Field → Type 0} (laws : SchemaLaws S proper) (s : Session I S)
      (spec : ℕ → Option S.Tuple) (a : Agrees s spec) where
    pub read-Agrees :
        (roll : Bool) (key : ℕ) (rid : Rid) (query : FieldsMeta)
        → I.get s.table.index key ≡ some rid
        → Agrees (with_table s (read roll rid query s.table).1) spec
    unfolding read
    read-Agrees roll key rid query at =
        let (_, kept) =
          read-Served a.live roll rid s.table.cache a.coherent (a.indexed key rid at) query in
        keeps s spec a (Cache.read roll rid query s.table.cache).1 kept.coherent kept.views

    pub promote-Agrees :
        (roll0 roll ref_roll : Bool) (chance : ℕ → Chance) (key : ℕ) (rid : Rid)
        (query : FieldsMeta)
        → I.get s.table.index key ≡ some rid
        → Agrees
            (with_table s (read_and_promote roll0 roll ref_roll chance rid query s.table).1)
            spec
    unfolding read_and_promote
    promote-Agrees roll0 roll ref_roll chance key rid query at =
        let kept =
          read_and_promote-Kept laws a.live roll0 roll ref_roll chance rid query s.table.cache
            a.coherent (a.indexed key rid at) in
        keeps s spec a (Cache.read_and_promote roll0 roll ref_roll chance rid query s.table.cache).1
          kept.coherent kept.views

    -- A field of the record under a key is overwritten.
    wrote-Agrees :
        (key : ℕ) (rid : Rid) (tuple : S.Tuple) (f : Field) (v : S.Value) (c : ClockCache S)
        → I.get s.table.index key ≡ some rid
        → spec key ≡ some tuple
        → view c rid ≡ S.store_tuple (view s.table.cache rid) f v
        → ((x : ℕ) → a.live x ≡ true → rid ≢ x → view c x ≡ view s.table.cache x)
        → Coherent a.live c.mem
        → Agrees (with_cache s c) (put spec key (some (S.store_tuple tuple f v)))
    wrote-Agrees key rid tuple f v c at expected own rest coherent =
        let is_tuple : tuple ≡ view s.table.cache rid =
          some-eq tuple (view s.table.cache rid) (sym expected ∙ a.found key rid at) in
        record {
          live = a.live;
          reach = a.reach;
          small = a.small;
          coherent = coherent;
          indexed = a.indexed;
          apart = a.apart;
          found = λ key' r at'. elim (ℕ_discrete key key') [
            | yes e ↦
                let same : rid ≡ r = some-eq rid r (sym at ∙ ap (I.get s.table.index) e ∙ at') in
                subst (λ k. put spec key (some (S.store_tuple tuple f v)) k ≡ some (view c r)) e
                  (put-self (λ x. x ≡ some (view c r)) spec key
                    (ap (λ x. some (S.store_tuple x f v)) is_tuple
                      ∙ ap some (sym own ∙ ap (view c) same)))
            | no ne ↦
                put-other (λ x. x ≡ some (view c r)) spec key key' (some (S.store_tuple tuple f v))
                  ne
                  (a.found key' r at'
                    ∙ ap some (
                        sym (
                          rest r (a.indexed key' r at')
                            (λ e. ne (a.apart key key' r (at ∙ ap some e) at')))))
          ];
          missing = λ key' none_at. elim (ℕ_discrete key key') [
            | yes e ↦ cc (at, ap (I.get s.table.index) e, none_at)
            | no ne ↦
                put-other (λ x. x ≡ none) spec key key' (some (S.store_tuple tuple f v)) ne
                  (a.missing key' none_at)
          ];
        }

    pub write-Agrees :
        (roll0 roll ref_roll : Bool) (chance : ℕ → Chance) (key : ℕ) (rid : Rid)
        (query : FieldsMeta) (q : QueryValue) (i : ℕ) (f : Field) (v : S.Value) (tuple : S.Tuple)
        (t : DbTable I S) (c : ClockCache S)
        → I.get s.table.index key ≡ some rid
        → read_and_promote roll0 roll ref_roll chance rid query s.table ≡ (q, t)
        → get_elem? query i ≡ some f
        → proper f
        → get_value_mut t.cache q f v ≡ some c
        → spec key ≡ some tuple
        → Agrees (with_cache (with_table s t) c) (put spec key (some (S.store_tuple tuple f v)))
    unfolding read_and_promote
    write-Agrees roll0 roll ref_roll chance key rid query q i f v tuple t c at e asked ok_f wrote
          expected =
        let (c', wrote', own, rest, coherent) =
          get_value_mut-read_and_promote laws a.live roll0 roll ref_roll chance rid query
            s.table.cache a.coherent (a.indexed key rid at) i f v asked ok_f in
        let same : c' ≡ c =
          some-eq c' c (sym wrote' ∙ ap (λ x. get_value_mut x.1.cache x.0 f v) e ∙ wrote) in
        let done = wrote-Agrees key rid tuple f v c' at expected own rest coherent in
        subst
          (λ x.
            Agrees (with_cache (with_table s x) c) (put spec key (some (S.store_tuple tuple f v))))
          (ap (λ x. x.1) e)
          (subst (λ x. Agrees (with_cache s x) (put spec key (some (S.store_tuple tuple f v)))) same
            done)
