-- ===== src/ClockCache/Contract.antt =====
-- What a table promises of its records, whatever the cache does: reads through the query values of
-- src/attribute_cache/clock_cache/mod.rs give the record's tuple, and writes change it.
use alchemy.Base.{ℕ, ◌≡◌, ◌≢◌, Bool, true, some, get_elem?, ◌∙◌, ap}
use alchemy.Query.{Field, FieldsMeta}
use alchemy.Schema.{Schema}
use alchemy.Schema.Laws.{SchemaLaws}
use alchemy.Clock.{Chance}
use alchemy.Clock.Coherent.{Coherent}
use alchemy.ClockCache.{ClockCache, QueryValue, read, read_and_promote, get_value, get_value_mut}
use alchemy.ClockCache.View.{view}
use alchemy.ClockCache.Kept.{Kept}
use alchemy.ClockCache.Reads.{Served, read-Served, read_and_promote-Served}
use alchemy.ClockCache.Values.{get_value-Serves, get_value_mut-Serves}

module _ {S : Schema} {proper : Field → Type 0} (laws : SchemaLaws S proper) (live : ℕ → Bool) where
  -- What a call that looks a record up promises of the value and the state it returns: for every
  -- proper field of the query, `get_value` gives that field of the record's tuple.
  Served-loads :
      (s : ClockCache S) (r : ℕ) (query : FieldsMeta) (out : QueryValue × ClockCache S)
      → Served live s r query out
      → live r ≡ true
      → (i : ℕ) (f : Field) → get_elem? query i ≡ some f
      → proper f
      → get_value out.1 out.0 f ≡ some (S.load_tuple (view s r) f)
  Served-loads s r query (q, s') (serves, kept) l i f asked ok_f =
      get_value-Serves laws s' r kept.coherent l query f i asked ok_f q serves
      ∙ ap (λ t. some (S.load_tuple t f)) (kept.views r l)

  -- The schema obeys its laws, and the words and the entries agree. After `read` of an existing record,
  -- `get_value` of a proper field that the query asks for does not panic, and gives that field of the
  -- record's tuple, which is the one in the storage with the cached item, if any, written back.
  pub get_value-read :
      (roll : Bool) (r : ℕ) (query : FieldsMeta) (s : ClockCache S)
      → Coherent live s.mem
      → live r ≡ true
      → (i : ℕ) (f : Field) → get_elem? query i ≡ some f
      → proper f
      → get_value (read roll r query s).1 (read roll r query s).0 f
        ≡ some (S.load_tuple (view s r) f)
  get_value-read roll r query s c l =
      Served-loads s r query (read roll r query s) (read-Served live roll r s c l query) l

  -- The schema obeys its laws, and the words and the entries agree. However the dice fall and the
  -- exchanges turn out, after `read_and_promote` of an existing record, `get_value` of a proper
  -- field that the query asks for does not panic, and gives that field of the record's tuple.
  pub get_value-read_and_promote :
      (roll0 roll ref_roll : Bool) (chance : ℕ → Chance) (r : ℕ) (query : FieldsMeta)
      (s : ClockCache S)
      → Coherent live s.mem
      → live r ≡ true
      → (i : ℕ) (f : Field) → get_elem? query i ≡ some f
      → proper f
      → (let (q, s') = read_and_promote roll0 roll ref_roll chance r query s in
          get_value s' q f ≡ some (S.load_tuple (view s r) f))
  get_value-read_and_promote roll0 roll ref_roll chance r query s c l =
      Served-loads s r query (read_and_promote roll0 roll ref_roll chance r query s)
        (read_and_promote-Served live roll0 roll ref_roll chance r query s c l
          laws.write_back-to_cached)
        l

  -- The schema obeys its laws, and the words and the entries agree. However the dice fall and the
  -- exchanges turn out, `read_and_promote` of an existing record leaves the words and the entries
  -- in agreement, every record with the tuple it had, the records that enter and leave the cache included, and the
  -- same locks held.
  pub read_and_promote-Kept :
      (roll0 roll ref_roll : Bool) (chance : ℕ → Chance) (r : ℕ) (query : FieldsMeta)
      (s : ClockCache S)
      → Coherent live s.mem
      → live r ≡ true
      → Kept live s (read_and_promote roll0 roll ref_roll chance r query s).1
  read_and_promote-Kept roll0 roll ref_roll chance r query s c l =
      (read_and_promote-Served live roll0 roll ref_roll chance r query s c l
        laws.write_back-to_cached).1

  -- The schema obeys its laws, and the words and the entries agree. After `read_and_promote` of an
  -- existing record, a write of a value through `get_value_mut` at a proper field that the query asks
  -- for does not panic. It makes the record's tuple the one with that field overwritten, leaves the tuple of every
  -- other record, and leaves the words and the entries in agreement.
  pub get_value_mut-read_and_promote :
      (roll0 roll ref_roll : Bool) (chance : ℕ → Chance) (r : ℕ) (query : FieldsMeta)
      (s : ClockCache S)
      → Coherent live s.mem
      → live r ≡ true
      → (i : ℕ) (f : Field) (v : S.Value) → get_elem? query i ≡ some f
      → proper f
      → (let (q, s') = read_and_promote roll0 roll ref_roll chance r query s in
          (s'' : ClockCache S) × (get_value_mut s' q f v ≡ some s'')
          × (view s'' r ≡ S.store_tuple (view s r) f v)
          × ((x : ℕ) → live x ≡ true → r ≢ x → view s'' x ≡ view s x)
          × Coherent live s''.mem)
  get_value_mut-read_and_promote roll0 roll ref_roll chance r query s c l i f v asked ok_f =
      let (q, s') = read_and_promote roll0 roll ref_roll chance r query s in
      let (serves, kept) =
        read_and_promote-Served live roll0 roll ref_roll chance r query s c l
          laws.write_back-to_cached in
      let (s'', e, own, rest, coherent) =
        get_value_mut-Serves laws s' r kept.coherent l query f i asked ok_f q v serves in
      (
        s'',
        e,
        own ∙ ap (λ t. S.store_tuple t f v) (kept.views r l),
        (λ x lx ne. rest x lx ne ∙ kept.views x lx),
        coherent,
      )
