-- ===== src/Tests/Cache.antt =====
-- A cache with one slot over two records: record 1 is in it, record 0 is not, and record 2 is new.
use alchemy.Base.{
  ℕ, ◌+◌, ◌*◌, ◌^◌, ◌≡◌, ◌≢◌, refl, arith, Bool, true, false, none, some, List, [], ◌∷◌, ltb, ◌==◌,
  if◌then◌else◌,
}
use alchemy.Query.{Field, field, field_eq, FieldsMeta}
use alchemy.Query.{UpdateQuery}
use alchemy.Schema.{Schema, update_cached, update_tuple}
use alchemy.Schema.Laws.{SchemaLaws, write_back-update_cached}
use alchemy.Clock.{Mem, Chance}
use alchemy.Clock.Coherent.{Coherent}
use alchemy.ClockCache.{ClockCache, read_and_promote, get_value, get_value_mut, insert}
use alchemy.ClockCache.View.{view}
use alchemy.ClockCache.Kept.{Kept}
use alchemy.ClockCache.Contract.{
  get_value-read_and_promote, read_and_promote-Kept, get_value_mut-read_and_promote,
}
use alchemy.ClockCache.Insert.{Inserted, insert-Inserted}
use alchemy.FieldItem.{field_item_schema, to_cached_field, position}
use alchemy.FieldItem.Laws.{IsWordField, DistinctWords, field_item_schema-SchemaLaws}

-- Words 0 and 3 are cached.
abbrev fields : List Field
fields = field 0 8 ∷ field 24 32 ∷ []

fields-DistinctWords : DistinctWords fields
fields-DistinctWords = ((refl, refl), ((λ e. omega arith), tt), ((refl, refl), tt, tt))

abbrev pub schema : Schema
schema = field_item_schema fields

pub laws : SchemaLaws schema IsWordField
laws = field_item_schema-SchemaLaws fields fields-DistinctWords (omega arith)

field_item_schema-SchemaLaws_example : SchemaLaws (field_item_schema fields) IsWordField
field_item_schema-SchemaLaws_example =
    field_item_schema-SchemaLaws fields fields-DistinctWords (omega arith)

abbrev pub live : ℕ → Bool
live r = ltb r 2

abbrev mem : Mem schema.Cached
mem = record {
  inner = record {
    capacity = 1;
    probe_len = 4;
    tls_index = none;
    entries = λ i. record { rid = 1; meta = 0; val = λ k. 70 + k };
  };
  oids = λ r. if r == 1 then 255 * 2 ^ 48 else r;
}

abbrev pub cache : ClockCache schema
cache = record { mem = mem; storage = λ r k. 10 * r + k }

pub cache-Coherent : Coherent live mem
cache-Coherent = record {
  some_room = omega arith;
  small = omega arith;
  rids = λ r l. ground arith;
  words = λ r l. ground arith;
  at_home = λ r l t. ground arith;
  in_cache = λ r l t. ground arith;
  held = λ i lt u. (refl, (λ e. absurd (omega arith)), omega arith);
}

abbrev pub chance : ℕ → Chance
chance _ = record { lock_spurious = false; exchange_spurious = false }

-- Word 3 is cached, word 5 is not.
abbrev pub query : FieldsMeta
query = field 24 32 ∷ field 40 48 ∷ []

get_value-read_and_promote_example :
    (let (q, s') = read_and_promote true true true chance 0 query cache in
      get_value s' q (field 24 32) ≡ some (schema.load_tuple (view cache 0) (field 24 32)))
get_value-read_and_promote_example =
    get_value-read_and_promote laws live true true true chance 0 query cache cache-Coherent refl 0
      (field 24 32) refl (refl, refl)

read_and_promote-Kept_example :
    Kept live cache (read_and_promote true true true chance 0 query cache).1
read_and_promote-Kept_example =
    read_and_promote-Kept laws live true true true chance 0 query cache cache-Coherent refl

get_value_mut-read_and_promote_example :
    (let (q, s') = read_and_promote true true true chance 0 query cache in
      (s'' : ClockCache schema) × (get_value_mut s' q (field 24 32) 99 ≡ some s'')
      × (view s'' 0 ≡ schema.store_tuple (view cache 0) (field 24 32) 99)
      × ((x : ℕ) → live x ≡ true → 0 ≢ x → view s'' x ≡ view cache x)
      × Coherent live s''.mem)
get_value_mut-read_and_promote_example =
    get_value_mut-read_and_promote laws live true true true chance 0 query cache cache-Coherent refl
      0 (field 24 32) 99 refl (refl, refl)

insert-Inserted_example :
    (s' : ClockCache schema) × (insert (some 2) 2 (λ _. false) chance (λ k. 30 + k) cache
      ≡ some (2, s'))
    × Inserted live cache 2 (λ k. 30 + k) s'
insert-Inserted_example =
    insert-Inserted cache cache-Coherent 2 refl (omega arith) (λ k. 30 + k)
      (laws.write_back-to_cached (λ k. 30 + k)) 0 (λ _. false) chance refl

-- Two fields and their bytes.
abbrev update : UpdateQuery
update = record { meta = query; bytes = [] }

write_back-update_cached_example :
    schema.write_back (update_cached schema (λ k. 70 + k) ((field 24 32, 99) ∷ [])) (λ k. k)
    ≡ update_tuple schema (schema.write_back (λ k. 70 + k) (λ k. k)) ((field 24 32, 99) ∷ [])
unfolding to_cached_field position field_eq
write_back-update_cached_example =
    write_back-update_cached laws ((field 24 32, 99) ∷ []) (λ k. 70 + k) (λ k. k) ((refl, refl), tt)
      ((λ e. ground arith), tt)
