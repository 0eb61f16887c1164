-- ===== src/FieldItem.antt =====
-- The schema of the tests and micro benchmarks, `FieldItemSchema` of src/utils/test_gen.rs: tuples and cached
-- items are arrays of 64-bit words, and a field is one word. An array is the family of its words; the
-- bytes at an offset that is a multiple of 8 are the word with that index.
pub mod Laws
use alchemy.Base.{
  ℕ, zero, suc, ◌+◌, ◌*◌, ◌/◌, Option, none, some, List, [], ◌∷◌, put, ltb, length, ◌%◌, ◌^◌,
  if◌then◌else◌,
}
use alchemy.Query.{Field, field, FieldsMeta, field_eq, from_span}
use alchemy.Schema.{Schema}

-- `TestItem`.
abbrev pub TestItem : Type 0
TestItem = ℕ → ℕ

-- `FieldCached`.
abbrev pub FieldCached : Type 0
FieldCached = ℕ → ℕ

-- `TestItem::from_fixed` and `TestItem::from_increasing`.
unfoldable pub from_fixed : ℕ → TestItem
from_fixed val i = val

unfoldable pub from_increasing : ℕ → TestItem
from_increasing base i = base + i

unfoldable pub word_fields : List ℕ → FieldsMeta
word_fields [] = []
word_fields (v ∷ fields) =
    (let start = v * 8 % 2 ^ 16 in field start ((start + 8) % 2 ^ 16)) ∷ word_fields fields

-- `TestItem::build_query`, with the size of the tuple; `none` is the failed assertion.
unfoldable pub build_query : ℕ → List ℕ → Option FieldsMeta
unfolding word_fields
build_query tuple_size fields =
    if ltb (length fields) tuple_size then some (word_fields fields) else none

-- `TestItem::read_field`.
unfoldable pub read_field : TestItem → Field → ℕ
read_field t f = t (f.begin / 8)

-- `FieldItemSchema::position`, counting from an index.
unfoldable pub position : ℕ → List Field → Field → Option ℕ
unfolding field_eq
position i [] f = none
position i (g ∷ fields) f =
    let rest = position (suc i) fields f in if field_eq g f then some i else rest

-- `FieldItemSchema::to_cached`: the loop from an index.
unfoldable pub to_cached_from : ℕ → List Field → TestItem → FieldCached → FieldCached
to_cached_from i [] t c = c
to_cached_from i (f ∷ fields) t c = to_cached_from (suc i) fields t (put c i (t (f.begin / 8)))

-- `FieldItemSchema::write_back`: the loop from an index.
unfoldable pub write_back_from : ℕ → List Field → FieldCached → TestItem → TestItem
write_back_from i [] c t = t
write_back_from i (f ∷ fields) c t = write_back_from (suc i) fields c (put t (f.begin / 8) (c i))

-- `FieldItemSchema::to_cached_field`.
unfoldable pub to_cached_field : List Field → Field → Option Field
unfolding position from_span
to_cached_field fields f = elim (position 0 fields f) [
  | none ↦ none
  | some i ↦ some (from_span (i * 8) ((i + 1) * 8))
]

-- The implementation of `Schema`. The reads and writes of a word go through a pointer to the first byte of the field.
abbrev pub field_item_schema : List Field → Schema
field_item_schema fields = record {
  Cached = FieldCached;
  Tuple = TestItem;
  Value = ℕ;
  to_cached = λ t. to_cached_from 0 fields t (λ _. 0);
  write_back = write_back_from 0 fields;
  key = λ t. t 0;
  to_cached_field = to_cached_field fields;
  load_cached = λ c g. c (g.begin / 8);
  store_cached = λ c g v. put c (g.begin / 8) v;
  load_tuple = λ t f. t (f.begin / 8);
  store_tuple = λ t f v. put t (f.begin / 8) v;
}
