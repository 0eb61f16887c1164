-- ===== src/Schema.antt =====
-- The `Schema` trait and `QueryValue` of src/attribute_cache/mod.rs. A schema says which fields of a
-- tuple the cache holds, and where in the cached item they lie.
pub mod Laws
use alchemy.Base.{ℕ, Bool, true, false, Option, none, some, List, [], ◌∷◌}
use alchemy.Query.{Field, FieldsMeta}

-- The trait, with the accesses that `get_value` and `update_cached` make through raw pointers: what lies at a
-- field of a cached item or of a tuple, and the item after a write there.
pub record Schema : Type 1 where
  pub Cached : Type 0
  pub Tuple : Type 0
  pub Value : Type 0
  pub to_cached : Tuple → Cached
  pub write_back : Cached → Tuple → Tuple
  pub key : Tuple → ℕ
  pub to_cached_field : Field → Option Field
  pub load_cached : Cached → Field → Value
  pub store_cached : Cached → Field → Value → Cached
  pub load_tuple : Tuple → Field → Value
  pub store_tuple : Tuple → Field → Value → Tuple

-- `Schema::matches`: whether the cached item has every field of the query.
unfoldable pub matches : (S : Schema) → FieldsMeta → Bool
matches S [] = true
matches S (f ∷ query) = elim (S.to_cached_field f) [ none ↦ false | some _ ↦ matches S query ]

-- `Schema::update_cached`: the fields with the values to write, as the iterator of the query gives
-- them; a field that is not cached is left out.
unfoldable pub update_cached : (S : Schema) → S.Cached → List (Field × S.Value) → S.Cached
update_cached S c [] = c
update_cached S c ((f, v) ∷ query) = elim (S.to_cached_field f) [
  | none ↦ update_cached S c query
  | some g ↦ update_cached S (S.store_cached c g v) query
]

-- `Tuple::update`, which writes every field.
unfoldable pub update_tuple : (S : Schema) → S.Tuple → List (Field × S.Value) → S.Tuple
update_tuple S t [] = t
update_tuple S t ((f, v) ∷ query) = update_tuple S (S.store_tuple t f v) query
