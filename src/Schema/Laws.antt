-- ===== src/Schema/Laws.antt =====
-- What the cache relies on in a schema, and what follows for `matches` and `update_cached` of
-- src/attribute_cache/mod.rs.
use alchemy.Base.{
  ℕ, zero, suc, ◌≡◌, ◌≢◌, refl, arith, true, none, some, List, [], ◌∷◌, get_elem?, Option-cases,
  inl, inr,
}
use alchemy.Query.{Field, FieldsMeta}
use alchemy.Schema.{Schema, matches, update_cached, update_tuple}

-- The cached item stands for the fields of the tuple that the schema lists: writing it back
-- overwrites those fields, and the accesses agree with that. `proper` says which fields lie within
-- a tuple.
pub record SchemaLaws (S : Schema) (proper : Field → Type 0) : Type 0 where
  pub write_back-to_cached : (t : S.Tuple) → S.write_back (S.to_cached t) t ≡ t
  pub load_hit :
      (c : S.Cached) (t : S.Tuple) (f g : Field)
      → proper f
      → S.to_cached_field f ≡ some g
      → S.load_cached c g ≡ S.load_tuple (S.write_back c t) f
  pub load_miss :
      (c : S.Cached) (t : S.Tuple) (f : Field)
      → proper f
      → S.to_cached_field f ≡ none
      → S.load_tuple t f ≡ S.load_tuple (S.write_back c t) f
  pub store_hit :
      (c : S.Cached) (t : S.Tuple) (f g : Field) (v : S.Value)
      → proper f
      → S.to_cached_field f ≡ some g
      → S.write_back (S.store_cached c g v) t ≡ S.store_tuple (S.write_back c t) f v
  pub store_miss :
      (c : S.Cached) (t : S.Tuple) (f : Field) (v : S.Value)
      → proper f
      → S.to_cached_field f ≡ none
      → S.write_back c (S.store_tuple t f v) ≡ S.store_tuple (S.write_back c t) f v

-- A query that matches asks for cached fields only.
pub matches-to_cached_field :
    (S : Schema) (query : FieldsMeta) (i : ℕ) (f : Field)
    → matches S query ≡ true
    → get_elem? query i ≡ some f
    → S.to_cached_field f ≢ none
unfolding matches
matches-to_cached_field S [] i f h e = ground arith
matches-to_cached_field S (g ∷ query) zero f h e = λ miss. ground arith
matches-to_cached_field S (g ∷ query) (suc i) f h e = elim (Option-cases (S.to_cached_field g)) [
  | inl miss ↦ absurd (ground (arith, rw (miss, matches) at h))
  | inr (a, hit) ↦ matches-to_cached_field S query i f (rw (hit, matches) at h) e
]

module _ {S : Schema} {proper : Field → Type 0} (laws : SchemaLaws S proper) where
  abbrev pub AllProper : List (Field × S.Value) → Type 0
  AllProper [] = Unit {0}
  AllProper ((f, v) ∷ query) = proper f × AllProper query

  abbrev pub AllCached : List (Field × S.Value) → Type 0
  AllCached [] = Unit {0}
  AllCached ((f, v) ∷ query) = (S.to_cached_field f ≢ none) × AllCached query

  -- The schema obeys its laws, and the fields of the query are proper and cached. Then an
  -- update made on the cached item and written back later is the update of the tuple that it
  -- would be written back to.
  pub write_back-update_cached :
      (query : List (Field × S.Value)) (c : S.Cached) (t : S.Tuple)
      → AllProper query
      → AllCached query
      → S.write_back (update_cached S c query) t ≡ update_tuple S (S.write_back c t) query
  unfolding update_cached update_tuple
  write_back-update_cached [] c t p h = refl
  write_back-update_cached ((f, v) ∷ query) c t (p, ps) (h, hs) =
      elim (Option-cases (S.to_cached_field f)) [
        | inl miss ↦ absurd (h miss)
        | inr (g, hit) ↦
            rw (hit, update_cached)
              (rw (← laws.store_hit c t f g v p hit)
                (write_back-update_cached query (S.store_cached c g v) t ps hs))
      ]
