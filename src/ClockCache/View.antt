-- ===== src/ClockCache/View.antt =====
-- The tuple that a record has, wherever its newest fields are; and the states of
-- src/attribute_cache/clock_cache/mod.rs in which the words and the entries agree.
use alchemy.Base.{
  ℕ, ◌%◌, ◌^◌, ◌≡◌, ◌≢◌, refl, arith, Bool, true, false, if◌then◌else◌, none, some, ◌⊎◌, ℕ_discrete,
  sym, ◌∙◌,
}
use alchemy.Oid.{is_cached, to_cache_index}
use alchemy.Oid.Layout.{tag, spare, ident, is_cached_lem, to_cache_index_lem}
use alchemy.Oid.Methods.{IsWord}
use alchemy.Query.{FieldsMeta}
use alchemy.Schema.{Schema, matches}
use alchemy.Clock.{CacheInner}
use alchemy.Clock.Coherent.{Coherent}
use alchemy.ClockCache.{ClockCache, QueryValue, query_value}

-- The tuple of a record: the one in the storage, with the cached item written back if there is one.
unfoldable pub view : {S : Schema} → ClockCache S → ℕ → S.Tuple
view {S} s r =
    if is_cached (s.mem.oids r)
    then S.write_back (s.mem.inner.entries (to_cache_index (s.mem.oids r))).val (s.storage r)
    else s.storage r

module _ {S : Schema} (s : ClockCache S) (r : ℕ) where
  pub is_cached-home : tag (s.mem.oids r) ≡ 0 → is_cached (s.mem.oids r) ≡ false
  is_cached-home h = ground (arith, is_cached_lem (s.mem.oids r))

  pub is_cached-used : tag (s.mem.oids r) ≢ 0 → is_cached (s.mem.oids r) ≡ true
  is_cached-used h = ground (arith, is_cached_lem (s.mem.oids r))

  pub index-ident :
      IsWord (s.mem.oids r)
      → spare (s.mem.oids r) ≡ 0
      → to_cache_index (s.mem.oids r) ≡ ident (s.mem.oids r)
  index-ident h k = ground (arith, to_cache_index_lem (s.mem.oids r))

  pub view-home : tag (s.mem.oids r) ≡ 0 → view s r ≡ s.storage r
  unfolding view
  view-home h = rw (is_cached-home h) refl

  pub view-used :
      IsWord (s.mem.oids r)
      → spare (s.mem.oids r) ≡ 0
      → tag (s.mem.oids r) ≢ 0
      → view s r ≡ S.write_back (s.mem.inner.entries (ident (s.mem.oids r))).val (s.storage r)
  unfolding view
  view-used w k h = rw (is_cached-used h, index-ident w k) refl

  -- What a query value for the record may hold: references to the record's entry, if it has one, and
  -- to its tuple; the latter is missing only if every field of the query is cached.
  abbrev pub Serves : FieldsMeta → QueryValue → Type 0
  Serves query q =
      ((tag (s.mem.oids r) ≡ 0) × (q ≡ query_value none (some r)))
      ⊎ ((tag (s.mem.oids r) ≢ 0)
          × (((matches S query ≡ true) × (q ≡ query_value (some (ident (s.mem.oids r))) none))
              ⊎ (q ≡ query_value (some (ident (s.mem.oids r))) (some r))))

-- Words that differ in their locks only keep pointing where they did.
pub Relock-Coherent :
    {F : Type 0} {live : ℕ → Bool} {inner : CacheInner F} {oids : ℕ → ℕ} (oids' : ℕ → ℕ)
    → Coherent live (record { inner = inner; oids = oids })
    → ((r : ℕ) → live r ≡ true → IsWord (oids' r) × (oids' r % 2 ^ 56 ≡ oids r % 2 ^ 56))
    → Coherent live (record { inner = inner; oids = oids' })
Relock-Coherent {live = live} {inner = inner} {oids = oids} oids' c same = record {
  some_room = c.some_room;
  small = c.small;
  rids = c.rids;
  words = λ r l. omega (arith, same r l, c.words r l);
  at_home = λ r l t. omega (arith, same r l, c.at_home r l (omega (arith, same r l)));
  in_cache = λ r l t. rw (same_ident r l) (c.in_cache r l (λ z. t (omega (arith, same r l))));
  held = λ i lt used.
      let (l, t, at) = c.held i lt used in
      (
        l,
        λ z. t (omega (arith, same (inner.entries i).rid l)),
        omega (arith, same (inner.entries i).rid l),
      );
}
  where
    same_ident : (r : ℕ) → live r ≡ true → ident (oids' r) ≡ ident (oids r)
    same_ident r l = omega (arith, same r l)

-- A record whose word differs in the locks only, with the same entry and the same tuple in the
-- storage, keeps its view.
pub view-same :
    {S : Schema} (s s' : ClockCache S) (r : ℕ)
    → IsWord (s.mem.oids r)
    → spare (s.mem.oids r) ≡ 0
    → IsWord (s'.mem.oids r)
    → s'.mem.oids r % 2 ^ 56 ≡ s.mem.oids r % 2 ^ 56
    → s'.storage r ≡ s.storage r
    → (tag (s.mem.oids r) ≢ 0
        → (s'.mem.inner.entries (ident (s.mem.oids r))).val
          ≡ (s.mem.inner.entries (ident (s.mem.oids r))).val)
    → view s' r ≡ view s r
view-same s s' r w k w' same stored held = elim (ℕ_discrete (tag (s.mem.oids r)) 0) [
  | yes home ↦ view-home s' r (omega arith) ∙ stored ∙ sym (view-home s r home)
  | no used ↦
      view-used s' r w' (omega arith) (omega arith)
      ∙ rw (ident_same, held used, stored) refl
      ∙ sym (view-used s r w k used)
]
  where
    ident_same : ident (s'.mem.oids r) ≡ ident (s.mem.oids r)
    ident_same = omega arith
