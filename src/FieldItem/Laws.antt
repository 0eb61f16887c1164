-- ===== src/FieldItem/Laws.antt =====
-- `FieldItemSchema` of src/utils/test_gen.rs does what the cache relies on in a schema.
use alchemy.Base.{
  ℕ, suc, ◌+◌, ◌/◌, ◌%◌, ◌^◌, ◌<◌, ◌≤◌, ◌≡◌, ◌≢◌, refl, sym, ap, ◌∙◌, arith, Option, none, some,
  List, [], ◌∷◌, put, ◌==◌, if◌then◌else◌, length, ℕ_discrete, ==-refl, ==-ne, Option-cases, inl,
  inr, put-self, put-other,
}
use mathlib.Core.Path.{fun_ext}
use alchemy.Query.{Field, field_eq, from_span}
use alchemy.Schema.{Schema}
use alchemy.Schema.Laws.{SchemaLaws}
use alchemy.FieldItem.{
  TestItem, FieldCached, position, to_cached_from, write_back_from, to_cached_field,
  field_item_schema,
}

-- A field that is one word.
abbrev pub IsWordField : Field → Type 0
IsWordField f = (f.begin % 8 ≡ 0) × (f.end ≡ f.begin + 8)

abbrev pub NotAmong : ℕ → List Field → Type 0
NotAmong a [] = Unit {0}
NotAmong a (g ∷ fields) = (a ≢ g.begin / 8) × NotAmong a fields

-- The fields of a schema are different words.
abbrev pub DistinctWords : List Field → Type 0
DistinctWords [] = Unit {0}
DistinctWords (f ∷ fields) = IsWordField f × NotAmong (f.begin / 8) fields × DistinctWords fields

-- The index of the field that is word `a`.
abbrev find : ℕ → List Field → ℕ → Option ℕ
find i [] a = none
find i (g ∷ fields) a =
    let rest = find (suc i) fields a in if g.begin / 8 == a then some i else rest

find-head :
    (i : ℕ) (g : Field) (fields : List Field) (a : ℕ)
    → g.begin / 8 ≡ a
    → find i (g ∷ fields) a ≡ some i
find-head i g fields a e = rw (← e, ==-refl (g.begin / 8)) refl

find-tail :
    (i : ℕ) (g : Field) (fields : List Field) (a : ℕ)
    → g.begin / 8 ≢ a
    → find i (g ∷ fields) a ≡ find (suc i) fields a
find-tail i g fields a ne = rw (==-ne (g.begin / 8) a ne) refl

find-NotAmong : (i : ℕ) (fields : List Field) (a : ℕ) → NotAmong a fields → find i fields a ≡ none
find-NotAmong i [] a h = refl
find-NotAmong i (g ∷ fields) a (ne, h) =
    find-tail i g fields a (λ e. ne (sym e)) ∙ find-NotAmong (suc i) fields a h

find-range :
    (i : ℕ) (fields : List Field) (a j : ℕ)
    → find i fields a ≡ some j
    → (i ≤ j) × (j < i + length fields)
find-range i [] a j e = ground arith
find-range i (g ∷ fields) a j e = elim (ℕ_discrete (g.begin / 8) a) [
  | yes here ↦ ground (arith, find-head i g fields a here)
  | no ne ↦ omega (arith, find-range (suc i) fields a j (sym (find-tail i g fields a ne) ∙ e))
]

-- Different words have different indices.
find-injective :
    (i : ℕ) (fields : List Field) (a b j : ℕ)
    → find i fields a ≡ some j
    → find i fields b ≡ some j
    → a ≡ b
find-injective i [] a b j e e' = ground arith
find-injective i (g ∷ fields) a b j e e' = elim (ℕ_discrete (g.begin / 8) a) [
  | yes here ↦ elim (ℕ_discrete (g.begin / 8) b) [
    | yes there ↦ omega arith
    | no ne' ↦ absurd (
        ground (
          arith,
          find-head i g fields a here,
          find-range (suc i) fields b j (sym (find-tail i g fields b ne') ∙ e'),
        ))
  ]
  | no ne ↦ elim (ℕ_discrete (g.begin / 8) b) [
    | yes there ↦ absurd (
        ground (
          arith,
          find-head i g fields b there,
          find-range (suc i) fields a j (sym (find-tail i g fields a ne) ∙ e),
        ))
    | no ne' ↦
        find-injective (suc i) fields a b j (sym (find-tail i g fields a ne) ∙ e)
          (sym (find-tail i g fields b ne') ∙ e')
  ]
]

-- `position` finds a word field by its begin alone.
position-find :
    (i : ℕ) (fields : List Field) (f : Field)
    → IsWordField f
    → DistinctWords fields
    → position i fields f ≡ find i fields (f.begin / 8)
unfolding position field_eq
position-find i [] f p d = refl
position-find i (g ∷ fields) f p (q, _, d) = ground (arith, position-find (suc i) fields f p d)

-- What lies at a word after `write_back`.
written : Option ℕ → FieldCached → ℕ → ℕ
written none c old = old
written (some j) c old = c j

write_back_from-at :
    (i : ℕ) (fields : List Field) (c : FieldCached) (t : TestItem) (a : ℕ)
    → DistinctWords fields
    → write_back_from i fields c t a ≡ written (find i fields a) c (t a)
unfolding write_back_from written
write_back_from-at i [] c t a d = refl
write_back_from-at i (g ∷ fields) c t a (_, alone, d) = elim (ℕ_discrete (g.begin / 8) a) [
  | yes here ↦
      write_back_from-at (suc i) fields c (put t (g.begin / 8) (c i)) a d
      ∙ rw (← here, find-NotAmong (suc i) fields (g.begin / 8) alone, ==-refl (g.begin / 8)) refl
  | no ne ↦
      write_back_from-at (suc i) fields c (put t (g.begin / 8) (c i)) a d
      ∙ rw (==-ne (g.begin / 8) a ne) refl
]

to_cached_from-before :
    (i : ℕ) (fields : List Field) (t : TestItem) (c : FieldCached) (j : ℕ)
    → j < i
    → to_cached_from i fields t c j ≡ c j
unfolding to_cached_from
to_cached_from-before i [] t c j lt = refl
to_cached_from-before i (g ∷ fields) t c j lt =
    to_cached_from-before (suc i) fields t (put c i (t (g.begin / 8))) j (omega arith)
    ∙ put-other (λ w. w ≡ c j) c i j _ (λ e. absurd (omega arith)) refl

to_cached_from-at :
    (i : ℕ) (fields : List Field) (t : TestItem) (c : FieldCached) (a j : ℕ)
    → find i fields a ≡ some j
    → to_cached_from i fields t c j ≡ t a
unfolding to_cached_from
to_cached_from-at i [] t c a j e = ground arith
to_cached_from-at i (g ∷ fields) t c a j e = elim (ℕ_discrete (g.begin / 8) a) [
  | yes here ↦
      let same : i ≡ j = ground (arith, find-head i g fields a here) in
      rw (← same) (
        to_cached_from-before (suc i) fields t (put c i (t (g.begin / 8))) i (omega arith)
        ∙ put-self (λ w. w ≡ t a) c i (ap t here))
  | no ne ↦
      to_cached_from-at (suc i) fields t (put c i (t (g.begin / 8))) a j
        (sym (find-tail i g fields a ne) ∙ e)
]

module _ (fields : List Field) (distinct : DistinctWords fields)
    (few : length fields < 2 ^ 13) where
  abbrev S : Schema
  S = field_item_schema fields

  hit_index :
      (f g : Field)
      → IsWordField f
      → to_cached_field fields f ≡ some g
      → find 0 fields (f.begin / 8) ≡ some (g.begin / 8)
  unfolding to_cached_field from_span
  hit_index f g p e = elim (Option-cases (find 0 fields (f.begin / 8))) [
    | inl out ↦ absurd (ground (arith, position-find 0 fields f p distinct))
    | inr (j, at) ↦
        ground
          (arith, at, position-find 0 fields f p distinct, find-range 0 fields (f.begin / 8) j at)
  ]

  miss_index :
      (f : Field)
      → IsWordField f
      → to_cached_field fields f ≡ none
      → find 0 fields (f.begin / 8) ≡ none
  unfolding to_cached_field
  miss_index f p e = ground (arith, position-find 0 fields f p distinct)

  at :
      (c : FieldCached) (t : TestItem) (a : ℕ)
      → write_back_from 0 fields c t a ≡ written (find 0 fields a) c (t a)
  at c t a = write_back_from-at 0 fields c t a distinct

  restore :
      (t : TestItem) (a : ℕ)
      → write_back_from 0 fields (to_cached_from 0 fields t (λ _. 0)) t a ≡ t a
  unfolding written
  restore t a = at _ t a ∙ elim (Option-cases (find 0 fields a)) [
    | inl out ↦ rw out refl
    | inr (j, e) ↦ rw e (to_cached_from-at 0 fields t (λ _. 0) a j e)
  ]

  hit_at :
      (c : FieldCached) (t : TestItem) (a i : ℕ)
      → find 0 fields a ≡ some i
      → write_back_from 0 fields c t a ≡ c i
  unfolding written
  hit_at c t a i e = at c t a ∙ rw e refl

  miss_at :
      (c : FieldCached) (t : TestItem) (a : ℕ)
      → find 0 fields a ≡ none
      → write_back_from 0 fields c t a ≡ t a
  unfolding written
  miss_at c t a e = at c t a ∙ rw e refl

  store_hit_at :
      (c : FieldCached) (t : TestItem) (a i v x : ℕ)
      → find 0 fields a ≡ some i
      → write_back_from 0 fields (put c i v) t x ≡ put (write_back_from 0 fields c t) a v x
  store_hit_at c t a i v x e = elim (ℕ_discrete a x) [
    | yes here ↦ rw (← here) (
        hit_at (put c i v) t a i e
        ∙ put-self (λ w. w ≡ v) c i refl
        ∙ sym (put-self (λ w. w ≡ v) (write_back_from 0 fields c t) a refl))
    | no apart ↦ elim (Option-cases (find 0 fields x)) [
      | inl out ↦
          miss_at (put c i v) t x out
          ∙ sym (
              put-other (λ w. w ≡ t x) (write_back_from 0 fields c t) a x v apart
                (miss_at c t x out))
      | inr (j, e') ↦
          hit_at (put c i v) t x j e'
          ∙ put-other (λ w. w ≡ c j) c i j v
              (λ same. apart (find-injective 0 fields a x i e (e' ∙ ap some (sym same)))) refl
          ∙ sym (
              put-other (λ w. w ≡ c j) (write_back_from 0 fields c t) a x v apart
                (hit_at c t x j e'))
    ]
  ]

  store_miss_at :
      (c : FieldCached) (t : TestItem) (a v x : ℕ)
      → find 0 fields a ≡ none
      → write_back_from 0 fields c (put t a v) x ≡ put (write_back_from 0 fields c t) a v x
  store_miss_at c t a v x e = elim (ℕ_discrete a x) [
    | yes here ↦ rw (← here) (
        miss_at c (put t a v) a e
        ∙ put-self (λ w. w ≡ v) t a refl
        ∙ sym (put-self (λ w. w ≡ v) (write_back_from 0 fields c t) a refl))
    | no apart ↦ elim (Option-cases (find 0 fields x)) [
      | inl out ↦
          miss_at c (put t a v) x out
          ∙ put-other (λ w. w ≡ t x) t a x v apart refl
          ∙ sym (
              put-other (λ w. w ≡ t x) (write_back_from 0 fields c t) a x v apart
                (miss_at c t x out))
      | inr (j, e') ↦
          hit_at c (put t a v) x j e'
          ∙ sym (
              put-other (λ w. w ≡ c j) (write_back_from 0 fields c t) a x v apart
                (hit_at c t x j e'))
    ]
  ]

-- The fields of the schema are different words, and fewer than 2 ^ 13. Then `FieldItemSchema` does what
-- the cache relies on, for queries of word fields: a cached item written back to the tuple it came from changes
-- nothing, and reads and writes of a word agree on the cached item and on the tuple that it is
-- written back to.
pub field_item_schema-SchemaLaws :
    (fields : List Field)
    → DistinctWords fields
    → length fields < 2 ^ 13
    → SchemaLaws (field_item_schema fields) IsWordField
field_item_schema-SchemaLaws fields d few = record {
  write_back-to_cached = λ t. fun_ext (λ a. restore fields d few t a);
  load_hit = λ c t f g p e.
      sym (hit_at fields d few c t (f.begin / 8) (g.begin / 8) (hit_index fields d few f g p e));
  load_miss =
      λ c t f p e. sym (miss_at fields d few c t (f.begin / 8) (miss_index fields d few f p e));
  store_hit = λ c t f g v p e. fun_ext (λ x.
      store_hit_at fields d few c t (f.begin / 8) (g.begin / 8) v x
        (hit_index fields d few f g p e));
  store_miss = λ c t f v p e.
      fun_ext
        (λ x. store_miss_at fields d few c t (f.begin / 8) v x (miss_index fields d few f p e));
}
