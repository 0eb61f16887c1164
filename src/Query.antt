-- ===== src/Query.antt =====
-- Queries: src/query.rs. A field is a span of bytes of a tuple; an update query lists fields with
-- the bytes to write, one after the other.
pub mod Iter
use alchemy.Base.{
  ℕ, zero, suc, ◌+◌, ◌-◌, ◌*◌, ◌%◌, ◌^◌, Bool, true, false, ◌&&◌, Option, none, some, List, [], ◌∷◌,
  ◌==◌, length, if◌then◌else◌, map, get_elem?,
}

-- `begin` and `end` are 16-bit numbers.
pub record Field : Type 0 where
  pub begin : ℕ
  pub end : ℕ

abbrev pub field : ℕ → ℕ → Field
field begin end = record { begin = begin; end = end }

-- `Field::from_span`: the casts cut to 16 bits.
unfoldable pub from_span : (start end : ℕ) → Field
from_span start end = field (start % 2 ^ 16) (end % 2 ^ 16)

-- `Field::size`: the subtraction wraps at 16 bits.
unfoldable pub size : Field → ℕ
size f = (f.end + 2 ^ 16 - f.begin) % 2 ^ 16

-- The derived `==`.
unfoldable pub field_eq : Field → Field → Bool
field_eq f g = f.begin == g.begin && f.end == g.end

-- `FieldsMeta<N>` holds an array of fields.
abbrev pub FieldsMeta : Type 0
FieldsMeta = List Field

-- `FieldsMeta::from_spans`.
unfoldable pub from_spans : List (ℕ × ℕ) → FieldsMeta
unfolding from_span
from_spans [] = []
from_spans ((start, end) ∷ spans) = from_span start end ∷ from_spans spans

-- `FieldsMeta::size`, a fold from the left.
unfoldable pub meta_size : ℕ → FieldsMeta → ℕ
unfolding size
meta_size a [] = a
meta_size a (f ∷ fields) = meta_size (a + size f) fields

pub record UpdateQuery : Type 0 where
  pub meta : FieldsMeta
  pub bytes : List ℕ

-- `UpdateIter`, less the query: an index and an offset into the bytes.
pub record UpdateIter : Type 0 where
  pub cur_idx : ℕ
  pub ptr_off : ℕ

-- `UpdateQuery::iter`.
abbrev pub iter : UpdateIter
iter = record { cur_idx = 0; ptr_off = 0 }

-- `UpdateIter::next`: the field with the offset of its bytes. The index stays in the array, so the
-- unchecked read is a checked one.
unfoldable pub next : UpdateQuery → UpdateIter → Option ((Field × ℕ) × UpdateIter)
unfolding size
next q it = if it.cur_idx == length q.meta then none else elim (get_elem? q.meta it.cur_idx) [
  | none ↦ none
  | some f ↦
      some ((f, it.ptr_off), record { cur_idx = suc it.cur_idx; ptr_off = it.ptr_off + size f })
]

-- A `for` loop over the iterator, for a number of rounds; `none` if they do not reach its end.
unfoldable pub collect : ℕ → UpdateQuery → UpdateIter → Option (List (Field × ℕ))
unfolding next
collect zero q it = none
collect (suc fuel) q it = elim (next q it) [
  | none ↦ some []
  | some (item, it') ↦ elim (collect fuel q it') [ none ↦ none | some items ↦ some (item ∷ items) ]
]
