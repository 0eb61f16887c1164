-- ===== src/Query/Iter.antt =====
-- The iterator of an update query yields each field once, in order, with the bytes that follow those
-- of the fields before it.
use alchemy.Base.{
  ℕ, zero, suc, ◌+◌, ◌≤◌, ◌<◌, ◌≡◌, refl, ==-refl, ==-ne, ℕ_discrete, get_elem?-below,
  drop-get_elem?, drop-length, arith, none, some, List, [], ◌∷◌, length, get_elem?, drop,
}
use alchemy.Query.{Field, FieldsMeta, UpdateQuery, UpdateIter, iter, size, next, collect}

-- Each field with the sum of the sizes before it.
abbrev pub with_offsets : ℕ → FieldsMeta → List (Field × ℕ)
with_offsets off [] = []
with_offsets off (f ∷ fields) = (f, off) ∷ with_offsets (off + size f) fields

on-end : (q : UpdateQuery) (it : UpdateIter) → it.cur_idx ≡ length q.meta → next q it ≡ none
unfolding next
on-end q it e = rw e (rw (==-refl (length q.meta)) refl)

on-field :
    (q : UpdateQuery) (it : UpdateIter) (f : Field)
    → it.cur_idx < length q.meta
    → get_elem? q.meta it.cur_idx ≡ some f
    → next q it
      ≡ some ((f, it.ptr_off), record { cur_idx = suc it.cur_idx; ptr_off = it.ptr_off + size f })
unfolding next
on-field q it f h e = rw (==-ne it.cur_idx (length q.meta) (omega arith)) (rw e refl)

collect-drop :
    (fuel : ℕ) (q : UpdateQuery) (it : UpdateIter)
    → it.cur_idx ≤ length q.meta
    → length q.meta < it.cur_idx + fuel
    → collect fuel q it ≡ some (with_offsets it.ptr_off (drop it.cur_idx q.meta))
unfolding collect
collect-drop zero q it h k = absurd (omega arith)
collect-drop (suc fuel) q it h k = elim (ℕ_discrete it.cur_idx (length q.meta)) [
  | yes end ↦ rw (on-end q it end, collect) (rw (end, drop-length q.meta) refl)
  | no more ↦
      let (f, e) = get_elem?-below q.meta it.cur_idx (omega arith) in
      let it' : UpdateIter = record { cur_idx = suc it.cur_idx; ptr_off = it.ptr_off + size f } in
      rw (on-field q it f (omega arith) e, collect)
        (rw (drop-get_elem? q.meta it.cur_idx e)
          (rw (collect-drop fuel q it' (omega arith) (omega arith)) refl))
]

-- With one round more than the query has fields, the iteration ends, and it has given every field of
-- the query once and in order, each with the sum of the sizes of the fields before it as the offset of its bytes.
collect-iter :
    (q : UpdateQuery) → collect (suc (length q.meta)) q iter ≡ some (with_offsets 0 q.meta)
collect-iter q = collect-drop (suc (length q.meta)) q iter (omega arith) (omega arith)
