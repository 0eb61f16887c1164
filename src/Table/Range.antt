-- ===== src/Table/Range.antt =====
-- Range scans of a table, `range` of src/table.rs. The scan of the index is a call of a library: it
-- gives at most as many pairs of a key and a value as the buffer has room for.
use alchemy.Base.{
  ℕ, zero, suc, ◌+◌, ◌≡◌, ◌<◌, ◌≤◌, refl, Option, none, some, List, [], ◌∷◌, length, get_elem?, put,
  arith, ap, sym, ◌∙◌, ==-refl, ◌==◌, if_true, if_false, get_elem?-below,
}
use alchemy.Rid.{Rid, rid_of_usize}
use alchemy.Schema.{Schema}
use alchemy.ClockCache.View.{view}
use alchemy.Table.{DbIndex, DbTable}
use alchemy.Table.Rows.{row}

abbrev value_of : Option (ℕ × ℕ) → ℕ
value_of none = 0
value_of (some (_, value)) = value

-- The pairs are written to the buffer from `i` on, the values cut to 32 bits.
unfoldable pub fill : ℕ → List (ℕ × ℕ) → (ℕ → Rid) → ℕ → Rid
fill i [] buffer = buffer
fill i ((key, value) ∷ pairs) buffer = fill (i + 1) pairs (put buffer i (rid_of_usize value))

fill-before :
    (i : ℕ) (pairs : List (ℕ × ℕ)) (buffer : ℕ → Rid) (j : ℕ)
    → j < i
    → fill i pairs buffer j ≡ buffer j
unfolding fill
fill-before i [] buffer j lt = refl
fill-before i ((key, value) ∷ pairs) buffer j lt =
    fill-before (i + 1) pairs (put buffer i (rid_of_usize value)) j (omega arith)
    ∙ if_false {b = i == j} _ _ (ground arith)

fill-after :
    (i : ℕ) (pairs : List (ℕ × ℕ)) (buffer : ℕ → Rid) (j : ℕ)
    → i + length pairs ≤ j
    → fill i pairs buffer j ≡ buffer j
unfolding fill
fill-after i [] buffer j le = refl
fill-after i ((key, value) ∷ pairs) buffer j le =
    fill-after (i + 1) pairs (put buffer i (rid_of_usize value)) j (omega arith)
    ∙ if_false {b = i == j} _ _ (ground arith)

fill-at :
    (i : ℕ) (pairs : List (ℕ × ℕ)) (buffer : ℕ → Rid) (j key value : ℕ)
    → get_elem? pairs j ≡ some (key, value)
    → fill i pairs buffer (i + j) ≡ rid_of_usize value
unfolding fill
fill-at i [] buffer j key value e = cc
fill-at i ((k, v) ∷ pairs) buffer zero key value e =
    let here : i + 0 ≡ i = omega arith in
    let same : v ≡ value = ap (λ o. value_of o) e in
    ap (fill (i + 1) pairs (put buffer i (rid_of_usize v))) here
    ∙ fill-before (i + 1) pairs (put buffer i (rid_of_usize v)) i (omega arith)
    ∙ if_true {b = i == i} _ _ (==-refl i)
    ∙ ap rid_of_usize same
fill-at i ((k, v) ∷ pairs) buffer (suc j) key value e =
    let there : i + suc j ≡ i + 1 + j = omega arith in
    ap (fill (i + 1) pairs (put buffer i (rid_of_usize v))) there
    ∙ fill-at (i + 1) pairs (put buffer i (rid_of_usize v)) j key value e

fill_start :
    (pairs : List (ℕ × ℕ)) (buffer : ℕ → Rid) (j key value : ℕ)
    → get_elem? pairs j ≡ some (key, value)
    → fill 0 pairs buffer j ≡ rid_of_usize value
fill_start pairs buffer j key value e =
    let start : j ≡ 0 + j = omega arith in
    ap (fill 0 pairs buffer) start ∙ fill-at 0 pairs buffer j key value e

row_at :
    {I : DbIndex} {S : Schema} (t : DbTable I S) (key : ℕ) (rid : Rid)
    → I.get t.index key ≡ some rid
    → row t key ≡ some (view t.cache rid)
unfolding row
row_at t key rid e = rw (e, row) refl

module _ {I : DbIndex} {S : Schema} (scan : I.Index → ℕ → ℕ → ℕ → List (ℕ × ℕ)) where
  -- `range`: how many records are found, and the buffer after it; `scan` is given the room.
  unfoldable pub range :
      (low high room : ℕ) (rid_buffer : ℕ → Rid) → DbTable I S → Option ℕ × (ℕ → Rid)
  range low high room rid_buffer t =
      let pairs = scan t.index low high room in (some (length pairs), fill 0 pairs rid_buffer)

-- What the scan of an index promises: it keeps to the room, and its pairs are entries of the index
-- with a key in the range, the value being the record that a lookup finds.
pub record ScanLaws (I : DbIndex) (scan : I.Index → ℕ → ℕ → ℕ → List (ℕ × ℕ)) : Type 0 where
  pub in_room : (index : I.Index) (low high room : ℕ) → length (scan index low high room) ≤ room
  pub entries :
      (index : I.Index) (low high room j key value : ℕ)
      → get_elem? (scan index low high room) j ≡ some (key, value)
      → (low ≤ key) × (key ≤ high) × (I.get index key ≡ some (rid_of_usize value))

module _ {I : DbIndex} {S : Schema} (scan : I.Index → ℕ → ℕ → ℕ → List (ℕ × ℕ)) where
  -- The scan of the index obeys its laws. Then `range` finds no more records than there is room for;
  -- each that it finds is the record of a row of the table with a key in the range, and
  -- the buffer is not changed after them.
  pub range-row :
      (laws : ScanLaws I scan) (low high room : ℕ) (rid_buffer : ℕ → Rid) (t : DbTable I S)
      → (found : ℕ) × (found ≤ room)
        × ((range scan low high room rid_buffer t).0 ≡ some found)
        × ((j : ℕ)
            → j < found
            → (key : ℕ) × (low ≤ key)
              × (key ≤ high)
              × (row t key ≡ some (view t.cache ((range scan low high room rid_buffer t).1 j))))
        × ((j : ℕ) → found ≤ j → (range scan low high room rid_buffer t).1 j ≡ rid_buffer j)
  unfolding range row
  range-row laws low high room rid_buffer t =
      let pairs = scan t.index low high room in
      (
        length pairs,
        laws.in_room t.index low high room,
        refl,
        λ j lt.
            let ((key, value), e) = get_elem?-below pairs j lt in
            let (above, below, found) = laws.entries t.index low high room j key value e in
            (
              key,
              above,
              below,
              row_at t key (rid_of_usize value) found
                  ∙ ap (λ r. some (view t.cache r))
                      (sym (fill_start pairs rid_buffer j key value e)),
            ),
        λ j le. fill-after 0 pairs rid_buffer j (omega arith),
      )
