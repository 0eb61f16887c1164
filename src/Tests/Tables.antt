-- ===== src/Tests/Tables.antt =====
-- Locks and scans of a table at concrete inputs.
use alchemy.Base.{
  ℕ, ◌^◌, ◌%◌, ◌≡◌, ◌<◌, ◌≤◌, refl, arith, true, false, Option, none, some, Bool-cases, inl, inr,
  err, List, [], ◌∷◌, length, get_elem?, ltb, leb, if◌then◌else◌, ◌&&◌, zero, suc, sym, ap, ◌∙◌,
}
use alchemy.Rid.{rid_of_usize, index_not_found, read_lock_busy}
use alchemy.Oid.{write_locked}
use alchemy.ClockCache.View.{view}
use alchemy.Table.{read_oid}
use alchemy.Table.Rows.{row}
use alchemy.Table.Locks.{Causes, read_oid-err}
use alchemy.Table.Range.{ScanLaws, range, range-row}
use alchemy.Tests.Storage.{function_index, table}

no_key : read_oid 99 0 false table ≡ (err index_not_found, table)
unfolding read_oid
no_key = refl

read_oid-err_example :
    (table ≡ table)
    × Causes
        (function_index.get table.index 99)
        table.cache.mem.oids
        0
        false
        (write_locked 0)
        read_lock_busy
        index_not_found
read_oid-err_example = read_oid-err 99 0 false table table index_not_found no_key

-- A scan that looks at the first key.
abbrev first_key : Option ℕ → ℕ → List (ℕ × ℕ)
first_key none low = []
first_key (some r) low = if ltb r (2 ^ 32) then (low, r) ∷ [] else []

abbrev key_at : Option (ℕ × ℕ) → ℕ
key_at none = 0
key_at (some (key, _)) = key

abbrev value_at : Option (ℕ × ℕ) → ℕ
value_at none = 0
value_at (some (_, value)) = value

abbrev scan : (ℕ → Option ℕ) → ℕ → ℕ → ℕ → List (ℕ × ℕ)
scan index low high room = if leb low high && ltb 0 room then first_key (index low) low else []

first_key-length : (o : Option ℕ) (low : ℕ) → length (first_key o low) ≤ 1
first_key-length none low = omega arith
first_key-length (some r) low = elim (Bool-cases (ltb r (2 ^ 32))) [
  | inl small ↦ rw small (omega arith)
  | inr large ↦ rw large (omega arith)
]

first_key-entry :
    (o : Option ℕ) (low j key value : ℕ)
    → get_elem? (first_key o low) j ≡ some (key, value)
    → (low ≡ key) × (o ≡ some (value % 2 ^ 32))
first_key-entry none low j key value e = cc
first_key-entry (some r) low j key value e = elim (Bool-cases (ltb r (2 ^ 32))) [
  | inl small ↦
      one_entry r low j key value (ground arith)
        (sym (ap (λ b. get_elem? {A = ℕ × ℕ} (if b then (low, r) ∷ [] else []) j) small) ∙ e)
  | inr large ↦
      cc (sym (ap (λ b. get_elem? {A = ℕ × ℕ} (if b then (low, r) ∷ [] else []) j) large) ∙ e)
]
  where
    one_entry :
        (r low j key value : ℕ)
        → r < 2 ^ 32
        → get_elem? {A = ℕ × ℕ} ((low, r) ∷ []) j ≡ some (key, value)
        → (low ≡ key) × (some r ≡ some (value % 2 ^ 32))
    one_entry r low zero key value small e =
        let same : r ≡ value = ap value_at e in (ap key_at e, ap some (omega (arith, same)))
    one_entry r low (suc j) key value small e = cc

ltb_of : (low high room : ℕ) → leb low high && ltb 0 room ≡ true → 0 < room
ltb_of low high room e = ground arith

leb_of : (low high room : ℕ) → leb low high && ltb 0 room ≡ true → low ≤ high
leb_of low high room e = ground arith

scan-laws : ScanLaws function_index scan
unfolding rid_of_usize
scan-laws = record {
  in_room = λ index low high room. elim (Bool-cases (leb low high && ltb 0 room)) [
    | inl fits ↦
        rw fits (omega (arith, first_key-length (index low) low, ltb_of low high room fits))
    | inr none_fits ↦ rw none_fits (omega arith)
  ];
  entries = λ index low high room j key value e. elim (Bool-cases (leb low high && ltb 0 room)) [
    | inl fits ↦
        let (same, found) = first_key-entry (index low) low j key value (
          sym (ap (λ b. get_elem? {A = ℕ × ℕ} (if b then first_key (index low) low else []) j) fits)
          ∙ e) in
        (
          omega (arith, same),
          omega (arith, same, leb_of low high room fits),
          ap index (sym same) ∙ found,
        )
    | inr none_fits ↦ cc (
        sym (
          ap (λ b. get_elem? {A = ℕ × ℕ} (if b then first_key (index low) low else []) j) none_fits)
        ∙ e)
  ];
}

range-row_example :
    (found : ℕ) × (found ≤ 4)
    × ((range scan 10 20 4 (λ _. 7) table).0 ≡ some found)
    × ((j : ℕ)
        → j < found
        → (key : ℕ) × (10 ≤ key)
          × (key ≤ 20)
          × (row table key ≡ some (view table.cache ((range scan 10 20 4 (λ _. 7) table).1 j))))
    × ((j : ℕ) → found ≤ j → (range scan 10 20 4 (λ _. 7) table).1 j ≡ 7)
range-row_example = range-row scan scan-laws 10 20 4 (λ _. 7) table
