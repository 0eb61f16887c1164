-- ===== src/PmHeap/Frames.antt =====
-- No two frames of the heap (src/storage/pm_heap.rs) have one file.
use alchemy.Base.{
  ℕ, ◌≡◌, ◌<◌, ◌≤◌, refl, Option, none, some, arith, sym, ap, ◌∙◌, ℕ_discrete, ◌⊎◌, inl, inr,
}
use alchemy.Map.{
  Map, get, upsert, erase, updated, Distinct, get-upsert_self, get-upsert_ne, upsert-Distinct,
  get-erase_ne, get-erase_self, erase-Distinct,
}
use alchemy.PmHeap.{PmHeap, new_heap}

-- The frame at an address has a file.
abbrev pub HasFile : PmHeap → ℕ → ℕ → Type 0
HasFile h ptr path = (size : ℕ) × (get h.file_mapping ptr ≡ some (path, size))

pub record FilesOwned (h : PmHeap) : Type 0 where
  pub keyed : Distinct h.file_mapping
  pub below : (ptr path : ℕ) → HasFile h ptr path → path < h.file_id
  pub apart : (p q path : ℕ) → HasFile h p path → HasFile h q path → p ≡ q

pub new_heap-FilesOwned : FilesOwned new_heap
unfolding new_heap
new_heap-FilesOwned = record {
  keyed = tt;
  below = λ ptr path (size, e). cc;
  apart = λ p q path (size, e) f. cc;
}

-- The counter moves on.
pub count-FilesOwned :
    (h : PmHeap) (id : ℕ) → h.file_id ≤ id → FilesOwned h → FilesOwned (record h { file_id = id })
count-FilesOwned h id le own = record {
  keyed = own.keyed;
  below = λ ptr path f. omega (arith, own.below ptr path f);
  apart = own.apart;
}

pub updated-constant : {A : Type 0} (v : A) (o : Option A) → updated (λ _. v) v o ≡ v
updated-constant v none = refl
updated-constant v (some x) = refl

abbrev path_of : Option (ℕ × ℕ) → ℕ
path_of none = 0
path_of (some (path, _)) = path

upserted :
    (m : Map (ℕ × ℕ)) (ptr q id path : ℕ) (size sz : ℕ)
    → get (upsert (λ _. (id, size)) (id, size) m ptr) q ≡ some (path, sz)
    → ((ptr ≡ q) × (id ≡ path)) ⊎ (get m q ≡ some (path, sz))
upserted m ptr q id path size sz e = elim (ℕ_discrete ptr q) [
  | yes p ↦
      let at =
        get-upsert_self (λ _. (id, size)) (id, size) m ptr
        ∙ ap some (updated-constant (id, size) (get m ptr)) in
      inl (p, ap path_of (sym at ∙ ap (get (upsert (λ _. (id, size)) (id, size) m ptr)) p ∙ e))
  | no ne ↦ inr (sym (get-upsert_ne (λ _. (id, size)) (id, size) m ptr q ne) ∙ e)
]

erased :
    {A : Type 0} (m : Map A) (ptr q : ℕ)
    → Distinct m
    → {x : A} → get (erase m ptr) q ≡ some x
    → get m q ≡ some x
erased m ptr q d e = elim (ℕ_discrete ptr q) [
  | yes p ↦ cc (sym (get-erase_self m ptr d) ∙ ap (get (erase m ptr)) p ∙ e)
  | no ne ↦ sym (get-erase_ne m ptr q ne) ∙ e
]

-- A file with a new number is kept at any address.
pub upsert-FilesOwned :
    (h : PmHeap) (id size ptr : ℕ)
    → id < h.file_id
    → ((q path : ℕ) → HasFile h q path → path < id)
    → FilesOwned h
    → FilesOwned
        (record h { file_mapping = upsert (λ _. (id, size)) (id, size) h.file_mapping ptr })
upsert-FilesOwned h id size ptr lt new own = record {
  keyed = upsert-Distinct _ _ h.file_mapping ptr own.keyed;
  below = λ q path (sz, e). elim (upserted h.file_mapping ptr q id path size sz e) [
    | inl (at, same) ↦ omega (arith, same)
    | inr old ↦ own.below q path (sz, old)
  ];
  apart = λ p q path (a, e) (b, f). elim (upserted h.file_mapping ptr p id path size a e) [
    | inl (at, same) ↦ elim (upserted h.file_mapping ptr q id path size b f) [
      | inl (at', _) ↦ sym at ∙ at'
      | inr old ↦ absurd (omega (arith, same, new q path (b, old)))
    ]
    | inr old ↦ elim (upserted h.file_mapping ptr q id path size b f) [
      | inl (at', same) ↦ absurd (omega (arith, same, new p path (a, old)))
      | inr old' ↦ own.apart p q path (a, old) (b, old')
    ]
  ];
}

pub erase-FilesOwned :
    (h : PmHeap) (ptr : ℕ)
    → FilesOwned h
    → FilesOwned (record h { file_mapping = erase h.file_mapping ptr })
erase-FilesOwned h ptr own = record {
  keyed = erase-Distinct h.file_mapping ptr own.keyed;
  below = λ q path (size, e). own.below q path (size, erased h.file_mapping ptr q own.keyed e);
  apart = λ p q path (a, e) (b, f).
      own.apart p q path (a, erased h.file_mapping ptr p own.keyed e)
        (b, erased h.file_mapping ptr q own.keyed f);
}
