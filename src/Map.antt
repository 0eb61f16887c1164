-- ===== src/Map.antt =====
-- Rust's `HashMap`: entries in some order, each key once. The metrics (src/metric/src) and the frames of
-- src/storage/pm_heap.rs are kept in such maps.
use mathlib.Core.Path.{subst}
use alchemy.Base.{
  ℕ, ◌≡◌, ◌≢◌, refl, Option, none, some, List, [], ◌∷◌, ◌==◌, if◌then◌else◌, ap, sym, ◌∙◌, ==-refl,
  ==-ne, ℕ_discrete, if_true, if_false, ==_iff,
}

abbrev pub Map : Type 0 → Type 0
Map A = List (ℕ × A)

-- What joining two values under a key gives.
abbrev pub joined : {A : Type 0} → (A → A → A) → Option A → Option A → Option A
joined join none y = y
joined join (some x) none = some x
joined join (some x) (some y) = some (join x y)

abbrev pub updated : {A : Type 0} → (A → A) → A → Option A → A
updated f a none = a
updated f a (some x) = f x

module _ {A : Type 0} (join : A → A → A) where
  pub joined-none : (o : Option A) → o ≡ joined join o none
  joined-none none = refl
  joined-none (some x) = refl

  joined-some :
      (x : A) (o : Option A)
      → joined join (some (updated (λ y. join y x) x o)) none ≡ joined join o (some x)
  joined-some x none = refl
  joined-some x (some y) = refl

  pub joined_assoc :
      ((x y z : A) → join (join x y) z ≡ join x (join y z))
      → (o p q : Option A) → joined join (joined join o p) q ≡ joined join o (joined join p q)
  joined_assoc assoc none p q = refl
  joined_assoc assoc (some x) none q = refl
  joined_assoc assoc (some x) (some y) none = refl
  joined_assoc assoc (some x) (some y) (some z) = ap some (assoc x y z)

module _ {A : Type 0} where
  abbrev pub get : Map A → ℕ → Option A
  get [] k = none
  get ((key, x) ∷ m) k = if key == k then some x else get m k

  -- A change through `get_mut` where the key is there, an `insert` where it is not.
  unfoldable pub upsert : (A → A) → A → Map A → ℕ → Map A
  upsert f a [] k = (k, a) ∷ []
  upsert f a ((key, x) ∷ m) k =
      let rest = upsert f a m k in if key == k then (key, f x) ∷ m else (key, x) ∷ rest

  -- `for (k, v) in b`: join the value under its key, or insert it.
  unfoldable pub merge : (A → A → A) → Map A → Map A → Map A
  merge join m [] = m
  merge join m ((key, x) ∷ b) = merge join (upsert (λ y. join y x) x m key) b

  -- `remove`, without the value removed.
  unfoldable pub erase : Map A → ℕ → Map A
  erase [] k = []
  erase ((key, x) ∷ m) k = let rest = erase m k in if key == k then m else (key, x) ∷ rest

  -- No key occurs twice.
  abbrev pub Distinct : Map A → Type 0
  Distinct [] = Unit
  Distinct ((key, x) ∷ m) = (get m key ≡ none) × Distinct m

  pub get-upsert_self :
      (f : A → A) (a : A) (m : Map A) (k : ℕ)
      → get (upsert f a m k) k ≡ some (updated f a (get m k))
  unfolding upsert
  get-upsert_self f a [] k = if_true _ _ (==-refl k)
  get-upsert_self f a ((key, x) ∷ m) k = elim (ℕ_discrete key k) [
    | yes e ↦ rw ((==_iff key k).1 e, (==_iff key k).1 e) refl
    | no ne ↦ rw (==-ne key k ne, ==-ne key k ne) (get-upsert_self f a m k)
  ]

  pub get-upsert_ne :
      (f : A → A) (a : A) (m : Map A) (k j : ℕ) → k ≢ j → get (upsert f a m k) j ≡ get m j
  unfolding upsert
  get-upsert_ne f a [] k j ne = if_false _ _ (==-ne k j ne)
  get-upsert_ne f a ((key, x) ∷ m) k j ne = elim (ℕ_discrete key k) [
    | yes e ↦ rw ((==_iff key k).1 e, ==-ne key j (λ p. ne (sym e ∙ p))) refl
    | no other ↦
        rw (==-ne key k other)
          (ap (λ o. if key == j then some x else o) (get-upsert_ne f a m k j ne))
  ]

  pub get-erase_ne : (m : Map A) (k j : ℕ) → k ≢ j → get (erase m k) j ≡ get m j
  unfolding erase
  get-erase_ne [] k j ne = refl
  get-erase_ne ((key, x) ∷ m) k j ne = elim (ℕ_discrete key k) [
    | yes e ↦ rw ((==_iff key k).1 e, ==-ne key j (λ p. ne (sym e ∙ p))) refl
    | no other ↦
        rw (==-ne key k other) (ap (λ o. if key == j then some x else o) (get-erase_ne m k j ne))
  ]

  pub get-erase_self : (m : Map A) (k : ℕ) → Distinct m → get (erase m k) k ≡ none
  unfolding erase
  get-erase_self [] k d = refl
  get-erase_self ((key, x) ∷ m) k (new, d) = elim (ℕ_discrete key k) [
    | yes e ↦ rw ((==_iff key k).1 e) (subst (λ i. get m i ≡ none) e new)
    | no ne ↦ rw (==-ne key k ne, ==-ne key k ne) (get-erase_self m k d)
  ]

  pub erase-Distinct : (m : Map A) (k : ℕ) → Distinct m → Distinct (erase m k)
  unfolding erase
  erase-Distinct [] k d = tt
  erase-Distinct ((key, x) ∷ m) k (new, d) = elim (ℕ_discrete key k) [
    | yes e ↦ rw ((==_iff key k).1 e) d
    | no ne ↦
        rw (==-ne key k ne) (get-erase_ne m k key (λ p. ne (sym p)) ∙ new, erase-Distinct m k d)
  ]

  pub upsert-Distinct :
      (f : A → A) (a : A) (m : Map A) (k : ℕ) → Distinct m → Distinct (upsert f a m k)
  unfolding upsert
  upsert-Distinct f a [] k d = (refl, tt)
  upsert-Distinct f a ((key, x) ∷ m) k (new, d) = elim (ℕ_discrete key k) [
    | yes e ↦ rw ((==_iff key k).1 e) (new, d)
    | no ne ↦
        rw (==-ne key k ne)
          (get-upsert_ne f a m k key (λ p. ne (sym p)) ∙ new, upsert-Distinct f a m k d)
  ]

  pub get-merge :
      (join : A → A → A) (m b : Map A) (k : ℕ)
      → Distinct b
      → get (merge join m b) k ≡ joined join (get m k) (get b k)
  unfolding merge
  get-merge join m [] k d = joined-none join (get m k)
  get-merge join m ((key, x) ∷ b) k (new, d) =
      get-merge join (upsert (λ y. join y x) x m key) b k d ∙ elim (ℕ_discrete key k) [
        | yes e ↦
            subst
              (λ i.
                joined join (get (upsert (λ y. join y x) x m key) i) (get b i)
                ≡ joined join (get m i) (if key == i then some x else get b i))
              e
              (rw (==-refl key, get-upsert_self (λ y. join y x) x m key, new)
                (joined-some join x (get m key)))
        | no ne ↦
            rw (==-ne key k ne)
              (ap (λ o. joined join o (get b k)) (get-upsert_ne (λ y. join y x) x m key k ne))
      ]

  pub merge-Distinct : (join : A → A → A) (m b : Map A) → Distinct m → Distinct (merge join m b)
  unfolding merge
  merge-Distinct join m [] d = d
  merge-Distinct join m ((key, x) ∷ b) d =
      merge-Distinct join (upsert (λ y. join y x) x m key) b
        (upsert-Distinct (λ y. join y x) x m key d)

abbrev pub map_option : {A V : Type 0} → (A → V) → Option A → Option V
map_option w none = none
map_option w (some x) = some (w x)

-- A view `w` of the values, under which the operations on them are `plus`.
module _ {A V : Type 0} (w : A → V) (plus : V → V → V) where
  map_option-joined :
      (join : A → A → A)
      → ((x y : A) → w (join x y) ≡ plus (w x) (w y))
      → (o p : Option A)
      → map_option w (joined join o p) ≡ joined plus (map_option w o) (map_option w p)
  map_option-joined join h none p = refl
  map_option-joined join h (some x) none = refl
  map_option-joined join h (some x) (some y) = ap some (h x y)

  map_option-updated :
      (f : A → A) (a : A)
      → ((x : A) → w (f x) ≡ plus (w x) (w a))
      → (o : Option A) → some (w (updated f a o)) ≡ joined plus (map_option w o) (some (w a))
  map_option-updated f a h none = refl
  map_option-updated f a h (some x) = ap some (h x)

  pub view-merge :
      (join : A → A → A)
      → ((x y : A) → w (join x y) ≡ plus (w x) (w y))
      → (m b : Map A) (k : ℕ) → Distinct b
      → map_option w (get (merge join m b) k)
        ≡ joined plus (map_option w (get m k)) (map_option w (get b k))
  view-merge join h m b k d =
      ap (map_option w) (get-merge join m b k d) ∙ map_option-joined join h (get m k) (get b k)

  pub view-upsert :
      (f : A → A) (a : A)
      → ((x : A) → w (f x) ≡ plus (w x) (w a))
      → (m : Map A) (k j : ℕ)
      → map_option w (get (upsert f a m k) j)
        ≡ joined plus (map_option w (get m j)) (map_option w (get (upsert f a [] k) j))
  view-upsert f a h m k j = elim (ℕ_discrete k j) [
    | yes e ↦
        subst
          (λ i.
            map_option w (get (upsert f a m k) i)
            ≡ joined plus (map_option w (get m i)) (map_option w (get (upsert f a [] k) i)))
          e
          (rw (get-upsert_self f a m k, get-upsert_self f a [] k)
            (map_option-updated f a h (get m k)))
    | no ne ↦
        rw (get-upsert_ne f a m k j ne, get-upsert_ne f a [] k j ne)
          (joined-none plus (map_option w (get m j)))
  ]
