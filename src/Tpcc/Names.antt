-- ===== src/Tpcc/Names.antt =====
-- Strings of a fixed length and the names of customers, src/benchmark/src/utils.rs. A string is the list of its
-- bytes, and an index beyond the end is a panic, `none`.
use alchemy.Base.{
  ℕ, zero, suc, ◌+◌, ◌/◌, ◌%◌, ◌≡◌, ◌<◌, ◌≤◌, refl, arith, Bool, true, Option, none, some, List, [],
  ◌∷◌, length, length-set, get_or, get_or-set_self, get_or-set_ne, set, replicate, ltb, leb, ◌&&◌,
  if◌then◌else◌, ap, ◌∙◌, inl, inr, ◌⊎◌, if_true, ◌≢◌,
}

-- `new` of a length.
abbrev pub new_string : ℕ → List ℕ
new_string n = replicate n 0

-- The loop of `copy_from` from byte `idx` on.
unfoldable pub copy_bytes : (idx : ℕ) (src bytes : List ℕ) → Option (List ℕ)
copy_bytes idx [] bytes = some bytes
copy_bytes idx (b ∷ src) bytes =
    if ltb idx (length bytes) then copy_bytes (idx + 1) src (set bytes idx b) else none

unfoldable pub copy_from : (src : List ℕ) (start : ℕ) (bytes : List ℕ) → Option (List ℕ)
copy_from src start bytes = copy_bytes 0 src bytes

-- The bytes of the syllables.
abbrev pub name_bank : List (List ℕ)
name_bank =
    (66 ∷ (65 ∷ (82 ∷ [])))
    ∷ ((79 ∷ (85 ∷ (71 ∷ (72 ∷ (84 ∷ [])))))
        ∷ ((65 ∷ (66 ∷ (76 ∷ (69 ∷ []))))
            ∷ ((80 ∷ (82 ∷ (73 ∷ [])))
                ∷ ((80 ∷ (82 ∷ (69 ∷ (83 ∷ []))))
                    ∷ ((69 ∷ (83 ∷ (69 ∷ [])))
                        ∷ ((65 ∷ (78 ∷ (84 ∷ (73 ∷ []))))
                            ∷ ((67 ∷ (65 ∷ (76 ∷ (76 ∷ (89 ∷ [])))))
                                ∷ ((65 ∷ (84 ∷ (73 ∷ (79 ∷ (78 ∷ [])))))
                                    ∷ ((69 ∷ (73 ∷ (78 ∷ (71 ∷ [])))) ∷ [])))))))))

-- The syllable of a digit, which is below the length of the bank.
abbrev pub syllable : ℕ → List ℕ
syllable digit = get_or name_bank digit []

abbrev pub and_copied : Option (List ℕ) → (List ℕ → Option (List ℕ)) → Option (List ℕ)
and_copied none rest = none
and_copied (some bytes) rest = rest bytes

-- The loop of `last_name_gen` with the rounds that are left.
unfoldable pub syllables : (rounds seed pos : ℕ) → List ℕ → Option (List ℕ)
syllables zero seed pos bytes = some bytes
syllables (suc rounds) seed pos bytes =
    and_copied (copy_from (syllable (seed % 10)) pos bytes)
      (syllables rounds (seed / 10) (pos + length (syllable (seed % 10))))

unfoldable pub last_name_gen : ℕ → Option (List ℕ)
last_name_gen seed = syllables 3 seed 0 (new_string 16)

-- The bytes from `idx` on become those of `src`; the others stay.
abbrev Copied : (idx : ℕ) (src bytes bytes' : List ℕ) → Type 0
Copied idx src bytes bytes' =
    (length bytes' ≡ length bytes)
    × ((i j : ℕ) → i < length src → j ≡ idx + i → get_or bytes' j 0 ≡ get_or src i 0)
    × ((i : ℕ) → (i < idx) ⊎ (idx + length src ≤ i) → get_or bytes' i 0 ≡ get_or bytes i 0)

copied_at :
    (idx b : ℕ) (src bytes' : List ℕ)
    → get_or bytes' idx 0 ≡ b
    → ((i j : ℕ) → i < length src → j ≡ idx + 1 + i → get_or bytes' j 0 ≡ get_or src i 0)
    → (i j : ℕ) → i < suc (length src)
    → j ≡ idx + i
    → get_or bytes' j 0 ≡ get_or (b ∷ src) i 0
copied_at idx b src bytes' first copied zero j below e =
    ap (λ x. get_or bytes' x 0) (omega (arith, e)) ∙ first
copied_at idx b src bytes' first copied (suc i) j below e =
    copied i j (omega (arith, below)) (omega (arith, e))

kept_out :
    (idx : ℕ) (src : List ℕ) (i : ℕ)
    → (i < idx) ⊎ (idx + suc (length src) ≤ i)
    → (i < idx + 1) ⊎ (idx + 1 + length src ≤ i)
kept_out idx src i (inl lt) = inl (omega arith)
kept_out idx src i (inr le) = inr (omega arith)

ne_out : (idx : ℕ) (src : List ℕ) (i : ℕ) → (i < idx) ⊎ (idx + suc (length src) ≤ i) → idx ≢ i
ne_out idx src i (inl lt) e = absurd (omega arith)
ne_out idx src i (inr le) e = absurd (omega arith)

copy_bytes-Copied :
    (idx : ℕ) (src bytes : List ℕ)
    → idx + length src ≤ length bytes
    → (bytes' : List ℕ) × (copy_bytes idx src bytes ≡ some bytes') × Copied idx src bytes bytes'
unfolding copy_bytes
copy_bytes-Copied idx [] bytes fits =
    (bytes, refl, (refl, (λ i j below e. absurd (omega arith)), λ i out. refl))
copy_bytes-Copied idx (b ∷ src) bytes fits =
    let (bytes', runs, (long, copied, kept)) =
      copy_bytes-Copied (idx + 1) src (set bytes idx b) (omega (arith, length-set bytes idx b)) in
    let first : get_or bytes' idx 0 ≡ b =
      kept idx (inl (omega arith)) ∙ get_or-set_self bytes idx b 0 (omega arith) in
    (
      bytes',
      if_true {b = ltb idx (length bytes)} _ _ (ground arith) ∙ runs,
      (
        long ∙ length-set bytes idx b,
        copied_at idx b src bytes' first copied,
        λ i out.
            kept i (kept_out idx src i out) ∙ get_or-set_ne bytes idx i b 0 (ne_out idx src i out),
      ),
    )

-- A longer source is a panic.
copy_bytes-panics :
    (idx : ℕ) (src bytes : List ℕ)
    → idx ≤ length bytes
    → length bytes < idx + length src
    → copy_bytes idx src bytes ≡ none
unfolding copy_bytes
copy_bytes-panics idx [] bytes le lt = absurd (omega arith)
copy_bytes-panics idx (b ∷ src) bytes le lt =
    let rest : idx < length bytes → copy_bytes (idx + 1) src (set bytes idx b) ≡ none = λ below.
      copy_bytes-panics (idx + 1) src (set bytes idx b)
        (omega (arith, length-set bytes idx b, below)) (omega (arith, length-set bytes idx b)) in
    ground (arith, rest)

abbrev all_short : List (List ℕ) → Bool
all_short [] = true
all_short (x ∷ xs) = leb (length x) 5 && all_short xs

get_or-short : (xs : List (List ℕ)) (i : ℕ) → all_short xs ≡ true → length (get_or xs i []) ≤ 5
get_or-short [] i short = omega arith
get_or-short (x ∷ xs) zero short = ground arith
get_or-short (x ∷ xs) (suc i) short = get_or-short xs i (ground (arith, short))

syllable-length : (digit : ℕ) → length (syllable digit) ≤ 5
syllable-length digit = get_or-short name_bank digit refl

-- A string of 16 bytes takes any syllable, at its beginning whatever the `start` is.
copy_from-syllable :
    (digit start : ℕ) (bytes : List ℕ)
    → length bytes ≡ 16
    → (bytes' : List ℕ) × (copy_from (syllable digit) start bytes ≡ some bytes')
      × (length bytes' ≡ 16)
      × ((i : ℕ) → i < length (syllable digit) → get_or bytes' i 0 ≡ get_or (syllable digit) i 0)
unfolding copy_from
copy_from-syllable digit start bytes long =
    let (bytes', runs, (same, copied, kept)) =
      copy_bytes-Copied 0 (syllable digit) bytes (omega (arith, long, syllable-length digit)) in
    (bytes', runs, same ∙ long, λ i below. copied i i below (omega arith))

-- A name is generated for every seed. It has 16 bytes and begins with the syllable of the hundreds digit of the
-- seed, since each syllable is copied over the one before it.
pub last_name_gen-syllable :
    (seed : ℕ)
    → (name : List ℕ) × (last_name_gen seed ≡ some name)
      × (length name ≡ 16)
      × ((i : ℕ)
          → i < length (syllable (seed / 10 / 10 % 10))
          → get_or name i 0 ≡ get_or (syllable (seed / 10 / 10 % 10)) i 0)
unfolding last_name_gen syllables
last_name_gen-syllable seed =
    let (a, runs, long, _) = copy_from-syllable (seed % 10) 0 (new_string 16) refl in
    let pos = 0 + length (syllable (seed % 10)) in
    let (b, runs', long', _) = copy_from-syllable (seed / 10 % 10) pos a long in
    let pos' = pos + length (syllable (seed / 10 % 10)) in
    let (c, runs'', long'', begins) = copy_from-syllable (seed / 10 / 10 % 10) pos' b long' in
    (
      c,
      ap (λ x. and_copied x (syllables 2 (seed / 10) pos)) runs
          ∙ ap (λ x. and_copied x (syllables 1 (seed / 10 / 10) pos')) runs'
          ∙ ap
              (λ x. and_copied x (
                syllables 0 (seed / 10 / 10 / 10) (pos' + length (syllable (seed / 10 / 10 % 10)))))
              runs'',
      long'',
      begins,
    )
