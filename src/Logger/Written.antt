-- ===== src/Logger/Written.antt =====
-- The file of the logger (src/log/mod.rs) holds what was appended, in order.
use native.Mathlib.Nat.{mod-add-div', div-lt_iff_lt-mul, div-eq_of_lt-le, div-mul-le_self, add-mul}
use alchemy.Base.{
  ℕ, zero, suc, ◌+◌, ◌-◌, ◌*◌, ◌/◌, ◌%◌, ◌≡◌, ◌<◌, ◌≤◌, refl, List, [], ◌∷◌, ◌++◌, length, get_or,
  leb, ltb, ◌&&◌, arith, sym, ap, ◌∙◌, ℕ_discrete, dec_lt, if_true, if_false, ==_iff, ==-ne,
  ==-refl,
}
use alchemy.Logger.{acquire_log_buffer}
use alchemy.Logger.Bytes.{Log, new_log, append_log, written_to, copied}

div-ge : (b k p : ℕ) → 0 < b → k * b ≤ p → k ≤ p / b
div-ge b k p pos le = elim (dec_lt (p / b) k) [
  | yes low ↦ absurd (omega (arith, (div-lt_iff_lt-mul pos).0 low))
  | no high ↦ omega arith
]

-- Two positions in one buffer, less than two buffers apart: the earlier has the lower offset.
same_buffer :
    (b k p c : ℕ)
    → 0 < b
    → k * b ≤ p
    → p < c
    → c < (k + 2) * b
    → p / b % 2 ≡ c / b % 2
    → p % b < c % b
same_buffer b k p c pos low lt high same =
    let upper = (div-lt_iff_lt-mul pos).1 high in
    let lower = div-ge b k p pos low in
    let between = div-ge b (p / b) c pos (omega (arith, div-mul-le_self p b)) in
    let equal : p / b ≡ c / b = omega (arith, same) in
    omega (arith, mod-add-div' p b, mod-add-div' c b, ap (λ x. x * b) equal)

pub get_or-append_left :
    (xs ys : List ℕ) (p : ℕ) → p < length xs → get_or (xs ++ ys) p 0 ≡ get_or xs p 0
get_or-append_left [] ys p lt = absurd (omega arith)
get_or-append_left (x ∷ xs) ys zero lt = refl
get_or-append_left (x ∷ xs) ys (suc p) lt = get_or-append_left xs ys p (omega arith)

get_or-append_right : (xs ys : List ℕ) (j : ℕ) → get_or (xs ++ ys) (length xs + j) 0 ≡ get_or ys j 0
get_or-append_right [] ys j = ap (λ i. get_or ys i 0) (omega arith)
get_or-append_right (x ∷ xs) ys j =
    let shift : suc (length xs) + j ≡ suc (length xs + j) = omega arith in
    ap (λ i. get_or (x ∷ xs ++ ys) i 0) shift ∙ get_or-append_right xs ys j

-- The stream is what was appended so far. Its part up to `flushed_offset` is in the file, the rest
-- is in the buffers.
pub record Written (stream : List ℕ) (log : Log) : Type 0 where
  pub turn : ℕ
  pub size : 0 < log.logger.buffer_size
  pub whole : log.logger.flushed_offset ≡ turn * log.logger.buffer_size
  pub filed : log.file_len ≡ log.logger.flushed_offset
  pub ends : log.logger.cur_offset ≡ length stream
  pub behind : log.logger.flushed_offset ≤ length stream
  pub fits : length stream ≤ (turn + 2) * log.logger.buffer_size
  pub in_file : (p : ℕ) → p < log.file_len → log.file p ≡ get_or stream p 0
  pub in_buffers :
      (p : ℕ)
      → log.logger.flushed_offset ≤ p
      → p < length stream
      → log.buffers (p / log.logger.buffer_size % 2) (p % log.logger.buffer_size)
        ≡ get_or stream p 0

pub new_log-Written :
    (size : ℕ) (buffers : ℕ → ℕ → ℕ) → 0 < size → Written [] (new_log size buffers)
unfolding new_log
new_log-Written size buffers pos = record {
  turn = 0;
  size = pos;
  whole = omega arith;
  filed = refl;
  ends = refl;
  behind = omega arith;
  fits = omega arith;
  in_file = λ p lt. absurd (omega arith);
  in_buffers = λ p le lt. absurd (omega arith);
}

-- An entry may be appended: it does not cross the end of its buffer, and does not reach bytes that wait
-- for a flush.
pub record Fits (val : List ℕ) (log : Log) : Type 0 where
  pub within : log.logger.cur_offset % log.logger.buffer_size + length val ≤ log.logger.buffer_size
  pub free :
      log.logger.cur_offset + length val ≤ log.logger.flushed_offset + 2 * log.logger.buffer_size

-- An entry that fits its buffer: where its bytes go.
entry_at :
    (b c j len : ℕ)
    → 0 < b
    → c % b + len ≤ b
    → j < len
    → ((c + j) / b ≡ c / b) × ((c + j) % b ≡ c % b + j)
entry_at b c j len pos within lt =
    let at = mod-add-div' c b in
    let quotient : (c + j) / b ≡ c / b =
      div-eq_of_lt-le b {m = c + j} (omega (arith, at))
        (rw (add-mul (c / b) 1 b) (omega (arith, at))) in
    (quotient, omega (arith, at, mod-add-div' (c + j) b, ap (λ x. x * b) quotient))

-- The bytes of an entry, and those that it leaves alone.
copied-inside :
    (val : List ℕ) (offset j : ℕ) (bytes : ℕ → ℕ)
    → j < length val
    → copied val offset bytes (offset + j) ≡ get_or val j 0
copied-inside val offset j bytes lt =
    let back : offset + j - offset ≡ j = omega arith in
    if_true {b = leb offset (offset + j) && ltb (offset + j) (offset + length val)} _
      (bytes (offset + j)) (ground arith)
    ∙ ap (λ i. get_or val i 0) back

copied-outside :
    (val : List ℕ) (offset o : ℕ) (bytes : ℕ → ℕ)
    → (0 < length val → o < offset)
    → copied val offset bytes o ≡ bytes o
copied-outside val offset o bytes before =
    if_false {b = leb offset o && ltb o (offset + length val)} (get_or val (o - offset) 0) _
      (ground arith)

written_to-other :
    (val : List ℕ) (id offset b o : ℕ) (buffers : ℕ → ℕ → ℕ)
    → (0 < length val → id ≡ b → o < offset)
    → written_to val id offset buffers b o ≡ buffers b o
written_to-other val id offset b o buffers before = elim (ℕ_discrete id b) [
  | yes e ↦
      rw ((==_iff id b).1 e)
        (copied-outside val offset o (buffers b) (λ some_bytes. before some_bytes e))
  | no ne ↦ rw (==-ne id b ne) refl
]

written_to-inside :
    (val : List ℕ) (id offset j : ℕ) (buffers : ℕ → ℕ → ℕ)
    → j < length val
    → written_to val id offset buffers id (offset + j) ≡ get_or val j 0
written_to-inside val id offset j buffers lt =
    rw (==-refl id) (copied-inside val offset j (buffers id) lt)

module _ (val stream : List ℕ) (log : Log) (w : Written stream log) (f : Fits val log) where
  pub old_byte :
      (p : ℕ)
      → log.logger.flushed_offset ≤ p
      → p < length stream
      → (append_log val log).buffers (p / log.logger.buffer_size % 2) (p % log.logger.buffer_size)
        ≡ get_or (stream ++ val) p 0
  unfolding append_log acquire_log_buffer
  old_byte p le lt =
      let b = log.logger.buffer_size in
      let c = log.logger.cur_offset in
      written_to-other val (c / b % 2) (c % b) (p / b % 2) (p % b) log.buffers (λ some_bytes same.
        same_buffer b w.turn p c w.size (omega (arith, w.whole)) (omega (arith, w.ends))
          (omega (arith, f.free, w.whole, add-mul w.turn 2 b)) (sym same))
      ∙ w.in_buffers p le lt
      ∙ sym (get_or-append_left stream val p lt)

  pub new_byte :
      (p : ℕ)
      → length stream ≤ p
      → p < length stream + length val
      → (append_log val log).buffers (p / log.logger.buffer_size % 2) (p % log.logger.buffer_size)
        ≡ get_or (stream ++ val) p 0
  unfolding append_log acquire_log_buffer
  new_byte p le lt =
      let b = log.logger.buffer_size in
      let c = log.logger.cur_offset in
      let j : ℕ = p - length stream in
      let inside : j < length val = omega arith in
      let here : length stream + j ≡ p = omega arith in
      let from_c : c + j ≡ p = omega (arith, w.ends) in
      let (quotient, offset) = entry_at b c j (length val) w.size f.within inside in
      let bytes = written_to val (c / b % 2) (c % b) log.buffers in
      ap (λ x. bytes (x / b % 2) (x % b)) (sym from_c)
      ∙ ap (λ x. bytes (x % 2) ((c + j) % b)) quotient
      ∙ ap (bytes (c / b % 2)) offset
      ∙ written_to-inside val (c / b % 2) (c % b) j log.buffers inside
      ∙ sym (get_or-append_right stream val j)
      ∙ ap (λ x. get_or (stream ++ val) x 0) here
