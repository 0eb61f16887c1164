-- ===== src/Logger/Stream.antt =====
-- Appends and flushes of the logger (src/log/mod.rs) in any order.
use mathlib.Core.Path.{subst}
use native.Mathlib.Nat.{add-mul, mod-add-div', div-eq_of_lt-le}
use alchemy.Base.{
  ℕ, ◌+◌, ◌-◌, ◌*◌, ◌/◌, ◌%◌, ◌≡◌, ◌<◌, ◌≤◌, true, Option, none, some, Result, List, [], ◌++◌,
  length, get_or, leb, ltb, if◌then◌else◌, ◌&&◌, arith, sym, ap, ◌∙◌, dec_lt, length-append,
  if_true, if_false, Bool-cases, inl, inr,
}
use alchemy.Logger.{try_flush_logs, acquire_log_buffer}
use alchemy.Logger.Bytes.{Log, new_log, append_log, flush_buffer, flush_at, flush_logs}
use alchemy.Logger.Written.{Written, Fits, old_byte, new_byte, new_log-Written, get_or-append_left}

append_log-Written :
    (val stream : List ℕ) (log : Log)
    → Written stream log
    → Fits val log
    → Written (stream ++ val) (append_log val log)
unfolding append_log acquire_log_buffer
append_log-Written val stream log w f =
    let longer = length-append stream val in
    record {
      turn = w.turn;
      size = w.size;
      whole = w.whole;
      filed = w.filed;
      ends = omega (arith, longer, w.ends);
      behind = omega (arith, longer, w.behind);
      fits =
          omega (arith, longer, w.ends, f.free, w.whole, add-mul w.turn 2 log.logger.buffer_size);
      in_file = λ p lt.
          w.in_file p lt ∙ sym (get_or-append_left stream val p (omega (arith, w.filed, w.behind)));
      in_buffers = λ p le lt. elim (dec_lt p (length stream)) [
        | yes old ↦ old_byte val stream log w f p le old
        | no new ↦ new_byte val stream log w f p (omega arith) (omega (arith, longer))
      ];
    }

-- The position in a buffer of a byte of the part that is flushed.
flushed_at : (b k j : ℕ) → 0 < b → j < b → ((k * b + j) / b ≡ k) × ((k * b + j) % b ≡ j)
flushed_at b k j pos lt =
    let quotient : (k * b + j) / b ≡ k =
      div-eq_of_lt-le b {m = k * b + j} (omega arith) (rw (add-mul k 1 b) (omega arith)) in
    (quotient, omega (arith, mod-add-div' (k * b + j) b, ap (λ x. x * b) quotient))

abbrev log_of : Option (Result ℕ ℕ × Log) → Log → Log
log_of none log = log
log_of (some (_, log')) log = log'

module _ (stream : List ℕ) (log : Log) (w : Written stream log) where
  -- The log after the buffer of the part that is flushed next is written.
  flushed_log : Log
  flushed_log =
      let id = log.logger.flushed_offset / log.logger.buffer_size % 2 in
      record log {
        logger = record log.logger {
          flushed_offset = log.logger.flushed_offset + log.logger.buffer_size;
        };
        file = λ p.
            if leb log.file_len p && ltb p (log.file_len + log.logger.buffer_size)
            then log.buffers id (p - log.file_len)
            else log.file p;
        file_len = log.file_len + log.logger.buffer_size;
      }

  abbrev distance : ℕ
  distance = log.logger.cur_offset - log.logger.flushed_offset

  filed_byte :
      (p : ℕ)
      → log.logger.buffer_size ≤ distance
      → p < log.file_len + log.logger.buffer_size
      → flushed_log.file p ≡ get_or stream p 0
  unfolding flushed_log
  filed_byte p le lt = elim (dec_lt p log.file_len) [
    | yes old ↦
        if_false {b = leb log.file_len p && ltb p (log.file_len + log.logger.buffer_size)} _ _
          (ground arith)
        ∙ w.in_file p old
    | no new ↦
        let b = log.logger.buffer_size in
        let j : ℕ = p - log.file_len in
        let small : j < b = omega arith in
        let here : w.turn * b + j ≡ p = omega (arith, w.filed, w.whole) in
        let start : w.turn * b + 0 ≡ log.logger.flushed_offset = omega (arith, w.whole) in
        let (first, _) = flushed_at b w.turn 0 w.size w.size in
        let (quotient, offset) = flushed_at b w.turn j w.size small in
        if_true {b = leb log.file_len p && ltb p (log.file_len + b)} _ (log.file p) (ground arith)
        ∙ ap (λ x. log.buffers (x / b % 2) j) (sym start)
        ∙ ap (λ x. log.buffers (x % 2) j) (first ∙ sym quotient ∙ ap (λ x. x / b) here)
        ∙ ap (log.buffers (p / b % 2)) (sym offset ∙ ap (λ x. x % b) here)
        ∙ w.in_buffers p (omega (arith, w.filed)) (omega (arith, w.ends, w.filed, le))
  ]

  flushed_log-Written : log.logger.buffer_size ≤ distance → Written stream flushed_log
  unfolding flushed_log
  flushed_log-Written le = record {
    turn = w.turn + 1;
    size = w.size;
    whole = omega (arith, w.whole, add-mul w.turn 1 log.logger.buffer_size);
    filed = omega (arith, w.filed);
    ends = w.ends;
    behind = omega (arith, w.ends, le);
    fits = omega (
      arith,
      w.fits,
      add-mul w.turn 2 log.logger.buffer_size,
      add-mul (w.turn + 1) 2 log.logger.buffer_size,
      add-mul w.turn 1 log.logger.buffer_size,
    );
    in_file = λ p lt. filed_byte p le lt;
    in_buffers = λ p low lt. w.in_buffers p (omega arith) lt;
  }

  -- A flush that writes the whole buffer.
  flush_logs-Written :
      (r : Result ℕ ℕ) (log' : Log)
      → flush_logs log.logger.buffer_size true log ≡ some (r, log')
      → Written stream log'
  unfolding flush_logs flush_buffer try_flush_logs flushed_log
  flush_logs-Written r log' e = elim (Bool-cases (ltb distance log.logger.buffer_size)) [
    | inl small ↦
        let step = if_true {b = ltb distance log.logger.buffer_size} _ _ small in
        subst (Written stream)
          (ap (λ x. log_of x log) (sym (ap (flush_at log.logger.buffer_size true log) step) ∙ e)) w
    | inr large ↦ elim (Bool-cases (ltb distance (log.logger.buffer_size * 2))) [
      | inl two ↦
          let step =
            if_false {b = ltb distance log.logger.buffer_size} _ _ large
            ∙ if_true {b = ltb distance (log.logger.buffer_size * 2)} _ _ two in
          subst (Written stream)
            (ap (λ x. log_of x log) (sym (ap (flush_at log.logger.buffer_size true log) step) ∙ e))
            (flushed_log-Written (ground arith))
      | inr more ↦
          let step : try_flush_logs log.logger ≡ none =
            if_false {b = ltb distance log.logger.buffer_size} _ _ large
            ∙ if_false {b = ltb distance (log.logger.buffer_size * 2)} _ _ more in
          cc (sym (ap (flush_at log.logger.buffer_size true log) step) ∙ e)
    ]
  ]

-- The logs that appends and flushes lead to, each entry fitting where it is put and each write of a
-- buffer being complete, with all the bytes appended.
pub data Reach (size : ℕ) : List ℕ → Log → Type 0 where
  began : (buffers : ℕ → ℕ → ℕ) → Reach size [] (new_log size buffers)
  appended :
      {stream : List ℕ} {log : Log} (val : List ℕ)
      → Reach size stream log
      → Fits val log
      → Reach size (stream ++ val) (append_log val log)
  flushed :
      {stream : List ℕ} {log log' : Log} (r : Result ℕ ℕ)
      → Reach size stream log
      → flush_logs log.logger.buffer_size true log ≡ some (r, log')
      → Reach size stream log'

Reach-Written :
    {size : ℕ} {stream : List ℕ} {log : Log} → 0 < size → Reach size stream log → Written stream log
Reach-Written pos (began buffers) = new_log-Written _ buffers pos
Reach-Written pos (appended val reach fits) =
    append_log-Written val _ _ (Reach-Written pos reach) fits
Reach-Written pos (flushed r reach e) = flush_logs-Written _ _ (Reach-Written pos reach) r _ e

-- Entries are appended, by one thread at a time, and buffers are flushed, in any order; the buffers
-- have a size, no entry crosses the end of its buffer or reaches bytes that wait for a flush, and
-- each write of a buffer is complete. Then the file is as long as `flushed_offset` says and holds
-- the first bytes of all that was appended, in order, and the bytes after them, up to
-- `cur_offset`, are in the buffers.
pub file-Reach :
    (size : ℕ) (stream : List ℕ) (log : Log)
    → 0 < size
    → Reach size stream log
    → (log.file_len ≡ log.logger.flushed_offset)
      × (log.logger.cur_offset ≡ length stream)
      × ((p : ℕ) → p < log.file_len → log.file p ≡ get_or stream p 0)
      × ((p : ℕ)
          → log.file_len ≤ p
          → p < length stream
          → log.buffers (p / log.logger.buffer_size % 2) (p % log.logger.buffer_size)
            ≡ get_or stream p 0)
file-Reach size stream log pos reach =
    let w = Reach-Written pos reach in
    (w.filed, w.ends, w.in_file, λ p le lt. w.in_buffers p (omega (arith, w.filed)) lt)
