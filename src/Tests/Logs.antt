-- ===== src/Tests/Logs.antt =====
-- The bytes of a log with buffers of four.
use alchemy.Base.{
  ℕ, ◌+◌, ◌-◌, ◌/◌, ◌%◌, ◌≡◌, ◌<◌, ◌≤◌, refl, arith, some, ok, [], ◌∷◌, get_or, true, leb, ltb,
  ◌&&◌, if◌then◌else◌,
}
use alchemy.Logger.{acquire_log_buffer, try_flush_logs}
use alchemy.Logger.Bytes.{Log, new_log, append_log, flush_buffer, flush_logs}
use alchemy.Logger.Stream.{Reach, began, appended, flushed, file-Reach}

abbrev one_entry : Log
one_entry = append_log (11 ∷ 12 ∷ 13 ∷ []) (new_log 4 (λ _ _. 0))

abbrev two_entries : Log
two_entries = append_log (14 ∷ []) one_entry

abbrev three_entries : Log
three_entries = append_log (15 ∷ 16 ∷ []) two_entries

-- The buffer that is written is 11, 12, 13, 14.
abbrev flushed_once : Log
unfolding append_log acquire_log_buffer new_log
flushed_once = record three_entries {
  logger = record three_entries.logger { flushed_offset = 4 };
  file = λ p.
      if leb three_entries.file_len p && ltb p (three_entries.file_len + 4)
      then three_entries.buffers 0 (p - three_entries.file_len)
      else 0;
  file_len = 4;
}

three_entries-Reach : Reach 4 (11 ∷ 12 ∷ 13 ∷ 14 ∷ 15 ∷ 16 ∷ []) three_entries
unfolding append_log acquire_log_buffer new_log
three_entries-Reach =
    appended (15 ∷ 16 ∷ [])
      (appended (14 ∷ [])
        (appended (11 ∷ 12 ∷ 13 ∷ []) (began (λ _ _. 0))
          (record { within = omega arith; free = omega arith }))
        (record { within = omega arith; free = omega arith }))
      (record { within = omega arith; free = omega arith })

flush_three :
    flush_logs three_entries.logger.buffer_size true three_entries ≡ some (ok 0, flushed_once)
unfolding flush_logs flush_buffer try_flush_logs append_log acquire_log_buffer new_log flushed_once
flush_three = refl

flushed_once-Reach : Reach 4 (11 ∷ 12 ∷ 13 ∷ 14 ∷ 15 ∷ 16 ∷ []) flushed_once
flushed_once-Reach = flushed (ok 0) three_entries-Reach flush_three

file-Reach_example :
    (flushed_once.file_len ≡ flushed_once.logger.flushed_offset)
    × (flushed_once.logger.cur_offset ≡ 6)
    × ((p : ℕ)
        → p < flushed_once.file_len
        → flushed_once.file p ≡ get_or (11 ∷ 12 ∷ 13 ∷ 14 ∷ 15 ∷ 16 ∷ []) p 0)
    × ((p : ℕ)
        → flushed_once.file_len ≤ p
        → p < 6
        → flushed_once.buffers
            (p / flushed_once.logger.buffer_size % 2)
            (p % flushed_once.logger.buffer_size)
          ≡ get_or (11 ∷ 12 ∷ 13 ∷ 14 ∷ 15 ∷ 16 ∷ []) p 0)
file-Reach_example =
    file-Reach 4 (11 ∷ 12 ∷ 13 ∷ 14 ∷ 15 ∷ 16 ∷ []) flushed_once (omega arith) flushed_once-Reach
