-- ===== src/Logger/Offsets.antt =====
-- Where the logger of src/log/mod.rs puts entries.
use alchemy.Base.{suc, ℕ, ◌+◌, ◌*◌, ◌/◌, ◌%◌, ◌≤◌, ◌<◌, ◌≡◌, sym, ap, ◌∙◌, arith}
use native.Mathlib.Nat.{
  suc-mul, add-mul, mod-lt, mul-le-mul_right, add-mul-mod_self_right, mul-lt-mul_of_pos_right,
  mul_assoc, mod-eq_of_lt, mod-add-div',
}
use alchemy.Logger.{Logger, acquire_log_buffer}

entry_offset :
    (i entries size : ℕ) → 0 < entries → 0 < size → i * size % (entries * size) ≡ i % entries * size
entry_offset i entries size some_entries pos =
    ap (λ x. x % (entries * size)) split
    ∙ add-mul-mod_self_right (i % entries * size) (i / entries) (entries * size)
    ∙ mod-eq_of_lt (mul-lt-mul_of_pos_right (mod-lt i some_entries) pos)
  where
    split : i * size ≡ i % entries * size + i / entries * (entries * size)
    split =
        ap (λ x. x * size) (sym (mod-add-div' i entries))
        ∙ add-mul (i % entries) (i / entries * entries) size
        ∙ ap (λ x. i % entries * size + x) (mul_assoc (i / entries) entries size)

-- The buffer size is a positive multiple of the size of the entries, and the offset is a multiple of
-- it. Then the slice that `acquire_log_buffer` gives ends within its buffer, and the offset becomes the next multiple.
pub acquire_log_buffer-within :
    (l : Logger) (size entries i : ℕ)
    → 0 < size
    → l.buffer_size ≡ entries * size
    → 0 < entries
    → l.cur_offset ≡ i * size
    → (let ((_, offset), l') = acquire_log_buffer size l in
        (offset + size ≤ l.buffer_size) × (l'.cur_offset ≡ (i + 1) * size))
unfolding acquire_log_buffer
acquire_log_buffer-within l size entries i pos whole some_entries at_entry =
    let here : l.cur_offset % l.buffer_size ≡ i % entries * size =
      ap (λ x. x % l.buffer_size) at_entry
      ∙ ap (λ x. i * size % x) whole
      ∙ entry_offset i entries size some_entries pos in
    (
      rw (here, whole)
          (rw (suc-mul (i % entries) size) at
            (mul-le-mul_right {m = suc (i % entries)} {n = entries} size (mod-lt i some_entries))),
      rw (add-mul i 1 size, at_entry) (omega arith),
    )
