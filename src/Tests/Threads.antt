-- ===== src/Tests/Threads.antt =====
-- Two threads on one lock word.
use alchemy.Base.{ℕ, ◌+◌, ◌≡◌, refl, arith, false, total, put}
use alchemy.Oid.{
  read_lock_cnt, write_locked, try_read, try_write, lock_reader, lock_writer, has_lock,
}
use alchemy.Oid.Layout.{content}
use alchemy.Oid.Threads.Defs.{Pc, Move, System, pick, Reach, start, later}
use alchemy.Oid.Threads.Counts.{reads}
use alchemy.Oid.Threads.Safety.{
  write_guard-is_alone, read_lock_cnt-counts, read_guard-content_stable,
}

-- Thread 1 takes the read guard.
abbrev loaded : System
loaded = record { word = 5; pc = put (λ _. Pc.idle) 1 (Pc.try_reading 5) }

abbrev read : System
read = record { word = lock_reader + 5; pc = put loaded.pc 1 Pc.reader }

Reach-read : Reach 2 5 read
unfolding try_read write_locked
Reach-read =
    later (later start (pick 1 (omega arith) Move.try_read_load))
      (pick 1 (omega arith) (Move.try_read_ok false refl))

-- Then thread 0 loads the word in `write`.
abbrev waiting : System
waiting = record { word = lock_reader + 5; pc = put read.pc 0 (Pc.writing (lock_reader + 5)) }

-- Thread 1 takes the write guard.
abbrev loaded_w : System
loaded_w = record { word = 5; pc = put (λ _. Pc.idle) 1 (Pc.try_writing 5) }

abbrev written : System
written = record { word = lock_writer + 5; pc = put loaded_w.pc 1 Pc.writer }

Reach-written : Reach 2 5 written
unfolding try_write has_lock
Reach-written =
    later (later start (pick 1 (omega arith) Move.try_write_load))
      (pick 1 (omega arith) (Move.try_write_ok false refl))

write_guard-is_alone_example : ◌≡◌ {A = ℕ} 1 1
write_guard-is_alone_example =
    write_guard-is_alone (omega arith) (omega arith) Reach-written 1 1 (omega arith) (omega arith)
      refl refl

read_lock_cnt-counts_example :
    (read_lock_cnt read.word ≡ total reads 2 read.pc) × (write_locked read.word ≡ false)
unfolding total
read_lock_cnt-counts_example = read_lock_cnt-counts (omega arith) (omega arith) Reach-read refl

read_guard-content_stable_example : content waiting.word ≡ content read.word
read_guard-content_stable_example =
    read_guard-content_stable {t = waiting} (omega arith) (omega arith) Reach-read
      (pick 0 (omega arith) Move.write_load) 1 (omega arith) refl
