-- ===== src/Tests/Races.antt =====
-- Threads that take blocks of an allocator of two blocks, at addresses 64 and 72, in a given order.
use alchemy.Base.{ℕ, ◌+◌, ◌*◌, ◌<◌, ◌≤◌, ◌≡◌, refl, arith, Bool, true, false, Option, put}
use alchemy.Alloc.{Memory, ArrayAllocator, new, link}
use alchemy.Alloc.Race.{
  idle, loaded, exchanging, System, goto, load, load_next, exchange, again, free, Reach, start,
  later,
}
use alchemy.Alloc.Race.Safety.{exchange-gives_once}
use alchemy.Alloc.Race.Progress.{fails, fails_now, gets_on, gets_on_now, fails-gets_on}

abbrev two_blocks : Option (ArrayAllocator × Memory)
two_blocks = new 2 64 8 8 (λ _. 0)

abbrev linked : Memory
linked = put (put (λ _. 0) 64 0) 72 64

abbrev at_start : System
at_start = record { list_node = 72; memory = linked; given = λ _. false; pc = λ _. idle }

start_run : (frees : Bool) → Reach frees 2 64 8 at_start
unfolding new link
start_run frees = start 8 (λ _. 0) (omega arith) refl

-- Both threads load the first block and the one after it.
abbrev both : System
both =
    goto (goto (goto (goto at_start 0 (loaded 72)) 0 (exchanging 72 64)) 1 (loaded 72)) 1
      (exchanging 72 64)

both_run : (frees : Bool) → Reach frees 2 64 8 both
both_run frees =
    later
      (later
        (later (later (start_run frees) (load 0 refl))
          (load_next 0 72 refl (λ e. omega (arith, e))))
        (load 1 refl))
      (load_next 1 72 refl (λ e. omega (arith, e)))

exchange-gives_once_example : (both.given 72 ≡ false) × ((x : ℕ) × (x < 2) × (72 ≡ 64 + x * 8))
exchange-gives_once_example = exchange-gives_once 2 64 8 both 0 72 64 (both_run false) refl refl

-- Thread 1 takes it.
abbrev one_took : System
one_took = record both { list_node = 64; given = put both.given 72 true; pc = put both.pc 1 idle }

one_took_run : (frees : Bool) → Reach frees 2 64 8 one_took
one_took_run frees = later (both_run frees) (exchange 1 72 64 refl refl)

-- Thread 0 fails once.
abbrev zero_again : System
zero_again = goto one_took 0 (loaded 64)

zero_again_run : Reach false 2 64 8 zero_again
zero_again_run = later (one_took_run false) (again 0 72 64 refl (λ e. omega (arith, e)))

fails-gets_on_example : fails 0 zero_again_run ≤ gets_on 0 zero_again_run
fails-gets_on_example = fails-gets_on 0 zero_again_run

fails_once : (fails 0 zero_again_run ≡ 1) × (gets_on 0 zero_again_run ≡ 1)
unfolding fails gets_on fails_now gets_on_now zero_again_run one_took_run both_run start_run
fails_once = (refl, refl)

-- With blocks that are freed: thread 1 takes the other block too, and frees the first. The exchange of thread 0
-- succeeds, and puts the block that is still held at the head of the list.
abbrev other_loaded : System
other_loaded = goto (goto one_took 1 (loaded 64)) 1 (exchanging 64 0)

abbrev both_held : System
both_held = record other_loaded {
  list_node = 0;
  given = put other_loaded.given 64 true;
  pc = put other_loaded.pc 1 idle;
}

abbrev one_freed : System
one_freed = record both_held {
  list_node = 72;
  memory = put both_held.memory 72 0;
  given = put both_held.given 72 false;
}

abbrev zero_took : System
zero_took = record one_freed {
  list_node = 64;
  given = put one_freed.given 72 true;
  pc = put one_freed.pc 0 idle;
}

zero_took_run : Reach true 2 64 8 zero_took
zero_took_run =
    later
      (later
        (later
          (later (later (one_took_run true) (load 1 refl))
            (load_next 1 64 refl (λ e. omega (arith, e))))
          (exchange 1 64 0 refl refl))
        (free 72 refl refl))
      (exchange 0 72 64 refl refl)

given_twice : (zero_took.list_node ≡ 64) × (zero_took.given 64 ≡ true)
given_twice = (refl, refl)
