-- ===== src/Tests/Metrics.antt =====
-- The metrics at concrete calls.
use alchemy.Base.{ℕ, ◌≡◌, refl, some, List, [], ◌∷◌, ◌++◌}
use alchemy.Metric.Counter.{
  Counter, read_hit, serialize, serialize_from, write_field, from_num, field_name, as_num,
  no_counts, increment,
}
use alchemy.Metric.Recorder.{
  Histogram, Timer, CtxCounter, Event, increment_counter, count_for, hit_histogram, time, hotness,
  stock, tpcc, run, apply, hit, histogram_num, empty, add_recorders,
}
use alchemy.Map.{upsert}
use alchemy.Metric.Sums.{count_of, hits_of, tag_count_of, times_of, add_recorders-run}

abbrev two_hits : ℕ → ℕ
unfolding increment no_counts
two_hits = increment no_counts read_hit 2

serialized :
    serialize two_hits
    ≡ some (
        ("read_hit", 2)
        ∷ ("read_miss", 0)
        ∷ ("probe_miss", 0)
        ∷ ("read_schema_miss", 0)
        ∷ ("read_cnt", 0)
        ∷ ("update_cnt", 0)
        ∷ ("insert_cnt", 0)
        ∷ ("update_schema_miss", 0)
        ∷ ("update_hit", 0)
        ∷ ("update_miss", 0)
        ∷ ("abort_read_lock_busy", 0)
        ∷ ("abort_write_lock_busy", 0)
        ∷ ("abort_upgrade_lock_busy", 0)
        ∷ ("abort_idx_not_found", 0)
        ∷ ("abort_lock_busy", 0)
        ∷ ("delivery_new_order_not_found", 0)
        ∷ ("new_order_rollback", 0)
        ∷ [])
unfolding serialize serialize_from from_num as_num field_name write_field increment no_counts
serialized = refl

abbrev first_calls : List Event
first_calls =
    increment_counter read_hit 2
    ∷ hit_histogram hotness 3
    ∷ count_for read_hit 1 stock
    ∷ time tpcc 40
    ∷ []

abbrev second_calls : List Event
second_calls =
    hit_histogram hotness 3
    ∷ hit_histogram hotness 65539
    ∷ increment_counter read_hit 5
    ∷ time tpcc 7
    ∷ []

add_recorders-run_example :
    let sum = add_recorders (run empty first_calls) (run empty second_calls) in
    let one = run empty (first_calls ++ second_calls) in
    ((c : Counter) → count_of c sum ≡ count_of c one)
    × ((h : Histogram) (key : ℕ) → hits_of h key sum ≡ hits_of h key one)
    × ((tag : CtxCounter) (c : Counter) → tag_count_of tag c sum ≡ tag_count_of tag c one)
    × ((t : Timer) → times_of t sum ≡ times_of t one)
add_recorders-run_example = add_recorders-run first_calls second_calls

-- The third key, 65539, is cut to 3.
three_hits : hits_of hotness 3 (run empty second_calls) ≡ some 2
unfolding run apply hit empty histogram_num upsert
three_hits = refl
