-- ===== src/Metric/Sums.antt =====
-- The sums of recorders (src/metric/src/recorders.rs).
use alchemy.Base.{
  ℕ, ◌%◌, ◌^◌, ◌≡◌, refl, Option, List, [], ◌∷◌, ◌++◌, put, arith, sym, ap, ==_iff, ==-ne,
  ℕ_discrete,
}
use mathlib.Core.Path.{subst}
use mathlib.Core.List.{append-nil, append_assoc}
use alchemy.Metric.Counter.{Counter, as_num, word, no_counts, increment, add_counts}
use alchemy.Map.{
  Map, get, upsert, joined, joined_assoc, Distinct, upsert-Distinct, view-merge, view-upsert,
  joined-none, map_option,
}
use alchemy.Metric.Recorder.{
  Histogram, Timer, CtxCounter, histogram_num, timer_num, tag_num, add_words, hit, add_histograms,
  add_time, add_timers, increment_for, add_ctx_counters, TlsRecorder, empty, add_recorders, Event,
  increment_counter, count_for, hit_histogram, time, apply, run,
}
use alchemy.Metric.Merges.{Merges, view-add_recorders-run}

pub record IsKeyed (r : TlsRecorder) : Type 0 where
  pub histograms : (i : ℕ) → Distinct (r.histograms i)
  pub ctx_counter : Distinct r.ctx_counter

empty-IsKeyed : IsKeyed empty
unfolding empty
empty-IsKeyed = record { histograms = λ i. tt; ctx_counter = tt }

put-Distinct :
    (h : ℕ → Map ℕ) (i : ℕ) (m : Map ℕ)
    → ((j : ℕ) → Distinct (h j))
    → Distinct m
    → (j : ℕ) → Distinct (put h i m j)
put-Distinct h i m all new j = elim (ℕ_discrete i j) [
  | yes e ↦ rw ((==_iff i j).1 e) new
  | no ne ↦ rw (==-ne i j ne) (all j)
]

apply-IsKeyed : (r : TlsRecorder) (e : Event) → IsKeyed r → IsKeyed (apply r e)
unfolding apply hit increment_for
apply-IsKeyed r (increment_counter event amount) k = record {
  histograms = k.histograms;
  ctx_counter = k.ctx_counter;
}
apply-IsKeyed r (count_for event amount tag) k = record {
  histograms = k.histograms;
  ctx_counter = upsert-Distinct _ _ r.ctx_counter (tag_num tag) k.ctx_counter;
}
apply-IsKeyed r (hit_histogram event key) k = record {
  histograms = put-Distinct r.histograms (histogram_num event) _ k.histograms (
      upsert-Distinct _ _ (r.histograms (histogram_num event)) (key % 2 ^ 16)
        (k.histograms (histogram_num event)));
  ctx_counter = k.ctx_counter;
}
apply-IsKeyed r (time event nanos) k = record {
  histograms = k.histograms;
  ctx_counter = k.ctx_counter;
}

run-IsKeyed : (r : TlsRecorder) (events : List Event) → IsKeyed r → IsKeyed (run r events)
unfolding run
run-IsKeyed r [] k = k
run-IsKeyed r (e ∷ events) k = run-IsKeyed (apply r e) events (apply-IsKeyed r e k)

add_words_assoc : (x y z : ℕ) → add_words (add_words x y) z ≡ add_words x (add_words y z)
add_words_assoc x y z = omega arith

abbrev to_word : ℕ → ℕ
to_word x = x % word

-- A counter as a word.
abbrev pub count_of : Counter → TlsRecorder → ℕ
count_of c r = to_word (r.counters (as_num c))

count_of-apply :
    (c : Counter) (r : TlsRecorder) (e : Event)
    → count_of c (apply r e) ≡ add_words (count_of c r) (count_of c (apply empty e))
unfolding apply increment empty no_counts
count_of-apply c r (increment_counter event amount) = ground arith
count_of-apply c r (count_for event amount tag) = omega arith
count_of-apply c r (hit_histogram event key) = omega arith
count_of-apply c r (time event nanos) = omega arith

counter_view : Counter → Merges ℕ IsKeyed
unfolding empty add_recorders add_counts no_counts
counter_view c = record {
  view = count_of c;
  join = add_words;
  join_assoc = add_words_assoc;
  join-empty = λ r. omega arith;
  view-apply = count_of-apply c;
  view-add_recorders = λ r s k. omega arith;
}

-- The hits of a key in a histogram, as a word where there are any.
abbrev pub hits_of : Histogram → ℕ → TlsRecorder → Option ℕ
hits_of h key r = map_option to_word (get (r.histograms (histogram_num h)) key)

hits_of-apply :
    (h : Histogram) (key : ℕ) (r : TlsRecorder) (e : Event)
    → hits_of h key (apply r e) ≡ joined add_words (hits_of h key r) (hits_of h key (apply empty e))
unfolding apply hit empty
hits_of-apply h key r (increment_counter event amount) = joined-none add_words (hits_of h key r)
hits_of-apply h key r (count_for event amount tag) = joined-none add_words (hits_of h key r)
hits_of-apply h key r (hit_histogram event k) =
    elim (ℕ_discrete (histogram_num event) (histogram_num h)) [
      | yes e ↦
          let same = (==_iff (histogram_num event) (histogram_num h)).1 e in
          rw same (
            subst
              (λ j.
                map_option to_word (
                  get
                    (upsert (λ v. add_words v 1) 1 (r.histograms (histogram_num event))
                      (k % 2 ^ 16))
                    key)
                ≡ joined add_words (map_option to_word (get (r.histograms j) key))
                    (map_option to_word (get (upsert (λ v. add_words v 1) 1 [] (k % 2 ^ 16)) key)))
              e
              (view-upsert to_word add_words (λ v. add_words v 1) 1 (λ x. omega arith)
                (r.histograms (histogram_num event)) (k % 2 ^ 16) key))
      | no ne ↦
          let differs = ==-ne (histogram_num event) (histogram_num h) ne in
          rw differs (joined-none add_words (hits_of h key r))
    ]
hits_of-apply h key r (time event nanos) = joined-none add_words (hits_of h key r)

histogram_view : Histogram → ℕ → Merges (Option ℕ) IsKeyed
unfolding empty add_recorders add_histograms
histogram_view h key = record {
  view = hits_of h key;
  join = joined add_words;
  join_assoc = joined_assoc add_words add_words_assoc;
  join-empty = λ r. sym (joined-none add_words (hits_of h key r));
  view-apply = hits_of-apply h key;
  view-add_recorders = λ r s k.
      view-merge to_word add_words add_words (λ x y. omega arith) (r.histograms (histogram_num h))
        (s.histograms (histogram_num h)) key (k.histograms (histogram_num h));
}

-- A counter of a tag, as a word where the tag has counters.
abbrev pub tag_count_of : CtxCounter → Counter → TlsRecorder → Option ℕ
tag_count_of tag c r =
    map_option (λ counters. to_word (counters (as_num c))) (get r.ctx_counter (tag_num tag))

tag_count_of-apply :
    (tag : CtxCounter) (c : Counter) (r : TlsRecorder) (e : Event)
    → tag_count_of tag c (apply r e)
      ≡ joined add_words (tag_count_of tag c r) (tag_count_of tag c (apply empty e))
unfolding apply increment_for increment empty no_counts
tag_count_of-apply tag c r (increment_counter event amount) =
    joined-none add_words (tag_count_of tag c r)
tag_count_of-apply tag c r (count_for event amount t) =
    view-upsert (λ counters. to_word (counters (as_num c))) add_words _ _ (λ x. ground arith)
      r.ctx_counter (tag_num t) (tag_num tag)
tag_count_of-apply tag c r (hit_histogram event key) = joined-none add_words (tag_count_of tag c r)
tag_count_of-apply tag c r (time event nanos) = joined-none add_words (tag_count_of tag c r)

tag_view : CtxCounter → Counter → Merges (Option ℕ) IsKeyed
unfolding empty add_recorders add_ctx_counters add_counts
tag_view tag c = record {
  view = tag_count_of tag c;
  join = joined add_words;
  join_assoc = joined_assoc add_words add_words_assoc;
  join-empty = λ r. sym (joined-none add_words (tag_count_of tag c r));
  view-apply = tag_count_of-apply tag c;
  view-add_recorders = λ r s k.
      view-merge (λ counters. to_word (counters (as_num c))) add_words add_counts
        (λ x y. omega arith) r.ctx_counter s.ctx_counter (tag_num tag) k.ctx_counter;
}

abbrev pub times_of : Timer → TlsRecorder → List ℕ
times_of t r = r.timers (timer_num t)

times_of-apply :
    (t : Timer) (r : TlsRecorder) (e : Event)
    → times_of t (apply r e) ≡ times_of t r ++ times_of t (apply empty e)
unfolding apply add_time empty
times_of-apply t r (increment_counter event amount) = sym (append-nil (times_of t r))
times_of-apply t r (count_for event amount tag) = sym (append-nil (times_of t r))
times_of-apply t r (hit_histogram event key) = sym (append-nil (times_of t r))
times_of-apply t r (time event nanos) = elim (ℕ_discrete (timer_num event) (timer_num t)) [
  | yes e ↦
      let same = (==_iff (timer_num event) (timer_num t)).1 e in
      rw same (ap (λ j. r.timers j ++ nanos % word ∷ []) e)
  | no ne ↦
      let differs = ==-ne (timer_num event) (timer_num t) ne in
      rw differs (sym (append-nil (times_of t r)))
]

timer_view : Timer → Merges (List ℕ) IsKeyed
unfolding empty add_recorders add_timers
timer_view t = record {
  view = times_of t;
  join = ◌++◌;
  join_assoc = append_assoc;
  join-empty = λ r. append-nil (times_of t r);
  view-apply = times_of-apply t;
  view-add_recorders = λ r s k. refl;
}

-- Two threads record calls of any kinds into recorders that start empty. The sum of the two
-- recorders shows what one recorder would that takes the calls of the first thread and then those of
-- the second: the same counters and the same counters of every tag, the same hits of each key in
-- every histogram, all as 64-bit words, and the same times in the same order.
pub add_recorders-run :
    (events more : List Event)
    → let sum = add_recorders (run empty events) (run empty more) in
      let one = run empty (events ++ more) in
      ((c : Counter) → count_of c sum ≡ count_of c one)
      × ((h : Histogram) (key : ℕ) → hits_of h key sum ≡ hits_of h key one)
      × ((tag : CtxCounter) (c : Counter) → tag_count_of tag c sum ≡ tag_count_of tag c one)
      × ((t : Timer) → times_of t sum ≡ times_of t one)
unfolding counter_view histogram_view tag_view timer_view
add_recorders-run events more =
    let keyed = run-IsKeyed empty more empty-IsKeyed in
    (
      λ c. view-add_recorders-run (counter_view c) events more keyed,
      λ h key. view-add_recorders-run (histogram_view h key) events more keyed,
      λ tag c. view-add_recorders-run (tag_view tag c) events more keyed,
      λ t. view-add_recorders-run (timer_view t) events more keyed,
    )
