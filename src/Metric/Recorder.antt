-- ===== src/Metric/Recorder.antt =====
-- The recorder of a thread, src/metric/src/recorders.rs: its counters, histograms
-- (src/metric/src/histogram.rs), timers (src/metric/src/timer.rs) and the counters for
-- each tag (src/metric/src/ctx_counter.rs), and the macros of src/metric/src/lib.rs.
use alchemy.Base.{
  ℕ, ◌+◌, ◌%◌, ◌^◌, Bool, Option, none, some, List, [], ◌∷◌, ◌++◌, put, if◌then◌else◌,
}
use alchemy.Metric.Counter.{Counter, CounterRecorder, word, no_counts, increment, add_counts}
use alchemy.Map.{Map, upsert, merge}

pub data Histogram : Type 0 where
  probe_len hotness scanned payment_customer_scan : Histogram
  os_order_scan order_line_scan stock_level_quantity : Histogram

unfoldable pub histogram_num : Histogram → ℕ
histogram_num probe_len = 0
histogram_num hotness = 1
histogram_num scanned = 2
histogram_num payment_customer_scan = 3
histogram_num os_order_scan = 4
histogram_num order_line_scan = 5
histogram_num stock_level_quantity = 6

pub data Timer : Type 0 where
  read tpcc : Timer

unfoldable pub timer_num : Timer → ℕ
timer_num read = 0
timer_num tpcc = 1

-- The tags, the keys of a map.
pub data CtxCounter : Type 0 where
  customer stock order : CtxCounter

unfoldable pub tag_num : CtxCounter → ℕ
tag_num customer = 2
tag_num stock = 3
tag_num order = 4

-- `[HashMap<u16, usize>; LENGTH]`.
abbrev pub HistogramRecorder : Type 0
HistogramRecorder = ℕ → Map ℕ

abbrev pub add_words : ℕ → ℕ → ℕ
add_words x y = (x + y) % word

unfoldable pub hit : HistogramRecorder → Histogram → ℕ → HistogramRecorder
hit r event key =
    let i = histogram_num event in put r i (upsert (λ v. add_words v 1) 1 (r i) (key % 2 ^ 16))

unfoldable pub add_histograms : HistogramRecorder → HistogramRecorder → HistogramRecorder
add_histograms a b i = merge add_words (a i) (b i)

-- `[VecDeque<u64>; LENGTH]`.
abbrev pub TimerRecorder : Type 0
TimerRecorder = ℕ → List ℕ

unfoldable pub add_time : TimerRecorder → Timer → ℕ → TimerRecorder
add_time r event nanos = let i = timer_num event in put r i (r i ++ nanos % word ∷ [])

unfoldable pub add_timers : TimerRecorder → TimerRecorder → TimerRecorder
add_timers a b i = a i ++ b i

abbrev pub CtxCounterRecorder : Type 0
CtxCounterRecorder = Map CounterRecorder

unfoldable pub increment_for : CtxCounterRecorder → Counter → ℕ → CtxCounter → CtxCounterRecorder
increment_for r event amount tag =
    upsert (λ c. increment c event amount) (increment no_counts event amount) r (tag_num tag)

unfoldable pub add_ctx_counters : CtxCounterRecorder → CtxCounterRecorder → CtxCounterRecorder
add_ctx_counters a b = merge add_counts a b

pub record TlsRecorder : Type 0 where
  pub counters : CounterRecorder
  pub histograms : HistogramRecorder
  pub timers : TimerRecorder
  pub ctx_counter : CtxCounterRecorder

-- `default`.
unfoldable pub empty : TlsRecorder
empty = record { counters = no_counts; histograms = λ _. []; timers = λ _. []; ctx_counter = [] }

-- `reset` clears all the cells of each part.
unfoldable pub reset : TlsRecorder → TlsRecorder
reset r = record r { counters = λ _. 0; histograms = λ _. []; timers = λ _. []; ctx_counter = [] }

unfoldable pub add_recorders : TlsRecorder → TlsRecorder → TlsRecorder
add_recorders a b = record {
  counters = add_counts a.counters b.counters;
  histograms = add_histograms a.histograms b.histograms;
  timers = add_timers a.timers b.timers;
  ctx_counter = add_ctx_counters a.ctx_counter b.ctx_counter;
}

-- The calls of a recorder.
pub data Event : Type 0 where
  increment_counter : Counter → ℕ → Event
  count_for : Counter → ℕ → CtxCounter → Event
  hit_histogram : Histogram → ℕ → Event
  time : Timer → ℕ → Event

unfoldable pub apply : TlsRecorder → Event → TlsRecorder
apply r (increment_counter event amount) = record r { counters = increment r.counters event amount }
apply r (count_for event amount tag) = record r {
  ctx_counter = increment_for r.ctx_counter event amount tag;
}
apply r (hit_histogram event key) = record r { histograms = hit r.histograms event key }
apply r (time event nanos) = record r { timers = add_time r.timers event nanos }

-- The `counter!` macro with a tag, `metrics` the feature.
unfoldable pub counter_macro : Bool → TlsRecorder → Counter → Option CtxCounter → TlsRecorder
counter_macro metrics r event none = if metrics then apply r (increment_counter event 1) else r
counter_macro metrics r event (some tag) = if metrics then apply r (count_for event 1 tag) else r

-- The drop of a `TimerGuard`: the draw says whether the time is sampled.
unfoldable pub drop_guard : Bool → TlsRecorder → Timer → ℕ → TlsRecorder
drop_guard should_sample r event elapsed = if should_sample then apply r (time event elapsed) else r

-- A thread's recorder after its calls.
unfoldable pub run : TlsRecorder → List Event → TlsRecorder
run r [] = r
run r (e ∷ events) = run (apply r e) events
