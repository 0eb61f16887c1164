-- ===== src/Metric/Counter.antt =====
-- The counters of src/metric/src/counter.rs: the enum with the conversions that `MetricEnum`
-- (src/metric/src/metric_utils/src/lib.rs) derives, the recorder, and its serialization. An
-- array of counters is a family of words of which the code uses the first 17.
use Prim.Native.String.{String}
use alchemy.Base.{
  ℕ, zero, suc, ◌+◌, ◌%◌, ◌^◌, ◌≡◌, refl, Option, none, some, List, [], ◌∷◌, put, ◌==◌,
  if◌then◌else◌,
}

pub data Counter : Type 0 where
  read_hit read_miss probe_miss read_schema_miss read_cnt update_cnt : Counter
  insert_cnt update_schema_miss update_hit update_miss abort_r_lock_busy abort_w_lock_busy : Counter
  abort_upgrade_busy abort_idx_not_found abort_lock_busy delivery_new_order_not_found
        new_order_rollback :
      Counter

abbrev pub counter_length : ℕ
counter_length = 17

-- `event as usize`.
unfoldable pub as_num : Counter → ℕ
as_num read_hit = 0
as_num read_miss = 1
as_num probe_miss = 2
as_num read_schema_miss = 3
as_num read_cnt = 4
as_num update_cnt = 5
as_num insert_cnt = 6
as_num update_schema_miss = 7
as_num update_hit = 8
as_num update_miss = 9
as_num abort_r_lock_busy = 10
as_num abort_w_lock_busy = 11
as_num abort_upgrade_busy = 12
as_num abort_idx_not_found = 13
as_num abort_lock_busy = 14
as_num delivery_new_order_not_found = 15
as_num new_order_rollback = 16

-- `none` is the `unreachable!` arm.
unfoldable pub from_num : ℕ → Option Counter
from_num num =
    if num == 0
    then some read_hit
    else if num == 1
    then some read_miss
    else if num == 2
    then some probe_miss
    else if num == 3
    then some read_schema_miss
    else if num == 4
    then some read_cnt
    else if num == 5
    then some update_cnt
    else if num == 6
    then some insert_cnt
    else if num == 7
    then some update_schema_miss
    else if num == 8
    then some update_hit
    else if num == 9
    then some update_miss
    else if num == 10
    then some abort_r_lock_busy
    else if num == 11
    then some abort_w_lock_busy
    else if num == 12
    then some abort_upgrade_busy
    else if num == 13
    then some abort_idx_not_found
    else if num == 14
    then some abort_lock_busy
    else if num == 15
    then some delivery_new_order_not_found
    else if num == 16
    then some new_order_rollback
    else none

abbrev pub word : ℕ
word = 2 ^ 64

abbrev pub CounterRecorder : Type 0
CounterRecorder = ℕ → ℕ

unfoldable pub no_counts : CounterRecorder
no_counts i = 0

unfoldable pub increment : CounterRecorder → Counter → ℕ → CounterRecorder
increment r event amount = put r (as_num event) ((r (as_num event) + amount) % word)

-- `+=`, on every cell.
unfoldable pub add_counts : CounterRecorder → CounterRecorder → CounterRecorder
add_counts a b i = (a i + b i) % word

-- The name under which each arm of `serialize` writes its counter.
unfoldable pub field_name : Counter → String
field_name read_hit = "read_hit"
field_name read_miss = "read_miss"
field_name probe_miss = "probe_miss"
field_name read_schema_miss = "read_schema_miss"
field_name read_cnt = "read_cnt"
field_name update_cnt = "update_cnt"
field_name insert_cnt = "insert_cnt"
field_name update_schema_miss = "update_schema_miss"
field_name update_hit = "update_hit"
field_name update_miss = "update_miss"
field_name abort_r_lock_busy = "abort_read_lock_busy"
field_name abort_w_lock_busy = "abort_write_lock_busy"
field_name abort_upgrade_busy = "abort_upgrade_lock_busy"
field_name abort_idx_not_found = "abort_idx_not_found"
field_name abort_lock_busy = "abort_lock_busy"
field_name delivery_new_order_not_found = "delivery_new_order_not_found"
field_name new_order_rollback = "new_order_rollback"

unfoldable pub write_field :
    CounterRecorder → Option Counter → Option (List (String × ℕ)) → Option (List (String × ℕ))
unfolding as_num field_name
write_field r (some c) (some rest) = some ((field_name c, r (as_num c)) ∷ rest)
write_field r _ _ = none

-- The loop of `serialize` over `k` numbers from `i`.
unfoldable pub serialize_from : CounterRecorder → ℕ → ℕ → Option (List (String × ℕ))
serialize_from r zero i = some []
serialize_from r (suc k) i = write_field r (from_num i) (serialize_from r k (i + 1))

unfoldable pub serialize : CounterRecorder → Option (List (String × ℕ))
serialize r = serialize_from r counter_length 0

-- An event is read back from its number.
pub from_num-as_num : (c : Counter) → from_num (as_num c) ≡ some c
unfolding from_num as_num
from_num-as_num read_hit = refl
from_num-as_num read_miss = refl
from_num-as_num probe_miss = refl
from_num-as_num read_schema_miss = refl
from_num-as_num read_cnt = refl
from_num-as_num update_cnt = refl
from_num-as_num insert_cnt = refl
from_num-as_num update_schema_miss = refl
from_num-as_num update_hit = refl
from_num-as_num update_miss = refl
from_num-as_num abort_r_lock_busy = refl
from_num-as_num abort_w_lock_busy = refl
from_num-as_num abort_upgrade_busy = refl
from_num-as_num abort_idx_not_found = refl
from_num-as_num abort_lock_busy = refl
from_num-as_num delivery_new_order_not_found = refl
from_num-as_num new_order_rollback = refl
