-- ===== src/Tpcc/Mix.antt =====
-- The choice of transactions, src/benchmark/src/tpcc/config.rs.
use alchemy.Base.{
  ℕ, zero, suc, ◌+◌, ◌≡◌, ◌<◌, ◌≤◌, arith, Bool, true, false, Option, none, some, ltb, leb, ◌&&◌,
  if◌then◌else◌, min, Option-cases, inl, inr,
}
use alchemy.Tpcc.Keys.{add64}

pub record WorkloadMix : Type 0 where
  pub new_order : ℕ
  pub payment : ℕ
  pub order_status : ℕ
  pub delivery : ℕ
  pub stock_level : ℕ

pub data Workload : Type 0 where
  new_orders payments order_statuses deliveries stock_levels : Workload

-- `gen` from its draw; `none` is the panic.
unfoldable pub gen : WorkloadMix → ℕ → Option Workload
gen mix w =
    let payment = add64 mix.new_order mix.payment in
    let order_status = add64 payment mix.order_status in
    let delivery = add64 order_status mix.delivery in
    let stock_level = add64 delivery mix.stock_level in
    if ltb w mix.new_order
    then some new_orders
    else if ltb w payment
    then some payments
    else if ltb w order_status
    then some order_statuses
    else if ltb w delivery
    then some deliveries
    else if ltb w stock_level
    then some stock_levels
    else none

abbrev pub share : WorkloadMix → Workload → ℕ
share mix new_orders = mix.new_order
share mix payments = mix.payment
share mix order_statuses = mix.order_status
share mix deliveries = mix.delivery
share mix stock_levels = mix.stock_level

-- The shares of the kinds before a kind.
abbrev before : WorkloadMix → Workload → ℕ
before mix new_orders = 0
before mix payments = mix.new_order
before mix order_statuses = mix.new_order + mix.payment
before mix deliveries = mix.new_order + mix.payment + mix.order_status
before mix stock_levels = mix.new_order + mix.payment + mix.order_status + mix.delivery

abbrev is_kind : Workload → Option Workload → Bool
is_kind new_orders (some new_orders) = true
is_kind payments (some payments) = true
is_kind order_statuses (some order_statuses) = true
is_kind deliveries (some deliveries) = true
is_kind stock_levels (some stock_levels) = true
is_kind _ _ = false

abbrev pub IsFull : WorkloadMix → Type 0
IsFull mix = mix.new_order + mix.payment + mix.order_status + mix.delivery + mix.stock_level ≡ 100

gen-kind :
    (mix : WorkloadMix) (kind : Workload) (w : ℕ)
    → IsFull mix
    → w < 100
    → is_kind kind (gen mix w)
      ≡ (leb (before mix kind) w && ltb w (before mix kind + share mix kind))
unfolding gen
gen-kind mix new_orders w full lt = ground arith
gen-kind mix payments w full lt = ground arith
gen-kind mix order_statuses w full lt = ground arith
gen-kind mix deliveries w full lt = ground arith
gen-kind mix stock_levels w full lt = ground arith

-- How many of the draws below `n` give a kind.
unfoldable pub drawn : WorkloadMix → Workload → ℕ → ℕ
drawn mix kind zero = 0
drawn mix kind (suc n) = drawn mix kind n + (if is_kind kind (gen mix n) then 1 else 0)

drawn-below :
    (mix : WorkloadMix) (kind : Workload) (n : ℕ)
    → IsFull mix
    → n ≤ 100
    → drawn mix kind n + min n (before mix kind) ≡ min n (before mix kind + share mix kind)
unfolding drawn
drawn-below mix kind zero full le = omega arith
drawn-below mix kind (suc n) full le =
    let lower = before mix kind in
    let upper = before mix kind + share mix kind in
    ground (arith, gen-kind mix kind n full, drawn-below mix kind n full)

share_fits :
    (mix : WorkloadMix) (kind : Workload) → IsFull mix → before mix kind + share mix kind ≤ 100
share_fits mix new_orders full = omega arith
share_fits mix payments full = omega arith
share_fits mix order_statuses full = omega arith
share_fits mix deliveries full = omega arith
share_fits mix stock_levels full = omega arith

some_kind :
    (mix : WorkloadMix) (w : ℕ) → IsFull mix → w < 100 → (kind : Workload) × (gen mix w ≡ some kind)
unfolding gen
some_kind mix w full lt = elim (Option-cases (gen mix w)) [
  | inl panics ↦ ground arith
  | inr found ↦ found
]

-- The shares of a mix add up to 100. Then each kind of transaction is the outcome of exactly as
-- many of the 100 draws as its share says, and no draw panics.
pub drawn-share :
    (mix : WorkloadMix)
    → IsFull mix
    → ((kind : Workload) → drawn mix kind 100 ≡ share mix kind)
      × ((w : ℕ) → w < 100 → (kind : Workload) × (gen mix w ≡ some kind))
drawn-share mix full = (
  λ kind. omega (arith, drawn-below mix kind 100 full (omega arith), share_fits mix kind full),
  λ w lt. some_kind mix w full lt,
)
