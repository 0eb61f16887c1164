-- ===== src/Tpcc/Results.antt =====
-- The results of a run, src/benchmark/src/tpcc/txn_result.rs, with the recorders of the metrics.
use alchemy.Base.{ℕ, ◌+◌, ◌%◌, ◌^◌, ◌≡◌, refl, Option, none, some, List, [], ◌∷◌, arith}
use alchemy.Metric.Recorder.{TlsRecorder, add_recorders}
use alchemy.Tpcc.Keys.{add64}

pub record TransactionResult : Type 0 where
  pub commit : ℕ
  pub abort : ℕ

unfoldable pub no_result : TransactionResult
no_result = record { commit = 0; abort = 0 }

unfoldable pub inc_commit : TransactionResult → TransactionResult
inc_commit r = record r { commit = add64 r.commit 1 }

unfoldable pub inc_abort : TransactionResult → TransactionResult
inc_abort r = record r { abort = add64 r.abort 1 }

-- `+=`, of which `+` is the value.
unfoldable pub add_result : TransactionResult → TransactionResult → TransactionResult
add_result a b = record { commit = add64 a.commit b.commit; abort = add64 a.abort b.abort }

pub record TpccResults : Type 0 where
  pub payment : TransactionResult
  pub new_order : TransactionResult
  pub order_status : TransactionResult
  pub delivery : TransactionResult
  pub stock_level : TransactionResult
  pub metrics : Option TlsRecorder

unfoldable pub new_results : TpccResults
new_results = record {
  payment = no_result;
  new_order = no_result;
  order_status = no_result;
  delivery = no_result;
  stock_level = no_result;
  metrics = none;
}

unfoldable pub set_metric : TlsRecorder → TpccResults → TpccResults
set_metric metric r = record r { metrics = some metric }

-- The metrics of the sum: those of the second are added, or taken where the first has none.
abbrev pub add_metrics : Option TlsRecorder → Option TlsRecorder → Option TlsRecorder
add_metrics a none = a
add_metrics (some m) (some v) = some (add_recorders m v)
add_metrics none (some v) = some v

unfoldable pub add_results : TpccResults → TpccResults → TpccResults
add_results a b = record {
  payment = add_result a.payment b.payment;
  new_order = add_result a.new_order b.new_order;
  order_status = add_result a.order_status b.order_status;
  delivery = add_result a.delivery b.delivery;
  stock_level = add_result a.stock_level b.stock_level;
  metrics = add_metrics a.metrics b.metrics;
}

-- The fold of `sum`.
unfoldable pub sum_results : TpccResults → List TpccResults → TpccResults
sum_results h [] = h
sum_results h (v ∷ results) = sum_results (add_results h v) results

unfoldable pub short_value : TpccResults → ℕ
short_value r =
    add64
      (add64 (add64 (add64 r.new_order.commit r.payment.commit) r.order_status.commit)
        r.delivery.commit)
      r.stock_level.commit

short_value-add_results :
    (a b : TpccResults) → short_value (add_results a b) ≡ add64 (short_value a) (short_value b)
unfolding short_value add_results add_result
short_value-add_results a b = omega arith

-- The values of the results, added up.
unfoldable pub total_value : List TpccResults → ℕ
total_value [] = 0
total_value (v ∷ results) = short_value v + total_value results

short_value-from :
    (h : TpccResults) (results : List TpccResults)
    → short_value (sum_results h results) % 2 ^ 64 ≡ (short_value h + total_value results) % 2 ^ 64
unfolding sum_results total_value
short_value-from h [] = omega arith
short_value-from h (v ∷ results) =
    omega (arith, short_value-from (add_results h v) results, short_value-add_results h v)

short_value-new : short_value new_results ≡ 0
unfolding short_value new_results no_result
short_value-new = refl

-- The commits that are reported for the sum of the results of all threads are those of the threads, added
-- up, as 64-bit words.
pub short_value-sum_results :
    (results : List TpccResults)
    → short_value (sum_results new_results results) % 2 ^ 64 ≡ total_value results % 2 ^ 64
short_value-sum_results results =
    omega (arith, short_value-from new_results results, short_value-new)
