-- ===== src/Tpcc/Delivery.antt =====
-- The transaction `delivery` of src/benchmark/src/tpcc/query/delivery.rs. The tables of orders and customers
-- are maps from keys to rows, with the fields that the transaction reads or changes; the rows of order
-- lines are found by record id. What the index of new orders and that of order lines answer to a
-- range scan are parameters; this transaction does not change the second one.
pub mod Delivers
pub mod Orders
pub mod Districts
pub mod Removes
use alchemy.Base.{
  ℕ, zero, suc, ◌+◌, ◌-◌, ◌%◌, ◌^◌, ◌≡◌, Bool, true, false, Option, none, some, is_some, Result, ok,
  err, List, [], ◌∷◌, put, ◌==◌, if◌then◌else◌,
}
use alchemy.Rid.{TransactionError}
use alchemy.Tpcc.Keys.{customer_key, new_order_key, order_key, order_line_key, o_c_id_from_key}
use alchemy.Tpcc.NewOrder.{Order, OrderLine, attempt}

abbrev pub district_scale : ℕ
district_scale = 10

abbrev pub item_scale : ℕ
item_scale = 100000

pub record Customer (Money : Type 0) : Type 0 where
  pub c_balance : Money
  pub c_delivery_cnt : ℕ

pub record Db (Money Info : Type 0) : Type 0 where
  pub new_order : ℕ → Option ℕ
  pub order : ℕ → Option Order
  pub order_line : ℕ → Option (OrderLine Money Info)
  pub customer : ℕ → Option (Customer Money)

-- `DeliveryInput`.
pub record DeliveryInput : Type 0 where
  pub w_id : ℕ
  pub o_carrier_id : ℕ

-- Where the transaction takes a lock, in which district.
pub data Site : Type 0 where
  on_order on_customer : ℕ → Site
  on_line : (d_id rid : ℕ) → Site

-- How the transaction stops short: an error that it returns, or a panic.
pub data Stop : Type 0 where
  failed : TransactionError → Stop
  panicked : Stop

abbrev pub Outcome : (Money Info A : Type 0) → Type 0
Outcome Money Info A = Result A Stop × Db Money Info

module _ {Money Info : Type 0} where
  -- The steps in the order of the code: what was changed before an error stays.
  unfoldable pub and_then :
      {A B : Type 0}
      → Outcome Money Info A
      → (A → Db Money Info → Outcome Money Info B)
      → Outcome Money Info B
  and_then (err e, db) f = (err e, db)
  and_then (ok a, db) f = f a db

  -- A lock on a row.
  unfoldable pub locked : Option TransactionError → Db Money Info → Outcome Money Info (Unit {0})
  locked (some e) db = (err (failed e), db)
  locked none db = (ok tt, db)

  -- A row that is there; a missing one is a panic.
  unfoldable pub row : {A : Type 0} → Option A → Db Money Info → Outcome Money Info A
  row none db = (err panicked, db)
  row (some a) db = (ok a, db)

  -- `assert_eq!`.
  unfoldable pub asserted : Bool → Db Money Info → Outcome Money Info (Unit {0})
  asserted true db = (ok tt, db)
  asserted false db = (err panicked, db)

  module _ (oldest : (ℕ → Option ℕ) → (low high : ℕ) → Option ℕ)
      (lines : (low high : ℕ) → Option (List ℕ)) (nothing : Money) (plus : Money → Money → Money)
      (delivery_time : ℕ) (busy : Site → Option TransactionError) (input : DeliveryInput) where
    -- The loop over the record ids of the order lines, with the sum of the amounts so far.
    unfoldable pub deliver_lines :
        (d_id : ℕ) → List ℕ → Money → Db Money Info → Outcome Money Info Money
    deliver_lines d_id [] ol_amount_sum db = (ok ol_amount_sum, db)
    deliver_lines d_id (r ∷ rids) ol_amount_sum db =
        and_then (locked (busy (on_line d_id r)) db) (λ _ db1.
          and_then (row (db1.order_line r) db1) (λ l db2.
            deliver_lines d_id rids (plus ol_amount_sum l.ol_amount) (record db2 {
              order_line = put db2.order_line r (some (record l { ol_delivery_d = delivery_time }));
            })))

    -- The customer of the order.
    unfoldable pub deliver_customer :
        (d_id o_c_id : ℕ) → Money → Db Money Info → Outcome Money Info (Unit {0})
    deliver_customer d_id o_c_id ol_amount_sum db =
        let c_key = customer_key input.w_id d_id o_c_id in
        and_then (locked (attempt (is_some (db.customer c_key)) (busy (on_customer d_id))) db)
          (λ _ db1. and_then (row (db1.customer c_key) db1) (λ c db2. (
            ok tt,
            record db2 {
              customer = put db2.customer c_key (
                  some (record {
                    c_balance = plus c.c_balance ol_amount_sum;
                    c_delivery_cnt = (c.c_delivery_cnt + 1) % 2 ^ 32;
                  }));
            },
          )))

    -- The order of a new order, after that was removed.
    unfoldable pub deliver_order :
        (d_id o_id c_id : ℕ) → Db Money Info → Outcome Money Info (Unit {0})
    deliver_order d_id o_id c_id db =
        let o_key = order_key input.w_id d_id c_id o_id in
        and_then (locked (attempt (is_some (db.order o_key)) (busy (on_order d_id))) db) (λ _ db1.
          and_then (row (db1.order o_key) db1) (λ o db2.
            let db3 = record db2 {
              order = put db2.order o_key (some (record o { o_carrier_id = input.o_carrier_id }));
            } in
            and_then (asserted (o.o_c_id == c_id) db3) (λ _ db4.
              and_then
                (row
                  (lines (order_line_key input.w_id d_id o_id 0)
                    (order_line_key input.w_id d_id o_id item_scale))
                  db4)
                (λ rids db5.
                  and_then (deliver_lines d_id rids nothing db5)
                    (deliver_customer d_id o.o_c_id)))))

    -- One district: false if it has no new order, which ends the transaction.
    unfoldable pub deliver_found : (d_id : ℕ) → Option ℕ → Db Money Info → Outcome Money Info Bool
    deliver_found d_id none db = (ok false, db)
    deliver_found d_id (some key) db =
        let (o_id, c_id) = o_c_id_from_key key in
        and_then
          (deliver_order d_id o_id c_id (record db { new_order = put db.new_order key none }))
          (λ _ db1. (ok true, db1))

    abbrev pub deliver_district : (d_id : ℕ) → Db Money Info → Outcome Money Info Bool
    deliver_district d_id db =
        deliver_found d_id
          (oldest db.new_order (new_order_key input.w_id d_id 0 0)
            (new_order_key input.w_id d_id (2 ^ 16 - 1) (2 ^ 16 - 1)))
          db

    -- The `n` districts from `d_id` on.
    unfoldable pub deliver_districts : (n d_id : ℕ) → Db Money Info → Outcome Money Info (Unit {0})
    deliver_districts zero d_id db = (ok tt, db)
    deliver_districts (suc n) d_id db = and_then (deliver_district d_id db) (λ found db1.
        let rest = deliver_districts n (d_id + 1) db1 in if found then rest else (ok tt, db1))

    unfoldable pub delivery : Db Money Info → Outcome Money Info (Unit {0})
    delivery db = deliver_districts district_scale 0 db
