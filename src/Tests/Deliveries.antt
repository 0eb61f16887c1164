-- ===== src/Tests/Deliveries.antt =====
-- The transaction `delivery` at concrete inputs.
use alchemy.Base.{
  ℕ, ◌+◌, ◌*◌, ◌^◌, ◌≡◌, refl, true, Option, none, some, is_some, ok, err, List, [], ◌∷◌, put, ◌==◌,
  ◌&&◌, leb, ltb, if◌then◌else◌,
}
use alchemy.Rid.{TransactionError, write_lock_busy}
use alchemy.Tpcc.Keys.{customer_key, new_order_key, order_key, order_line_key, o_c_id_from_key}
use alchemy.Tpcc.NewOrder.{Order, OrderLine}
use alchemy.Tpcc.Delivery.{
  Db, DeliveryInput, Site, on_order, failed, and_then, locked, row, asserted, deliver_lines,
  deliver_customer, deliver_order, deliver_found, deliver_districts, delivery,
}
use alchemy.Tpcc.Delivery.Orders.{Fulfilled, deliver_order-ok}
use alchemy.Tpcc.Delivery.Districts.{AllDelivered, found_keys, without, delivery-ok}
use alchemy.Tpcc.Delivery.Removes.{deliver_found-removes}

-- Order 3001 of customer 5 in district 0 of warehouse 1, with one line.
abbrev key : ℕ
key = 2 ^ 48 + 3001 * 2 ^ 16 + 5

abbrev order : ℕ → Order
order o_carrier_id = record {
  o_id = 3001;
  o_c_id = 5;
  o_d_id = 0;
  o_carrier_id = o_carrier_id;
  o_entry_d = 77;
  o_w_id = 1;
  o_ol_cnt = 1;
  o_all_local = true;
}

abbrev line : ℕ → OrderLine ℕ ℕ
line ol_delivery_d = record {
  ol_o_id = 3001;
  ol_d_id = 0;
  ol_w_id = 1;
  ol_i_id = 8;
  ol_supply_w_id = 1;
  ol_number = 0;
  ol_quantity = 3;
  ol_delivery_d = ol_delivery_d;
  ol_amount = 300;
  ol_dist_info = 6;
}

abbrev db : Db ℕ ℕ
db = record {
  new_order = λ k. if k == key then some key else none;
  order = λ k. if k == 2 ^ 48 + 5 * 2 ^ 16 + 3001 then some (order 0) else none;
  order_line = λ r. if r == 7 then some (line 0) else none;
  customer =
      λ k. if k == 2 ^ 48 + 5 then some (record { c_balance = 40; c_delivery_cnt = 2 }) else none;
}

-- The index of new orders holds no other key.
abbrev oldest : (ℕ → Option ℕ) → (low high : ℕ) → Option ℕ
oldest new_orders low high =
    if is_some (new_orders key) && leb low key && ltb key high then some key else none

-- The record ids of the lines.
abbrev lines : (low high : ℕ) → Option (List ℕ)
lines low high = some (7 ∷ [])

abbrev free : Site → Option TransactionError
free _ = none

abbrev input : DeliveryInput
input = record { w_id = 1; o_carrier_id = 9 }

abbrev one_less : Db ℕ ℕ
one_less = (deliver_order oldest lines 0 ◌+◌ 1000 free input 0 3001 5 db).1

delivers_order : deliver_order oldest lines 0 ◌+◌ 1000 free input 0 3001 5 db ≡ (ok tt, one_less)
unfolding deliver_order deliver_lines deliver_customer and_then locked row asserted order_key
    customer_key order_line_key
delivers_order = refl

deliver_order-ok_example : Fulfilled oldest lines 0 ◌+◌ 1000 free input 0 3001 5 db one_less
deliver_order-ok_example =
    deliver_order-ok oldest lines 0 ◌+◌ 1000 free input 0 3001 5 db one_less delivers_order

abbrev all_delivered : Db ℕ ℕ
all_delivered = (delivery oldest lines 0 ◌+◌ 1000 free input db).1

-- The transaction ends in district 1, which has no new order.
delivers : delivery oldest lines 0 ◌+◌ 1000 free input db ≡ (ok tt, all_delivered)
unfolding delivery deliver_districts deliver_found deliver_order deliver_lines deliver_customer
    and_then locked row asserted order_key customer_key order_line_key new_order_key o_c_id_from_key
delivers = refl

delivery-ok_example :
    (all_delivered.new_order ≡ without (found_keys oldest 1 10 0 db.new_order) db.new_order)
    × AllDelivered oldest lines 0 ◌+◌ 1000 free input
        (found_keys oldest 1 10 0 db.new_order)
        all_delivered
delivery-ok_example = delivery-ok oldest lines 0 ◌+◌ 1000 free input db all_delivered delivers

one_found : found_keys oldest 1 10 0 db.new_order ≡ (0, key) ∷ []
unfolding found_keys new_order_key
one_found = refl

-- Another transaction holds the order.
abbrev held : Site → Option TransactionError
held (on_order d_id) = some write_lock_busy
held other = none

fails : (delivery oldest lines 0 ◌+◌ 1000 held input db).0 ≡ err (failed write_lock_busy)
unfolding delivery deliver_districts deliver_found deliver_order and_then locked order_key
    new_order_key o_c_id_from_key
fails = refl

deliver_found-removes_example :
    (deliver_found oldest lines 0 ◌+◌ 1000 held input 0 (some key) db).1.new_order
    ≡ put db.new_order key none
deliver_found-removes_example = deliver_found-removes oldest lines 0 ◌+◌ 1000 held input 0 key db
