-- ===== src/Tpcc/NewOrder.antt =====
-- The transaction `new_order` of src/benchmark/src/tpcc/query/new_order.rs. A table is a map from keys
-- to rows, which is what its theorems say of it; a row has the fields that the transaction changes
-- or copies. Amounts of money and strings are of types that are parameters.

pub mod Stocks
pub mod Effects
pub mod Aborts
use alchemy.Base.{
  ℕ, zero, suc, ◌+◌, ◌-◌, ◌%◌, ◌^◌, ◌≡◌, Bool, true, false, not, ◌&&◌, Option, none, some, is_some,
  Result, ok, err, List, [], ◌∷◌, length, put, ltb, leb, ◌==◌, if◌then◌else◌,
}
use alchemy.Rid.{TransactionError, index_not_found, user_abort}
use alchemy.Tpcc.Keys.{
  word_size, add64, district_key, customer_key, new_order_key, order_key, order_line_key, item_key,
  stock_key,
}

pub record Stock (Info : Type 0) : Type 0 where
  pub s_quantity : ℕ
  pub s_ytd : ℕ
  pub s_order_cnt : ℕ
  pub s_remote_cnt : ℕ
  pub s_dist10 : Info

pub record Order : Type 0 where
  pub o_id : ℕ
  pub o_c_id : ℕ
  pub o_d_id : ℕ
  pub o_carrier_id : ℕ
  pub o_entry_d : ℕ
  pub o_w_id : ℕ
  pub o_ol_cnt : ℕ
  pub o_all_local : Bool

pub record OrderLine (Money Info : Type 0) : Type 0 where
  pub ol_o_id : ℕ
  pub ol_d_id : ℕ
  pub ol_w_id : ℕ
  pub ol_i_id : ℕ
  pub ol_supply_w_id : ℕ
  pub ol_number : ℕ
  pub ol_quantity : ℕ
  pub ol_delivery_d : ℕ
  pub ol_amount : Money
  pub ol_dist_info : Info

-- The tables. Of a warehouse and of a customer only the presence matters, of a district the number of the
-- next order, of an item the price.
pub record Db (Money Info : Type 0) : Type 0 where
  pub warehouse : ℕ → Bool
  pub district : ℕ → Option ℕ
  pub customer : ℕ → Bool
  pub item : ℕ → Option Money
  pub stock : ℕ → Option (Stock Info)
  pub new_orders : ℕ → Option ℕ
  pub order : ℕ → Option Order
  pub order_line : ℕ → Option (OrderLine Money Info)

pub record OrderItem : Type 0 where
  pub ol_i_id : ℕ
  pub ol_supply_w_id : ℕ
  pub ol_quantity : ℕ

-- `NewOrderInput`, with the first `ol_cnt` of its orders.
pub record NewOrderInput : Type 0 where
  pub w_id : ℕ
  pub d_id : ℕ
  pub c_id : ℕ
  pub orders : List OrderItem
  pub o_entry_d : ℕ
  pub all_local : Bool

-- Where the transaction takes a lock.
pub data Site : Type 0 where
  on_warehouse on_district on_customer : Site
  on_item on_stock : ℕ → Site

-- What a lock attempt answers: the key is looked up first, then the word is busy or not.
abbrev pub attempt : Bool → Option TransactionError → Option TransactionError
attempt false busy = some index_not_found
attempt true busy = busy

-- The attempts in the order of the code: the first error is the answer.
abbrev pub and_then : Option TransactionError → Option TransactionError → Option TransactionError
and_then none rest = rest
and_then (some e) rest = some e

-- An item that is not found is the abort of the user.
abbrev pub item_error : Option TransactionError → Option TransactionError
item_error (some index_not_found) = some user_abort
item_error other = other

module _ {Money Info : Type 0} (busy : Site → Option TransactionError) where
  -- The locks of the items and stocks of the orders from number `i` on.
  unfoldable pub lock_items : ℕ → List OrderItem → Db Money Info → Option TransactionError
  lock_items i [] db = none
  lock_items i (o ∷ orders) db =
      and_then (item_error (attempt (is_some (db.item (item_key o.ol_i_id))) (busy (on_item i)))) (
        and_then
          (attempt (is_some (db.stock (stock_key o.ol_supply_w_id o.ol_i_id))) (busy (on_stock i)))
          (lock_items (i + 1) orders db))

  -- Phase 1: nothing is changed.
  unfoldable pub acquire : NewOrderInput → Db Money Info → Option TransactionError
  acquire input db = and_then (attempt (db.warehouse input.w_id) (busy on_warehouse)) (
      and_then
        (attempt (is_some (db.district (district_key input.w_id input.d_id))) (busy on_district))
        (and_then
          (attempt (db.customer (customer_key input.w_id input.d_id input.c_id)) (busy on_customer))
          (lock_items 0 input.orders db)))

-- The new `s_quantity`: the test reads the difference as a signed word.
unfoldable pub take_quantity : (s_quantity ol_quantity : ℕ) → ℕ
take_quantity s_quantity ol_quantity =
    let difference = (s_quantity + word_size - ol_quantity) % word_size in
    if leb 10 difference && ltb difference (2 ^ 63)
    then difference
    else (difference + 91) % word_size

unfoldable pub update_stock : {Info : Type 0} → NewOrderInput → OrderItem → Stock Info → Stock Info
unfolding take_quantity
update_stock input o s = record s {
  s_quantity = take_quantity s.s_quantity o.ol_quantity;
  s_ytd = add64 s.s_ytd o.ol_quantity;
  s_order_cnt = add64 s.s_order_cnt 1;
  s_remote_cnt = if o.ol_supply_w_id == input.w_id then s.s_remote_cnt else add64 s.s_remote_cnt 1;
}

abbrev pub order_of : NewOrderInput → ℕ → Order
order_of input o_id = record {
  o_id = o_id;
  o_c_id = input.c_id;
  o_d_id = input.d_id;
  o_carrier_id = 0;
  o_entry_d = input.o_entry_d;
  o_w_id = input.w_id;
  o_ol_cnt = length input.orders;
  o_all_local = input.all_local;
}

module _ {Money Info : Type 0} (times : ℕ → Money → Money) where
  -- The loop over order number `i`, where the rows are those that the locks were taken on; a row that
  -- is not there would be a panic, and leaves the tables.
  abbrev pub line_of :
      NewOrderInput → (o_id i : ℕ) → OrderItem → Money → Info → OrderLine Money Info
  line_of input o_id i o price info = record {
    ol_o_id = o_id;
    ol_d_id = input.d_id;
    ol_w_id = input.w_id;
    ol_i_id = o.ol_i_id;
    ol_supply_w_id = o.ol_supply_w_id;
    ol_number = i;
    ol_quantity = o.ol_quantity;
    ol_delivery_d = 0;
    ol_amount = times o.ol_quantity price;
    ol_dist_info = info;
  }

  abbrev pub put_line :
      NewOrderInput
      → (o_id i : ℕ) → OrderItem
      → Option Money
      → Option (Stock Info)
      → Db Money Info
      → Db Money Info
  put_line input o_id i o (some price) (some s) db = record db {
    stock = put db.stock (stock_key o.ol_supply_w_id o.ol_i_id) (some (update_stock input o s));
    order_line =
        put db.order_line (order_line_key input.w_id input.d_id o_id o.ol_i_id)
          (some (line_of input o_id i o price s.s_dist10));
  }
  put_line input o_id i o _ _ db = db

  unfoldable pub put_lines :
      NewOrderInput → (o_id i : ℕ) → List OrderItem → Db Money Info → Db Money Info
  put_lines input o_id i [] db = db
  put_lines input o_id i (o ∷ orders) db = put_lines input o_id (i + 1) orders (
      put_line input o_id i o (db.item (item_key o.ol_i_id))
        (db.stock (stock_key o.ol_supply_w_id o.ol_i_id)) db)

  -- Phase 2, with the number of the next order.
  unfoldable pub modify : NewOrderInput → Option ℕ → Db Money Info → Db Money Info
  modify input none db = db
  modify input (some o_id) db =
      let key = new_order_key input.w_id input.d_id o_id input.c_id in
      put_lines input o_id 0 input.orders (record db {
        district = put db.district (district_key input.w_id input.d_id) (some (add64 o_id 1));
        new_orders = put db.new_orders key (some key);
        order =
            put db.order (order_key input.w_id input.d_id input.c_id o_id)
              (some (order_of input o_id));
      })

  abbrev pub finish :
      NewOrderInput
      → Option TransactionError
      → Db Money Info
      → Result (Unit {0}) TransactionError × Db Money Info
  finish input (some e) db = (err e, db)
  finish input none db = (ok tt, modify input (db.district (district_key input.w_id input.d_id)) db)

  unfoldable pub new_order :
      (busy : Site → Option TransactionError)
      → NewOrderInput
      → Db Money Info
      → Result (Unit {0}) TransactionError × Db Money Info
  new_order busy input db = finish input (acquire busy input db) db
