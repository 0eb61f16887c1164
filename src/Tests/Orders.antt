-- ===== src/Tests/Orders.antt =====
-- The TPC-C benchmark at concrete inputs.
use alchemy.Base.{
  length, get_or, List, ℕ, ◌+◌, ◌*◌, ◌^◌, ◌≡◌, ◌≤◌, ◌<◌, ◌⊎◌, refl, arith, true, false, is_some,
  Option, none, some, ok, err, [], ◌∷◌, ◌==◌, if◌then◌else◌,
}
use alchemy.Rid.{TransactionError, user_abort}
use alchemy.Tpcc.Keys.{
  add64, district_key, customer_key, new_order_key, order_key, item_key, stock_key, o_c_id_from_key,
  o_c_id_from_key-new_order_key, LineFields, order_line_key-injective,
}
use alchemy.Tpcc.NewOrder.{
  Stock, Db, NewOrderInput, Site, acquire, lock_items, order_of, new_order, take_quantity,
}
use alchemy.Tpcc.NewOrder.Stocks.{Sold, take_quantity-bounds}
use alchemy.Tpcc.NewOrder.Effects.{new_order-ok}
use alchemy.Tpcc.NewOrder.Aborts.{has_items, has_stocks, new_order-aborts}
use alchemy.Tpcc.Mix.{WorkloadMix, Workload, gen, drawn, share, drawn-share}
use alchemy.Tpcc.Names.{
  syllable, syllables, copy_from, copy_bytes, last_name_gen, last_name_gen-syllable,
}

take_quantity-bounds_example :
    (10 ≤ take_quantity 12 5)
    × (take_quantity 12 5 ≤ 100)
    × ((take_quantity 12 5 + 5 ≡ 12) ⊎ ((take_quantity 12 5 + 5 ≡ 12 + 91) × (12 < 5 + 10)))
take_quantity-bounds_example =
    take_quantity-bounds 12 5 (omega arith) (omega arith) (omega arith) (omega arith)

o_c_id_from_key-new_order_key_example : o_c_id_from_key (new_order_key 3 7 3001 42) ≡ (3001, 42)
o_c_id_from_key-new_order_key_example =
    o_c_id_from_key-new_order_key 3 7 3001 42 (omega arith) (omega arith)

line_fields : LineFields 3 7 3001 99999
line_fields = (omega arith, omega arith, omega arith, omega arith)

abbrev line_numbers : ℕ × ℕ
line_numbers = (3001, 99999)

order_line_key-injective_example :
    (◌≡◌ {A = ℕ} 3 3) × (◌≡◌ {A = ℕ} 7 7) × (line_numbers.0 ≡ 3001) × (line_numbers.1 ≡ 99999)
order_line_key-injective_example =
    order_line_key-injective 3 7 line_numbers.0 line_numbers.1 3 7 3001 99999 line_fields
      line_fields refl

-- Half new orders, half payments.
abbrev halves : WorkloadMix
halves = record { new_order = 50; payment = 50; order_status = 0; delivery = 0; stock_level = 0 }

drawn-share_example :
    ((kind : Workload) → drawn halves kind 100 ≡ share halves kind)
    × ((w : ℕ) → w < 100 → (kind : Workload) × (gen halves w ≡ some kind))
drawn-share_example = drawn-share halves refl

-- Warehouse 1 with one district, one customer, and item 8.
abbrev shop : Db ℕ ℕ
shop = record {
  warehouse = λ k. k == 1;
  district = λ k. if k == 2 ^ 48 + 2 then some 3001 else none;
  customer = λ k. k == 2 ^ 48 + 2 * 2 ^ 32 + 5;
  item = λ k. if k == 8 then some 100 else none;
  stock = λ k.
      if k == 2 ^ 32 + 8
      then some
          (record { s_quantity = 12; s_ytd = 0; s_order_cnt = 0; s_remote_cnt = 0; s_dist10 = 6 })
      else none;
  new_orders = λ _. none;
  order = λ _. none;
  order_line = λ _. none;
}

abbrev free : Site → Option TransactionError
free _ = none

abbrev input_of : ℕ → NewOrderInput
input_of i_id = record {
  w_id = 1;
  d_id = 2;
  c_id = 5;
  orders = record { ol_i_id = i_id; ol_supply_w_id = 1; ol_quantity = 5 } ∷ [];
  o_entry_d = 77;
  all_local = true;
}

abbrev sold : Db ℕ ℕ
sold = (new_order ◌*◌ free (input_of 8) shop).1

sells : new_order ◌*◌ free (input_of 8) shop ≡ (ok tt, sold)
unfolding new_order acquire lock_items district_key customer_key item_key stock_key
sells = refl

new_order-ok_example :
    (o_id : ℕ) × (shop.district (district_key 1 2) ≡ some o_id)
    × (sold.district (district_key 1 2) ≡ some (add64 o_id 1))
    × (sold.new_orders (new_order_key 1 2 o_id 5) ≡ some (new_order_key 1 2 o_id 5))
    × (sold.order (order_key 1 2 5 o_id) ≡ some (order_of (input_of 8) o_id))
    × ((k : ℕ) (s : Stock ℕ)
        → shop.stock k ≡ some s
        → (s' : Stock ℕ) × (sold.stock k ≡ some s') × Sold k (input_of 8).orders s s')
new_order-ok_example = new_order-ok ◌*◌ free (input_of 8) shop sold sells

-- Item 9 is the unused one, ordered after item 8.
abbrev unused_input : NewOrderInput
unused_input = record (input_of 8) {
  orders =
      record { ol_i_id = 8; ol_supply_w_id = 1; ol_quantity = 5 }
      ∷ (record { ol_i_id = 9; ol_supply_w_id = 1; ol_quantity = 5 } ∷ []);
}

unused_present :
    (shop.warehouse 1 ≡ true)
    × (is_some (shop.district (district_key 1 2)) ≡ true)
    × (shop.customer (customer_key 1 2 5) ≡ true)
    × (has_stocks unused_input.orders shop ≡ true)
unfolding district_key customer_key item_key stock_key
unused_present = (refl, refl, refl, refl)

new_order-aborts_example :
    ((has_items unused_input.orders shop ≡ true)
      × ((new_order ◌*◌ free unused_input shop).0 ≡ ok tt))
    ⊎ ((has_items unused_input.orders shop ≡ false)
        × (new_order ◌*◌ free unused_input shop ≡ (err user_abort, shop)))
new_order-aborts_example =
    new_order-aborts free (λ site. refl) ◌*◌ unused_input shop unused_present.0 unused_present.1
      unused_present.2 unused_present.3

-- OUGHT, CALLY and PRI are copied over each other: the bytes that are left read PRILY.
name_of_371 :
    last_name_gen 371
    ≡ some (
        80
        ∷ (82
            ∷ (73
                ∷ (76
                    ∷ (89
                        ∷ (0 ∷ (0 ∷ (0 ∷ (0 ∷ (0 ∷ (0 ∷ (0 ∷ (0 ∷ (0 ∷ (0 ∷ (0 ∷ []))))))))))))))))
unfolding last_name_gen syllables copy_from copy_bytes
name_of_371 = refl

last_name_gen-syllable_example :
    (name : List ℕ) × (last_name_gen 371 ≡ some name)
    × (length name ≡ 16)
    × ((i : ℕ) → i < length (syllable 3) → get_or name i 0 ≡ get_or (syllable 3) i 0)
last_name_gen-syllable_example = last_name_gen-syllable 371
