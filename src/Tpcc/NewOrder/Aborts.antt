-- ===== src/Tpcc/NewOrder/Aborts.antt =====
-- When `new_order` (src/benchmark/src/tpcc/query/new_order.rs) succeeds and when the user aborts it.
use alchemy.Base.{
  ℕ, ◌+◌, ◌≡◌, ◌⊎◌, inl, inr, refl, Bool, true, false, ◌&&◌, Option, none, some, is_some, ok, err,
  List, [], ◌∷◌, if◌then◌else◌, Bool-cases,
}
use alchemy.Rid.{TransactionError, user_abort}
use alchemy.Tpcc.Keys.{district_key, customer_key, item_key, stock_key}
use alchemy.Tpcc.NewOrder.{
  Db, OrderItem, NewOrderInput, Site, on_warehouse, on_district, on_customer, on_item, on_stock,
  lock_items, acquire, new_order,
}

and_both : (a b : Bool) → (a && b) ≡ true → (a ≡ true) × (b ≡ true)
and_both true b e = (refl, e)
and_both false b e = cc (e)

module _ {Money Info : Type 0} where
  -- Every order is for an item that is there.
  abbrev pub has_items : List OrderItem → Db Money Info → Bool
  has_items [] db = true
  has_items (o ∷ orders) db = is_some (db.item (item_key o.ol_i_id)) && has_items orders db

  -- Every item of the orders that is there has its stock.
  abbrev pub has_stocks : List OrderItem → Db Money Info → Bool
  has_stocks [] db = true
  has_stocks (o ∷ orders) db =
      (if is_some (db.item (item_key o.ol_i_id))
        then is_some (db.stock (stock_key o.ol_supply_w_id o.ol_i_id))
        else true)
      && has_stocks orders db

  module _ (busy : Site → Option TransactionError) (free : (site : Site) → busy site ≡ none) where
    lock_items-free :
        (i : ℕ) (orders : List OrderItem) (db : Db Money Info)
        → has_stocks orders db ≡ true
        → lock_items busy i orders db ≡ (if has_items orders db then none else some user_abort)
    unfolding lock_items
    lock_items-free i [] db h = refl
    lock_items-free i (o ∷ orders) db h =
        elim (Bool-cases (is_some (db.item (item_key o.ol_i_id)))) [
          | inl there ↦
              let both : (is_some (db.stock (stock_key o.ol_supply_w_id o.ol_i_id))
                    && has_stocks orders db)
                  ≡ true =
                rw there at h in
              let (stock, stocks) =
                and_both (is_some (db.stock (stock_key o.ol_supply_w_id o.ol_i_id)))
                  (has_stocks orders db) both in
              rw (there, free (on_item i), stock, free (on_stock i))
                (lock_items-free (i + 1) orders db stocks)
          | inr missing ↦ rw missing refl
        ]

    acquire-free :
        (input : NewOrderInput) (db : Db Money Info)
        → db.warehouse input.w_id ≡ true
        → is_some (db.district (district_key input.w_id input.d_id)) ≡ true
        → db.customer (customer_key input.w_id input.d_id input.c_id) ≡ true
        → has_stocks input.orders db ≡ true
        → acquire busy input db ≡ (if has_items input.orders db then none else some user_abort)
    unfolding acquire
    acquire-free input db warehouse district customer stocks =
        rw (warehouse, district, customer, free on_warehouse, free on_district, free on_customer)
          (lock_items-free 0 input.orders db stocks)

    -- The warehouse, the district, the customer and the stocks of the items are there, and no lock is busy. Then
    -- `new_order` succeeds exactly if every item of its orders is there. If one is not, wherever it stands among
    -- them, the answer is the abort of the user, and no table is changed.
    pub new_order-aborts :
        (times : ℕ → Money → Money) (input : NewOrderInput) (db : Db Money Info)
        → db.warehouse input.w_id ≡ true
        → is_some (db.district (district_key input.w_id input.d_id)) ≡ true
        → db.customer (customer_key input.w_id input.d_id input.c_id) ≡ true
        → has_stocks input.orders db ≡ true
        → ((has_items input.orders db ≡ true) × ((new_order times busy input db).0 ≡ ok tt))
          ⊎ ((has_items input.orders db ≡ false)
              × (new_order times busy input db ≡ (err user_abort, db)))
    unfolding new_order
    new_order-aborts times input db warehouse district customer stocks =
        let locked = acquire-free input db warehouse district customer stocks in
        elim (Bool-cases (has_items input.orders db)) [
          | inl all ↦ inl (all, rw (locked, all) refl)
          | inr missing ↦ inr (missing, rw (locked, missing) refl)
        ]
