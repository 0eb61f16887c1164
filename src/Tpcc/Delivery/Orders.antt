-- ===== src/Tpcc/Delivery/Orders.antt =====
-- The orders that `delivery` (src/benchmark/src/tpcc/query/delivery.rs) delivers when it succeeds.
use mathlib.Core.Path.{subst}
use alchemy.Base.{
  ℕ, ◌+◌, ◌%◌, ◌^◌, ◌≡◌, refl, Option, none, some, ok, List, put, put-self, ==_iff, ap, sym, ◌∙◌,
}
use alchemy.Rid.{TransactionError}
use alchemy.Tpcc.Keys.{customer_key, order_key, order_line_key}
use alchemy.Tpcc.NewOrder.{Order}
use alchemy.Tpcc.Delivery.{
  Customer, Db, DeliveryInput, Site, item_scale, deliver_customer, deliver_order,
}
use alchemy.Tpcc.Delivery.Delivers.{
  after_locked, after_row, after_assert, after, put-keeps, Dated, AllDated, AllDated-kept, Carried,
  total, deliver_lines-ok,
}

-- A customer with an order delivered.
abbrev pub paid :
    {Money : Type 0} → (Money → Money → Money) → Money → Customer Money → Customer Money
paid plus sum c = record {
  c_balance = plus c.c_balance sum;
  c_delivery_cnt = (c.c_delivery_cnt + 1) % 2 ^ 32;
}

abbrev customer_of : Option Order → ℕ
customer_of none = 0
customer_of (some o) = o.o_c_id

module _ {Money Info : Type 0} (oldest : (ℕ → Option ℕ) → (low high : ℕ) → Option ℕ)
    (lines : (low high : ℕ) → Option (List ℕ)) (nothing : Money) (plus : Money → Money → Money)
    (delivery_time : ℕ) (busy : Site → Option TransactionError) (input : DeliveryInput) where
  -- What is delivered stays delivered.
  abbrev pub Keeps : Db Money Info → Db Money Info → Type 0
  Keeps db db' =
      ((key c_id : ℕ)
        → Carried input.o_carrier_id c_id (db.order key)
        → Carried input.o_carrier_id c_id (db'.order key))
      × ((r : ℕ) → Dated delivery_time (db.order_line r) → Dated delivery_time (db'.order_line r))

  -- The row of the order of a new order, the record ids of its lines, and the customer's row.
  abbrev pub Fulfilled : (d_id o_id c_id : ℕ) → Db Money Info → Db Money Info → Type 0
  Fulfilled d_id o_id c_id db db' =
      ((o : Order) × (db.order (order_key input.w_id d_id c_id o_id) ≡ some o)
        × (o.o_c_id ≡ c_id)
        × (db'.order (order_key input.w_id d_id c_id o_id)
            ≡ some (record o { o_carrier_id = input.o_carrier_id })))
      × ((rids : List ℕ) × (lines (order_line_key input.w_id d_id o_id 0)
              (order_line_key input.w_id d_id o_id item_scale)
            ≡ some rids)
          × AllDated delivery_time rids db'
          × (c : Customer Money) × (db.customer (customer_key input.w_id d_id c_id) ≡ some c)
          × (db'.customer (customer_key input.w_id d_id c_id)
              ≡ some (paid plus (total plus nothing db.order_line rids nothing) c)))

  deliver_customer-ok :
      (d_id c_id : ℕ) (sum : Money) (db db' : Db Money Info)
      → deliver_customer oldest lines nothing plus delivery_time busy input d_id c_id sum db
        ≡ (ok tt, db')
      → (c : Customer Money) × (db.customer (customer_key input.w_id d_id c_id) ≡ some c)
        × (record db {
          customer = put db.customer (customer_key input.w_id d_id c_id) (some (paid plus sum c));
        }
            ≡ db')
  unfolding deliver_customer
  deliver_customer-ok d_id c_id sum db db' h =
      let (c, there, e) = after_row _ _ _ _ _ (after_locked _ _ _ _ _ h) in
      (c, there, ap (λ x. x.1) e)

  pub deliver_order-all :
      (d_id o_id c_id : ℕ) (db db' : Db Money Info)
      → deliver_order oldest lines nothing plus delivery_time busy input d_id o_id c_id db
        ≡ (ok tt, db')
      → Fulfilled d_id o_id c_id db db' × Keeps db db' × (db'.new_order ≡ db.new_order)
  unfolding deliver_order
  deliver_order-all d_id o_id c_id db db' h =
      let key = order_key input.w_id d_id c_id o_id in
      let (o, there, h1) = after_row _ _ _ _ _ (after_locked _ _ _ _ _ h) in
      let (same, h2) = after_assert _ _ _ _ _ h1 in
      let (rids, ids, h3) = after_row _ _ _ _ _ h2 in
      let (sum, db1, lined, h4) = after _ _ _ _ h3 in
      let ((n, os, cs, amounts, kept), all, sums) =
        deliver_lines-ok oldest lines nothing plus delivery_time busy input d_id rids nothing sum _
          db1 lined in
      let (c, customer, e) = deliver_customer-ok d_id o.o_c_id sum db1 db' h4 in
      let c_same : o.o_c_id ≡ c_id = (==_iff o.o_c_id c_id).0 same in
      let c_key = customer_key input.w_id d_id o.o_c_id in
      let new = some (paid plus sum c) in
      subst (λ x. Fulfilled d_id o_id c_id db x × Keeps db x × (x.new_order ≡ db.new_order)) e
        (
          (
            (
              o,
              there,
              c_same,
              ap (λ f. f key) os
                  ∙ put-self (λ x. x ≡ some (record o { o_carrier_id = input.o_carrier_id }))
                      db.order key refl,
            ),
            (
              rids,
              ids,
              AllDated-kept delivery_time rids db1
                  (record db1 { customer = put db1.customer c_key new }) (λ r old. old) all,
              c,
              ap (λ x. db.customer (customer_key input.w_id d_id x)) (sym c_same)
                  ∙ ap (λ f. f c_key) (sym cs)
                  ∙ customer,
              ap (λ x. put db1.customer c_key new (customer_key input.w_id d_id x)) (sym c_same)
                  ∙ put-self (λ x. x ≡ new) db1.customer c_key refl
                  ∙ ap (λ x. some (paid plus x c)) sums,
            ),
          ),
          (
            λ k c' old.
                let (o', row', carried, c_id') = old in
                subst (λ f. Carried input.o_carrier_id c' (f k)) (sym os)
                  (put-keeps (Carried input.o_carrier_id c') db.order key k _
                    (λ at.
                      (_, refl, refl, ap customer_of (sym there ∙ ap db.order at ∙ row') ∙ c_id'))
                    old),
            kept,
          ),
          n,
        )

  -- An order that is delivered is there, and of the customer of the new order; it gets the carrier of the
  -- input. All order lines that the scan finds for it get the delivery date. The customer gets the sum of
  -- their amounts, which are those from before, and one more delivery.
  pub deliver_order-ok :
      (d_id o_id c_id : ℕ) (db db' : Db Money Info)
      → deliver_order oldest lines nothing plus delivery_time busy input d_id o_id c_id db
        ≡ (ok tt, db')
      → Fulfilled d_id o_id c_id db db'
  deliver_order-ok d_id o_id c_id db db' h = (deliver_order-all d_id o_id c_id db db' h).0
