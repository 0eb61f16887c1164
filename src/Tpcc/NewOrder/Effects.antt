-- ===== src/Tpcc/NewOrder/Effects.antt =====
-- What `new_order` (src/benchmark/src/tpcc/query/new_order.rs) does to the tables when it succeeds.
use mathlib.Core.Path.{subst}
use alchemy.Base.{
  ℕ, ◌+◌, ◌≡◌, refl, Option, none, some, ok, List, [], ◌∷◌, put, put-self, ap, sym, ◌∙◌,
}
use alchemy.Rid.{TransactionError}
use alchemy.Tpcc.Keys.{add64, district_key, new_order_key, order_key}
use alchemy.Tpcc.NewOrder.{
  Stock, Db, OrderItem, NewOrderInput, Site, acquire, put_line, put_lines, order_of, modify, finish,
  new_order,
}
use alchemy.Tpcc.NewOrder.Stocks.{
  Present, Sold, and_then-none, attempt-none, is_some-true, lock_items-Present, put_lines-stock,
}

module _ {Money Info : Type 0} (times : ℕ → Money → Money) where
  -- The tables that the order lines leave alone.
  abbrev Untouched : Db Money Info → Db Money Info → Type 0
  Untouched db db' =
      (db'.district ≡ db.district) × (db'.new_orders ≡ db.new_orders) × (db'.order ≡ db.order)

  put_line-Untouched :
      (input : NewOrderInput) (o_id i : ℕ) (o : OrderItem) (p : Option Money)
      (s : Option (Stock Info)) (db : Db Money Info)
      → Untouched db (put_line times input o_id i o p s db)
  put_line-Untouched input o_id i o (some p) (some s) db = (refl, refl, refl)
  put_line-Untouched input o_id i o (some p) none db = (refl, refl, refl)
  put_line-Untouched input o_id i o none (some s) db = (refl, refl, refl)
  put_line-Untouched input o_id i o none none db = (refl, refl, refl)

  put_lines-Untouched :
      (input : NewOrderInput) (o_id i : ℕ) (orders : List OrderItem) (db : Db Money Info)
      → Untouched db (put_lines times input o_id i orders db)
  unfolding put_lines
  put_lines-Untouched input o_id i [] db = (refl, refl, refl)
  put_lines-Untouched input o_id i (o ∷ orders) db =
      let (a, b, c) = put_line-Untouched input o_id i o _ _ db in
      let (a', b', c') = put_lines-Untouched input o_id (i + 1) orders _ in (a' ∙ a, b' ∙ b, c' ∙ c)

  finish-ok :
      (input : NewOrderInput) (a : Option TransactionError) (db db' : Db Money Info)
      → finish times input a db ≡ (ok tt, db')
      → (a ≡ none)
        × (modify times input (db.district (district_key input.w_id input.d_id)) db ≡ db')
  finish-ok input none db db' e = (refl, ap (λ x. x.1) e)
  finish-ok input (some x) db db' e = cc (ap (λ x. x.0) e)

  -- The tables when the loop over the order lines begins.
  abbrev begin : NewOrderInput → ℕ → Db Money Info → Db Money Info
  begin input o_id db =
      let key = new_order_key input.w_id input.d_id o_id input.c_id in
      record db {
        district = put db.district (district_key input.w_id input.d_id) (some (add64 o_id 1));
        new_orders = put db.new_orders key (some key);
        order =
            put db.order (order_key input.w_id input.d_id input.c_id o_id)
              (some (order_of input o_id));
      }

  begin-Present :
      (input : NewOrderInput) (o_id : ℕ) (orders : List OrderItem) (db : Db Money Info)
      → Present orders db
      → Present orders (begin input o_id db)
  begin-Present input o_id [] db p = tt
  begin-Present input o_id (o ∷ orders) db (item, stock, p) =
      (item, stock, begin-Present input o_id orders db p)

  module _ (busy : Site → Option TransactionError) (input : NewOrderInput)
      (db db' : Db Money Info) where
    acquire-rows :
        acquire busy input db ≡ none
        → ((o_id : ℕ) × (db.district (district_key input.w_id input.d_id) ≡ some o_id))
          × Present input.orders db
    unfolding acquire
    acquire-rows e =
        let (warehouse, rest) = and_then-none _ _ e in
        let (district, rest') = and_then-none _ _ rest in
        let (customer, items) = and_then-none _ _ rest' in
        (
          is_some-true _ (attempt-none _ _ district),
          lock_items-Present busy 0 input.orders db items,
        )

    -- A `new_order` that succeeds found the district, and gives the order the number that was next there,
    -- which moves on by one. The new order and the order are found under their keys. Each stock keeps
    -- its row, and what is ordered of it over all lines is added to its `s_ytd`, and the number
    -- of those lines to its `s_order_cnt`, as 64-bit words.
    pub new_order-ok :
        new_order times busy input db ≡ (ok tt, db')
        → (o_id : ℕ) × (db.district (district_key input.w_id input.d_id) ≡ some o_id)
          × (db'.district (district_key input.w_id input.d_id) ≡ some (add64 o_id 1))
          × (db'.new_orders (new_order_key input.w_id input.d_id o_id input.c_id)
              ≡ some (new_order_key input.w_id input.d_id o_id input.c_id))
          × (db'.order (order_key input.w_id input.d_id input.c_id o_id)
              ≡ some (order_of input o_id))
          × ((k : ℕ) (s : Stock Info)
              → db.stock k ≡ some s
              → (s' : Stock Info) × (db'.stock k ≡ some s') × Sold k input.orders s s')
    unfolding new_order modify
    new_order-ok h =
        let (locked, modified) = finish-ok input (acquire busy input db) db db' h in
        let ((o_id, next), present) = acquire-rows locked in
        let d_key = district_key input.w_id input.d_id in
        let n_key = new_order_key input.w_id input.d_id o_id input.c_id in
        let o_key = order_key input.w_id input.d_id input.c_id o_id in
        let begun = begin input o_id db in
        let changed : put_lines times input o_id 0 input.orders begun ≡ db' =
          sym (ap (λ x. modify times input x db) next) ∙ modified in
        let (d, n, o) = put_lines-Untouched input o_id 0 input.orders begun in
        (
          o_id,
          next,
          ap (λ x. x.district d_key) (sym changed)
              ∙ ap (λ f. f d_key) d
              ∙ put-self (λ x. x ≡ some (add64 o_id 1)) db.district d_key refl,
          ap (λ x. x.new_orders n_key) (sym changed)
              ∙ ap (λ f. f n_key) n
              ∙ put-self (λ x. x ≡ some n_key) db.new_orders n_key refl,
          ap (λ x. x.order o_key) (sym changed)
              ∙ ap (λ f. f o_key) o
              ∙ put-self (λ x. x ≡ some (order_of input o_id)) db.order o_key refl,
          λ k s row.
              subst (λ x. (s' : Stock Info) × (x.stock k ≡ some s') × Sold k input.orders s s')
                changed
                (put_lines-stock times input o_id 0 input.orders begun k s
                  (begin-Present input o_id input.orders db present) row),
        )
