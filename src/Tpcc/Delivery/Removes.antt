-- ===== src/Tpcc/Delivery/Removes.antt =====
-- The new orders that `delivery` (src/benchmark/src/tpcc/query/delivery.rs) removes, whether it succeeds or
-- fails.
use alchemy.Base.{
  ℕ, ◌≡◌, refl, Bool, true, false, Option, none, some, is_some, ok, err, List, [], ◌∷◌, put, ◌==◌,
}
use alchemy.Rid.{TransactionError}
use alchemy.Tpcc.Keys.{customer_key, order_key, order_line_key, o_c_id_from_key}
use alchemy.Tpcc.NewOrder.{attempt}
use alchemy.Tpcc.Delivery.{
  Db, DeliveryInput, Site, Outcome, on_order, on_line, on_customer, and_then, locked, row, asserted,
  item_scale, deliver_lines, deliver_customer, deliver_order, deliver_found,
}

module _ {Money Info : Type 0} where
  -- The new orders after a step.
  abbrev Leaves : {A : Type 0} → (ℕ → Option ℕ) → Outcome Money Info A → Type 0
  Leaves n x = x.1.new_order ≡ n

  Leaves-and_then :
      {A B : Type 0} (n : ℕ → Option ℕ) (x : Outcome Money Info A)
      (f : A → Db Money Info → Outcome Money Info B)
      → Leaves n x
      → ((a : A) (db : Db Money Info) → db.new_order ≡ n → Leaves n (f a db))
      → Leaves n (and_then x f)
  unfolding and_then
  Leaves-and_then n (ok a, db) f h k = k a db h
  Leaves-and_then n (err e, db) f h k = h

  Leaves-locked :
      (n : ℕ → Option ℕ) (e : Option TransactionError) (db : Db Money Info)
      → db.new_order ≡ n
      → Leaves n (locked e db)
  unfolding locked
  Leaves-locked n none db h = h
  Leaves-locked n (some e) db h = h

  Leaves-row :
      {A : Type 0} (n : ℕ → Option ℕ) (o : Option A) (db : Db Money Info)
      → db.new_order ≡ n
      → Leaves n (row o db)
  unfolding row
  Leaves-row n none db h = h
  Leaves-row n (some a) db h = h

  Leaves-asserted :
      (n : ℕ → Option ℕ) (t : Bool) (db : Db Money Info)
      → db.new_order ≡ n
      → Leaves n (asserted t db)
  unfolding asserted
  Leaves-asserted n true db h = h
  Leaves-asserted n false db h = h

module _ {Money Info : Type 0} (oldest : (ℕ → Option ℕ) → (low high : ℕ) → Option ℕ)
    (lines : (low high : ℕ) → Option (List ℕ)) (nothing : Money) (plus : Money → Money → Money)
    (delivery_time : ℕ) (busy : Site → Option TransactionError) (input : DeliveryInput) where
  Leaves-deliver_lines :
      (n : ℕ → Option ℕ) (d_id : ℕ) (rids : List ℕ) (sum : Money) (db : Db Money Info)
      → db.new_order ≡ n
      → Leaves n (deliver_lines oldest lines nothing plus delivery_time busy input d_id rids sum db)
  unfolding deliver_lines
  Leaves-deliver_lines n d_id [] sum db h = h
  Leaves-deliver_lines n d_id (r ∷ rids) sum db h =
      Leaves-and_then n _ _ (Leaves-locked n (busy (on_line d_id r)) db h) (λ _ db1 h1.
        Leaves-and_then n _ _ (Leaves-row n (db1.order_line r) db1 h1)
          (λ l db2 h2. Leaves-deliver_lines n d_id rids (plus sum l.ol_amount) _ h2))

  Leaves-deliver_customer :
      (n : ℕ → Option ℕ) (d_id c_id : ℕ) (sum : Money) (db : Db Money Info)
      → db.new_order ≡ n
      → Leaves n
          (deliver_customer oldest lines nothing plus delivery_time busy input d_id c_id sum db)
  unfolding deliver_customer
  Leaves-deliver_customer n d_id c_id sum db h =
      let key = customer_key input.w_id d_id c_id in
      Leaves-and_then n _ _
        (Leaves-locked n (attempt (is_some (db.customer key)) (busy (on_customer d_id))) db h)
        (λ _ db1 h1.
          Leaves-and_then n _ _ (Leaves-row n (db1.customer key) db1 h1) (λ c db2 h2. h2))

  Leaves-deliver_order :
      (n : ℕ → Option ℕ) (d_id o_id c_id : ℕ) (db : Db Money Info)
      → db.new_order ≡ n
      → Leaves n
          (deliver_order oldest lines nothing plus delivery_time busy input d_id o_id c_id db)
  unfolding deliver_order
  Leaves-deliver_order n d_id o_id c_id db h =
      let key = order_key input.w_id d_id c_id o_id in
      Leaves-and_then n _ _
        (Leaves-locked n (attempt (is_some (db.order key)) (busy (on_order d_id))) db h)
        (λ _ db1 h1. Leaves-and_then n _ _ (Leaves-row n (db1.order key) db1 h1) (λ o db2 h2.
          Leaves-and_then n _ _ (Leaves-asserted n (o.o_c_id == c_id) _ h2) (λ _ db4 h4.
            Leaves-and_then n _ _
              (Leaves-row n
                (lines (order_line_key input.w_id d_id o_id 0)
                  (order_line_key input.w_id d_id o_id item_scale))
                db4 h4)
              (λ rids db5 h5.
                Leaves-and_then n _ _ (Leaves-deliver_lines n d_id rids nothing db5 h5)
                  (λ sum db6 h6. Leaves-deliver_customer n d_id o.o_c_id sum db6 h6)))))

  -- The new order that the scan of a district finds is gone afterwards, and it alone, whether its order was
  -- delivered or the transaction failed there.
  pub deliver_found-removes :
      (d_id key : ℕ) (db : Db Money Info)
      → (deliver_found oldest lines nothing plus delivery_time busy input d_id
          (some key)
          db).1.new_order
        ≡ put db.new_order key none
  unfolding deliver_found
  deliver_found-removes d_id key db =
      let (o_id, c_id) = o_c_id_from_key key in
      Leaves-and_then (put db.new_order key none) _ _ (Leaves-deliver_order _ d_id o_id c_id _ refl)
        (λ _ db1 h. h)
