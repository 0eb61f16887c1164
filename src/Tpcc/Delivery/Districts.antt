-- ===== src/Tpcc/Delivery/Districts.antt =====
-- The loop of `delivery` over the districts (src/benchmark/src/tpcc/query/delivery.rs), when it succeeds.
use mathlib.Core.Path.{subst}
use alchemy.Base.{
  ℕ, zero, suc, ◌+◌, ◌≡◌, inl, inr, refl, Bool, true, false, Option, none, some, ok, List, [], ◌∷◌,
  put, Option-cases, if_true, if_false, sym, ◌^◌, ◌-◌, ap, ◌∙◌,
}
use alchemy.Rid.{TransactionError}
use alchemy.Tpcc.Keys.{new_order_key, order_key, order_line_key, o_c_id_from_key}
use alchemy.Tpcc.Delivery.{
  Db, DeliveryInput, Site, item_scale, deliver_found, deliver_districts, delivery,
}
use alchemy.Tpcc.Delivery.Delivers.{after, AllDated, AllDated-kept, Carried}
use alchemy.Tpcc.Delivery.Orders.{Keeps, deliver_order-all}

-- The keys that `delivery` removes, with their districts: one for each of the `n` districts from `d_id` on, up to
-- the first without a new order, each found by the scan in what the ones before leave.
unfoldable pub found_keys :
    ((ℕ → Option ℕ) → (low high : ℕ) → Option ℕ) → (w_id n d_id : ℕ) → (ℕ → Option ℕ) → List (ℕ × ℕ)
found_keys oldest w_id zero d_id new_order = []
found_keys oldest w_id (suc n) d_id new_order =
    elim (oldest new_order (new_order_key w_id d_id 0 0)
      (new_order_key w_id d_id (2 ^ 16 - 1) (2 ^ 16 - 1))) [
        | none ↦ []
        | some key ↦ (d_id, key) ∷ found_keys oldest w_id n (d_id + 1) (put new_order key none)
      ]

-- The new orders without those.
unfoldable pub without : List (ℕ × ℕ) → (ℕ → Option ℕ) → ℕ → Option ℕ
without [] new_order = new_order
without ((d_id, key) ∷ keys) new_order = without keys (put new_order key none)

module _ {Money Info : Type 0} (oldest : (ℕ → Option ℕ) → (low high : ℕ) → Option ℕ)
    (lines : (low high : ℕ) → Option (List ℕ)) (nothing : Money) (plus : Money → Money → Money)
    (delivery_time : ℕ) (busy : Site → Option TransactionError) (input : DeliveryInput) where
  -- The order of a new order has the carrier, and its lines the delivery date.
  abbrev pub Delivered : (d_id key : ℕ) → Db Money Info → Type 0
  Delivered d_id key db =
      let (o_id, c_id) = o_c_id_from_key key in
      Carried input.o_carrier_id c_id (db.order (order_key input.w_id d_id c_id o_id))
      × ((rids : List ℕ) × (lines (order_line_key input.w_id d_id o_id 0)
              (order_line_key input.w_id d_id o_id item_scale)
            ≡ some rids)
          × AllDated delivery_time rids db)

  abbrev pub AllDelivered : List (ℕ × ℕ) → Db Money Info → Type 0
  AllDelivered [] db = Unit
  AllDelivered ((d_id, key) ∷ keys) db = Delivered d_id key db × AllDelivered keys db

  Delivered-kept :
      (d_id key : ℕ) (db db' : Db Money Info)
      → Keeps oldest lines nothing plus delivery_time busy input db db'
      → Delivered d_id key db
      → Delivered d_id key db'
  Delivered-kept d_id key db db' (orders, dates) (carried, (rids, ids, all)) =
      (orders _ _ carried, (rids, ids, AllDated-kept delivery_time rids db db' dates all))

  -- What a district does to the tables, by what its scan found.
  abbrev District : (d_id : ℕ) → Option ℕ → Bool → Db Money Info → Db Money Info → Type 0
  District d_id none more db db' = (more ≡ false) × (db ≡ db')
  District d_id (some key) more db db' =
      (more ≡ true)
      × ((db'.new_order ≡ put db.new_order key none)
          × Delivered d_id key db'
          × Keeps oldest lines nothing plus delivery_time busy input db db')

  deliver_found-ok :
      (d_id : ℕ) (found : Option ℕ) (more : Bool) (db db' : Db Money Info)
      → deliver_found oldest lines nothing plus delivery_time busy input d_id found db
        ≡ (ok more, db')
      → District d_id found more db db'
  unfolding deliver_found
  deliver_found-ok d_id none more db db' h = (sym (cc (ap (λ x. x.0) h)), ap (λ x. x.1) h)
  deliver_found-ok d_id (some key) more db db' h =
      let (o_id, c_id) = o_c_id_from_key key in
      let begun = record db { new_order = put db.new_order key none } in
      let (_, db1, delivered, e) = after _ _ _ _ h in
      let (((o, there, c_same, carried), (rids, ids, all, c, customer, new)), keeps, n) =
        deliver_order-all oldest lines nothing plus delivery_time busy input d_id o_id c_id begun
          db1 delivered in
      let done : Delivered d_id key db1 = ((_, carried, refl, c_same), (rids, ids, all)) in
      (
        sym (cc (ap (λ x. x.0) e)),
        subst
            (λ x.
              (x.new_order ≡ put db.new_order key none)
              × Delivered d_id key x
              × Keeps oldest lines nothing plus delivery_time busy input db x)
            (ap (λ x. x.1) e) (n, done, keeps),
      )

  -- The new orders with these keys are removed, and delivered.
  abbrev Delivers : List (ℕ × ℕ) → Db Money Info → Db Money Info → Type 0
  Delivers keys db db' =
      (db'.new_order ≡ without keys db.new_order)
      × AllDelivered keys db'
      × Keeps oldest lines nothing plus delivery_time busy input db db'

  Delivers-none : (db : Db Money Info) → Delivers [] db db
  unfolding without
  Delivers-none db = (refl, tt, ((λ key c_id old. old), λ r old. old))

  Delivers-then :
      (d_id key : ℕ) (keys : List (ℕ × ℕ)) (more : Bool) (db db1 db' : Db Money Info)
      → District d_id (some key) more db db1
      → Delivers keys db1 db'
      → Delivers ((d_id, key) ∷ keys) db db'
  unfolding without
  Delivers-then d_id key keys more db db1 db' (_, (n, done, (orders, dates)))
        (n', all, (orders', dates')) =
      (
        n' ∙ ap (without keys) n,
        (Delivered-kept d_id key db1 db' (orders', dates') done, all),
        ((λ k c old. orders' k c (orders k c old)), λ r old. dates' r (dates r old)),
      )

  deliver_districts-ok :
      (n d_id : ℕ) (db db' : Db Money Info)
      → deliver_districts oldest lines nothing plus delivery_time busy input n d_id db
        ≡ (ok tt, db')
      → Delivers (found_keys oldest input.w_id n d_id db.new_order) db db'
  unfolding deliver_districts found_keys
  deliver_districts-ok zero d_id db db' h =
      subst (Delivers [] db) (ap (λ x. x.1) h) (Delivers-none db)
  deliver_districts-ok (suc n) d_id db db' h =
      let (more, db1, first, h1) = after _ _ _ _ h in
      let found =
        oldest db.new_order (new_order_key input.w_id d_id 0 0)
          (new_order_key input.w_id d_id (2 ^ 16 - 1) (2 ^ 16 - 1)) in
      let one = deliver_found-ok d_id found more db db1 first in
      elim (Option-cases found) [
        | inl missing ↦
            let (stop, same) = subst (λ x. District d_id x more db db1) missing one in
            let e = sym (if_false {b = more} _ _ stop) ∙ h1 in
            rw (missing, found_keys)
              (subst (Delivers [] db) (same ∙ ap (λ x. x.1) e) (Delivers-none db))
        | inr (key, there) ↦
            let here = subst (λ x. District d_id x more db db1) there one in
            let rest = sym (if_true {b = more} _ _ here.0) ∙ h1 in
            let later = deliver_districts-ok n (d_id + 1) db1 db' rest in
            rw (there, found_keys)
              (Delivers-then d_id key _ more db db1 db' here (
                subst (λ f. Delivers (found_keys oldest input.w_id n (d_id + 1) f) db1 db') here.1.0
                  later))
      ]

  -- A `delivery` that succeeds removes the new orders that the scans of the 10 districts find, up to the first
  -- district without one, and no others. Each of them is delivered: its order, which is of its customer, has
  -- the carrier of the input, and all order lines that the scan finds for it have the delivery date.
  pub delivery-ok :
      (db db' : Db Money Info)
      → delivery oldest lines nothing plus delivery_time busy input db ≡ (ok tt, db')
      → (db'.new_order ≡ without (found_keys oldest input.w_id 10 0 db.new_order) db.new_order)
        × AllDelivered (found_keys oldest input.w_id 10 0 db.new_order) db'
  unfolding delivery
  delivery-ok db db' h =
      let (removed, all, _) = deliver_districts-ok 10 0 db db' h in (removed, all)
