-- ===== src/Tpcc/Delivery/Delivers.antt =====
-- What `delivery` (src/benchmark/src/tpcc/query/delivery.rs) does to the tables when it succeeds.
use mathlib.Core.Path.{subst}
use alchemy.Base.{
  ℕ, ◌≡◌, refl, Bool, true, false, Option, none, some, ok, err, List, [], ◌∷◌, put, put-self,
  put-other, ℕ_discrete, ap, sym, ◌∙◌,
}
use alchemy.Rid.{TransactionError}
use alchemy.Tpcc.NewOrder.{Order, OrderLine}
use alchemy.Tpcc.Delivery.{
  Db, DeliveryInput, Site, Outcome, and_then, locked, row, asserted, deliver_lines,
}

-- A property of the new cell and of an old one holds of that one after the assignment.
pub put-keeps :
    {A : Type 0} (P : A → Type 0) (f : ℕ → A) (i j : ℕ) (a : A)
    → (i ≡ j → P a)
    → P (f j)
    → P (put f i a j)
put-keeps P f i j a new old = elim (ℕ_discrete i j) [
  | yes e ↦ subst (λ x. P (put f i a x)) e (put-self P f i (new e))
  | no ne ↦ put-other P f i j a ne old
]

module _ {Money Info : Type 0} where
  -- What a step that was not the end of the transaction found.
  pub after_locked :
      {B : Type 0} (e : Option TransactionError) (db : Db Money Info)
      (f : Unit {0} → Db Money Info → Outcome Money Info B) (b : B) (db' : Db Money Info)
      → and_then (locked e db) f ≡ (ok b, db')
      → f tt db ≡ (ok b, db')
  unfolding and_then locked
  after_locked none db f b db' h = h
  after_locked (some x) db f b db' h = cc (ap (λ x. x.0) h)

  pub after_row :
      {A B : Type 0} (o : Option A) (db : Db Money Info)
      (f : A → Db Money Info → Outcome Money Info B) (b : B) (db' : Db Money Info)
      → and_then (row o db) f ≡ (ok b, db')
      → (a : A) × (o ≡ some a) × (f a db ≡ (ok b, db'))
  unfolding and_then row
  after_row (some a) db f b db' h = (a, refl, h)
  after_row none db f b db' h = cc (ap (λ x. x.0) h)

  pub after_assert :
      {B : Type 0} (t : Bool) (db : Db Money Info)
      (f : Unit {0} → Db Money Info → Outcome Money Info B) (b : B) (db' : Db Money Info)
      → and_then (asserted t db) f ≡ (ok b, db')
      → (t ≡ true) × (f tt db ≡ (ok b, db'))
  unfolding and_then asserted
  after_assert true db f b db' h = (refl, h)
  after_assert false db f b db' h = cc (ap (λ x. x.0) h)

  pub after :
      {A B : Type 0} (x : Outcome Money Info A) (f : A → Db Money Info → Outcome Money Info B)
      (b : B) (db' : Db Money Info)
      → and_then x f ≡ (ok b, db')
      → (a : A) × (db1 : Db Money Info) × (x ≡ (ok a, db1)) × (f a db1 ≡ (ok b, db'))
  unfolding and_then
  after (ok a, db1) f b db' h = (a, db1, refl, h)
  after (err e, db1) f b db' h = cc (ap (λ x. x.0) h)

  abbrev pub amount_of : Money → Option (OrderLine Money Info) → Money
  amount_of nothing none = nothing
  amount_of nothing (some l) = l.ol_amount

  -- An order line with this delivery date.
  abbrev pub Dated : ℕ → Option (OrderLine Money Info) → Type 0
  Dated time x = (l : OrderLine Money Info) × (x ≡ some l) × (l.ol_delivery_d ≡ time)

  abbrev pub AllDated : ℕ → List ℕ → Db Money Info → Type 0
  AllDated time [] db = Unit
  AllDated time (r ∷ rids) db = Dated time (db.order_line r) × AllDated time rids db

-- An order of this customer with this carrier.
abbrev pub Carried : (o_carrier_id o_c_id : ℕ) → Option Order → Type 0
Carried o_carrier_id o_c_id x =
    (o : Order) × (x ≡ some o) × (o.o_carrier_id ≡ o_carrier_id) × (o.o_c_id ≡ o_c_id)

-- The sum of the amounts of these lines, from the left.
unfoldable pub total :
    {Money Info : Type 0}
    → (Money → Money → Money)
    → Money
    → (ℕ → Option (OrderLine Money Info))
    → List ℕ
    → Money
    → Money
total plus nothing rows [] sum = sum
total plus nothing rows (r ∷ rids) sum =
    total plus nothing rows rids (plus sum (amount_of nothing (rows r)))

total-same :
    {Money Info : Type 0} (plus : Money → Money → Money) (nothing : Money)
    (f g : ℕ → Option (OrderLine Money Info)) (rids : List ℕ) (sum : Money)
    → ((r : ℕ) → amount_of nothing (g r) ≡ amount_of nothing (f r))
    → total plus nothing g rids sum ≡ total plus nothing f rids sum
unfolding total
total-same plus nothing f g [] sum same = refl
total-same plus nothing f g (r ∷ rids) sum same =
    ap (λ x. total plus nothing g rids (plus sum x)) (same r)
    ∙ total-same plus nothing f g rids (plus sum (amount_of nothing (f r))) same

pub AllDated-kept :
    {Money Info : Type 0} (time : ℕ) (rids : List ℕ) (db db' : Db Money Info)
    → ((r : ℕ) → Dated time (db.order_line r) → Dated time (db'.order_line r))
    → AllDated time rids db
    → AllDated time rids db'
AllDated-kept time [] db db' kept all = tt
AllDated-kept time (r ∷ rids) db db' kept (one, all) =
    (kept r one, AllDated-kept time rids db db' kept all)

module _ {Money Info : Type 0} (oldest : (ℕ → Option ℕ) → (low high : ℕ) → Option ℕ)
    (lines : (low high : ℕ) → Option (List ℕ)) (nothing : Money) (plus : Money → Money → Money)
    (delivery_time : ℕ) (busy : Site → Option TransactionError) (input : DeliveryInput) where
  -- The loop over the lines changes nothing but delivery dates.
  abbrev pub OnlyDates : Db Money Info → Db Money Info → Type 0
  OnlyDates db db' =
      (db'.new_order ≡ db.new_order)
      × (db'.order ≡ db.order)
      × (db'.customer ≡ db.customer)
      × ((r : ℕ) → amount_of nothing (db'.order_line r) ≡ amount_of nothing (db.order_line r))
      × ((r : ℕ) → Dated delivery_time (db.order_line r) → Dated delivery_time (db'.order_line r))

  pub deliver_lines-ok :
      (d_id : ℕ) (rids : List ℕ) (sum s : Money) (db db' : Db Money Info)
      → deliver_lines oldest lines nothing plus delivery_time busy input d_id rids sum db
        ≡ (ok s, db')
      → OnlyDates db db'
        × AllDated delivery_time rids db'
        × (s ≡ total plus nothing db.order_line rids sum)
  unfolding deliver_lines total
  deliver_lines-ok d_id [] sum s db db' h =
      subst (λ x. OnlyDates db x × Unit × (s ≡ sum)) (ap (λ x. x.1) h)
        ((refl, refl, refl, (λ r. refl), (λ r old. old)), tt, sym (cc (ap (λ x. x.0) h)))
  deliver_lines-ok d_id (r ∷ rids) sum s db db' h =
      let (l, there, h2) = after_row _ _ _ _ _ (after_locked _ _ _ _ _ h) in
      let ((a, b, c, same, kept), all, e) = deliver_lines-ok d_id rids _ s _ db' h2 in
      let here : l.ol_amount ≡ amount_of nothing (db.order_line r) =
        sym (ap (amount_of nothing) there) in
      let rows = put db.order_line r (some (record l { ol_delivery_d = delivery_time })) in
      let step : (k : ℕ) → amount_of nothing (rows k) ≡ amount_of nothing (db.order_line k) = λ k.
        put-keeps (λ x. amount_of nothing x ≡ amount_of nothing (db.order_line k)) db.order_line r k
          _ (λ e. here ∙ ap (λ x. amount_of nothing (db.order_line x)) e) refl in
      (
        (
          a,
          b,
          c,
          (λ k. same k ∙ step k),
          λ k old.
              kept k
                (put-keeps (Dated delivery_time) db.order_line r k _ (λ _. (_, refl, refl)) old),
        ),
        (kept r (put-self (Dated delivery_time) db.order_line r (_, refl, refl)), all),
        e
            ∙ total-same plus nothing db.order_line rows rids _ step
            ∙ ap (λ x. total plus nothing db.order_line rids (plus sum x)) here,
      )
