-- ===== src/Tpcc/NewOrder/Stocks.antt =====
-- What the loop over the order lines of `new_order` (src/benchmark/src/tpcc/query/new_order.rs) does to
-- the stocks.
use mathlib.Core.Path.{subst}
use alchemy.Base.{
  ℕ, ◌+◌, ◌%◌, ◌≡◌, ◌≤◌, ◌<◌, ◌⊎◌, refl, arith, Bool, true, false, Option, none, some, is_some,
  List, [], ◌∷◌, ◌==◌, if◌then◌else◌, ap, sym, ◌∙◌, ℕ_discrete, ==-ne, ==_iff,
}
use alchemy.Rid.{TransactionError}
use alchemy.Tpcc.Keys.{word_size, item_key, stock_key}
use alchemy.Tpcc.NewOrder.{
  Stock, Db, OrderItem, NewOrderInput, Site, attempt, and_then, item_error, lock_items,
  take_quantity, update_stock, put_line, put_lines,
}

-- A stock of at least 10 and at most 100 from which 1 to 10 are taken stays between 10 and 100: the
-- quantity is taken, or 91 are added where less than 10 would be left, though the
-- difference may wrap.
pub take_quantity-bounds :
    (s q : ℕ)
    → 10 ≤ s
    → s ≤ 100
    → 1 ≤ q
    → q ≤ 10
    → (10 ≤ take_quantity s q)
      × (take_quantity s q ≤ 100)
      × ((take_quantity s q + q ≡ s) ⊎ ((take_quantity s q + q ≡ s + 91) × (s < q + 10)))
unfolding take_quantity
take_quantity-bounds s q a b c d = ground arith

module _ {Money Info : Type 0} where
  -- The items and the stocks of the orders are there.
  abbrev pub Present : List OrderItem → Db Money Info → Type 0
  Present [] db = Unit
  Present (o ∷ orders) db =
      ((price : Money) × (db.item (item_key o.ol_i_id) ≡ some price))
      × ((s : Stock Info) × (db.stock (stock_key o.ol_supply_w_id o.ol_i_id) ≡ some s))
      × Present orders db

-- How much of a stock is ordered, and by how many orders.
unfoldable pub ordered : ℕ → List OrderItem → ℕ
ordered k [] = 0
ordered k (o ∷ orders) =
    (if stock_key o.ol_supply_w_id o.ol_i_id == k then o.ol_quantity else 0) + ordered k orders

unfoldable pub counted : ℕ → List OrderItem → ℕ
counted k [] = 0
counted k (o ∷ orders) =
    (if stock_key o.ol_supply_w_id o.ol_i_id == k then 1 else 0) + counted k orders

-- What a row of a stock becomes.
abbrev pub Sold : {Info : Type 0} → ℕ → List OrderItem → Stock Info → Stock Info → Type 0
Sold k orders s s' =
    (s'.s_ytd % word_size ≡ (s.s_ytd + ordered k orders) % word_size)
    × (s'.s_order_cnt % word_size ≡ (s.s_order_cnt + counted k orders) % word_size)

pub and_then-none : (a b : Option TransactionError) → and_then a b ≡ none → (a ≡ none) × (b ≡ none)
and_then-none none b e = (refl, e)
and_then-none (some x) b e = cc

pub attempt-none : (p : Bool) (busy : Option TransactionError) → attempt p busy ≡ none → p ≡ true
attempt-none true busy e = refl
attempt-none false busy e = cc

item_error-none : (x : Option TransactionError) → item_error x ≡ none → x ≡ none
item_error-none x e = ground arith

pub is_some-true : {A : Type 0} (o : Option A) → is_some o ≡ true → (a : A) × (o ≡ some a)
is_some-true none e = cc
is_some-true (some a) e = (a, refl)

abbrev pub ytd_of : {Info : Type 0} → Option (Stock Info) → ℕ
ytd_of none = 0
ytd_of (some s) = s.s_ytd

abbrev pub order_cnt_of : {Info : Type 0} → Option (Stock Info) → ℕ
order_cnt_of none = 0
order_cnt_of (some s) = s.s_order_cnt

module _ {Money Info : Type 0} where
  pub lock_items-Present :
      (busy : Site → Option TransactionError) (i : ℕ) (orders : List OrderItem) (db : Db Money Info)
      → lock_items busy i orders db ≡ none
      → Present orders db
  unfolding lock_items
  lock_items-Present busy i [] db e = tt
  lock_items-Present busy i (o ∷ orders) db e =
      let (item, rest) = and_then-none _ _ e in
      let (stock, rest') = and_then-none _ _ rest in
      (
        is_some-true _ (attempt-none _ _ (item_error-none _ item)),
        is_some-true _ (attempt-none _ _ stock),
        lock_items-Present busy (i + 1) orders db rest',
      )

  module _ (times : ℕ → Money → Money) (input : NewOrderInput) (o_id : ℕ) where
    abbrev line_db : ℕ → OrderItem → Money → Stock Info → Db Money Info → Db Money Info
    line_db i o price s db = put_line times input o_id i o (some price) (some s) db

    line_db-Present :
        (i : ℕ) (o : OrderItem) (price : Money) (s : Stock Info) (orders : List OrderItem)
        (db : Db Money Info)
        → Present orders db
        → Present orders (line_db i o price s db)
    line_db-Present i o price s [] db p = tt
    line_db-Present i o price s (x ∷ orders) db (item, (t, there), p) = (
      item,
      elim (ℕ_discrete (stock_key o.ol_supply_w_id o.ol_i_id)
          (stock_key x.ol_supply_w_id x.ol_i_id)) [
            | yes e ↦ (update_stock input o s, rw ((==_iff _ _).1 e) refl)
            | no ne ↦ (t, rw (==-ne _ _ ne) there)
          ],
      line_db-Present i o price s orders db p,
    )

    line_db-stock :
        (i : ℕ) (o : OrderItem) (price : Money) (s : Stock Info) (db : Db Money Info) (k : ℕ)
        (s0 : Stock Info)
        → db.stock (stock_key o.ol_supply_w_id o.ol_i_id) ≡ some s
        → db.stock k ≡ some s0
        → (s1 : Stock Info) × ((line_db i o price s db).stock k ≡ some s1) × Sold k (o ∷ []) s0 s1
    unfolding update_stock ordered counted
    line_db-stock i o price s db k s0 there here =
        let key = stock_key o.ol_supply_w_id o.ol_i_id in
        elim (ℕ_discrete key k) [
          | yes e ↦
              let same = (==_iff key k).1 e in
              let row = sym there ∙ ap db.stock e ∙ here in
              (
                update_stock input o s,
                rw same refl,
                (
                  rw same (omega (arith, ap ytd_of row)),
                  rw same (omega (arith, ap order_cnt_of row)),
                ),
              )
          | no ne ↦
              let differs = ==-ne key k ne in
              (s0, rw differs here, (rw differs (omega arith), rw differs (omega arith)))
        ]

    pub put_lines-stock :
        (i : ℕ) (orders : List OrderItem) (db : Db Money Info) (k : ℕ) (s0 : Stock Info)
        → Present orders db
        → db.stock k ≡ some s0
        → (s' : Stock Info) × ((put_lines times input o_id i orders db).stock k ≡ some s')
          × Sold k orders s0 s'
    unfolding put_lines ordered counted
    put_lines-stock i [] db k s0 p here = (s0, here, (omega arith, omega arith))
    put_lines-stock i (o ∷ orders) db k s0 ((price, item), (s, there), p) here =
        let (s1, step, one) = line_db-stock i o price s db k s0 there here in
        let (s2, rest, many) =
          put_lines-stock (i + 1) orders (line_db i o price s db) k s1
            (line_db-Present i o price s orders db p) step in
        let same =
          ap
            (λ x.
              put_line times input o_id i o x (db.stock (stock_key o.ol_supply_w_id o.ol_i_id)) db)
            item
          ∙ ap (λ x. put_line times input o_id i o (some price) x db) there in
        subst
          (λ d.
            (s' : Stock Info) × ((put_lines times input o_id (i + 1) orders d).stock k ≡ some s')
            × Sold k (o ∷ orders) s0 s')
          (sym same) (s2, rest, (omega (arith, one.0, many.0), omega (arith, one.1, many.1)))
