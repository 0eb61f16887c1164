-- ===== src/Tpcc/Keys.antt =====
-- The keys of the tables, src/benchmark/src/tpcc/tables.rs. A shift to the left of a 64-bit word drops the
-- bits that leave it, and a sum of words wraps.
use alchemy.Base.{
  ℕ, ◌+◌, ◌*◌, ◌/◌, ◌%◌, ◌^◌, ◌≡◌, ◌<◌, arith, bit_and, bit_and-field, bit_and-ones, sym, ap, ◌∙◌,
  ◌-◌,
}

abbrev pub word_size : ℕ
word_size = 2 ^ 64

abbrev pub shl : ℕ → ℕ → ℕ
shl a n = a * 2 ^ n % word_size

abbrev pub add64 : ℕ → ℕ → ℕ
add64 a b = (a + b) % word_size

unfoldable pub district_key : (w_id d_id : ℕ) → ℕ
district_key w_id d_id = add64 (shl w_id 48) d_id

unfoldable pub customer_key : (w_id d_id c_id : ℕ) → ℕ
customer_key w_id d_id c_id = add64 (add64 (shl w_id 48) (shl d_id 32)) c_id

-- The fields are 16 bits wide.
unfoldable pub idx_key_lastname : (w_id d_id last_name c_id : ℕ) → ℕ
idx_key_lastname w_id d_id last_name c_id =
    add64 (add64 (add64 (shl w_id 48) (shl d_id 32)) (shl last_name 16)) c_id

unfoldable pub order_key : (o_w_id o_d_id o_c_id o_id : ℕ) → ℕ
order_key o_w_id o_d_id o_c_id o_id =
    add64 (add64 (add64 (shl o_w_id 48) (shl o_d_id 32)) (shl o_c_id 16)) o_id

unfoldable pub new_order_key : (no_w_id no_d_id no_o_id c_id : ℕ) → ℕ
new_order_key no_w_id no_d_id no_o_id c_id =
    add64 (add64 (add64 (shl no_w_id 48) (shl no_d_id 32)) (shl no_o_id 16)) c_id

unfoldable pub o_c_id_from_key : ℕ → ℕ × ℕ
o_c_id_from_key key = (bit_and key 0xffff_0000 / 2 ^ 16, bit_and key 0xffff)

unfoldable pub order_line_key : (ol_w_id ol_d_id ol_o_id ol_i_id : ℕ) → ℕ
order_line_key ol_w_id ol_d_id ol_o_id ol_i_id =
    add64 (add64 (add64 (shl ol_w_id 48) (shl ol_d_id 40)) (shl ol_o_id 20)) ol_i_id

unfoldable pub item_key : ℕ → ℕ
item_key i_id = i_id

unfoldable pub stock_key : (s_w_id s_i_id : ℕ) → ℕ
stock_key s_w_id s_i_id = add64 (shl s_w_id 32) s_i_id

-- Keys of fields that keep to their widths are equal only if the fields are.
district_key-injective :
    (w d w' d' : ℕ)
    → w < 2 ^ 16
    → d < 2 ^ 48
    → w' < 2 ^ 16
    → d' < 2 ^ 48
    → district_key w d ≡ district_key w' d'
    → (w ≡ w') × (d ≡ d')
unfolding district_key
district_key-injective w d w' d' a b a' b' e = (omega (arith, e), omega (arith, e))

stock_key-injective :
    (w i w' i' : ℕ)
    → w < 2 ^ 32
    → i < 2 ^ 32
    → w' < 2 ^ 32
    → i' < 2 ^ 32
    → stock_key w i ≡ stock_key w' i'
    → (w ≡ w') × (i ≡ i')
unfolding stock_key
stock_key-injective w i w' i' a b a' b' e = (omega (arith, e), omega (arith, e))

-- Fields of 16 bits, as in the keys of customers by name, of orders and of new orders.
abbrev pub Fields : ℕ → ℕ → ℕ → ℕ → Type 0
Fields w d c o = (w < 2 ^ 16) × (d < 2 ^ 16) × (c < 2 ^ 16) × (o < 2 ^ 16)

order_key-sum :
    (w d c o : ℕ) → Fields w d c o → order_key w d c o ≡ w * 2 ^ 48 + d * 2 ^ 32 + c * 2 ^ 16 + o
unfolding order_key
order_key-sum w d c o (a, b, e, f) = omega arith

-- Two orders whose warehouse, district, customer and order numbers are below 2 ^ 16 have the same key only if
-- all four agree.
order_key-injective :
    (w d c o w' d' c' o' : ℕ)
    → Fields w d c o
    → Fields w' d' c' o'
    → order_key w d c o ≡ order_key w' d' c' o'
    → (w ≡ w') × (d ≡ d') × (c ≡ c') × (o ≡ o')
order_key-injective w d c o w' d' c' o' f f' e =
    let sums : w * 2 ^ 48 + d * 2 ^ 32 + c * 2 ^ 16 + o
        ≡ w' * 2 ^ 48 + d' * 2 ^ 32 + c' * 2 ^ 16 + o' =
      sym (order_key-sum w d c o f) ∙ e ∙ order_key-sum w' d' c' o' f' in
    (
      omega (arith, sums, f, f'),
      omega (arith, sums, f, f'),
      omega (arith, sums, f, f'),
      omega (arith, sums, f, f'),
    )

-- The widths of the fields of an order line: the district has 8 bits, the order and the item 20.
abbrev pub LineFields : ℕ → ℕ → ℕ → ℕ → Type 0
LineFields w d o i = (w < 2 ^ 16) × (d < 2 ^ 8) × (o < 2 ^ 20) × (i < 2 ^ 20)

order_line_key-sum :
    (w d o i : ℕ)
    → LineFields w d o i
    → order_line_key w d o i ≡ w * 2 ^ 48 + d * 2 ^ 40 + o * 2 ^ 20 + i
unfolding order_line_key
order_line_key-sum w d o i (a, b, c, e) = omega arith

-- Two order lines whose fields keep to these widths have the same key only if all four agree.
pub order_line_key-injective :
    (w d o i w' d' o' i' : ℕ)
    → LineFields w d o i
    → LineFields w' d' o' i'
    → order_line_key w d o i ≡ order_line_key w' d' o' i'
    → (w ≡ w') × (d ≡ d') × (o ≡ o') × (i ≡ i')
order_line_key-injective w d o i w' d' o' i' f f' e =
    let sums : w * 2 ^ 48 + d * 2 ^ 40 + o * 2 ^ 20 + i
        ≡ w' * 2 ^ 48 + d' * 2 ^ 40 + o' * 2 ^ 20 + i' =
      sym (order_line_key-sum w d o i f) ∙ e ∙ order_line_key-sum w' d' o' i' f' in
    (
      omega (arith, sums, f, f'),
      omega (arith, sums, f, f'),
      omega (arith, sums, f, f'),
      omega (arith, sums, f, f'),
    )

-- The order and the customer are read back from the key of a new order, if they are below 2 ^ 16,
-- whatever the warehouse and the district.
pub o_c_id_from_key-new_order_key :
    (w d o c : ℕ) → o < 2 ^ 16 → c < 2 ^ 16 → o_c_id_from_key (new_order_key w d o c) ≡ (o, c)
unfolding o_c_id_from_key new_order_key
o_c_id_from_key-new_order_key w d o c a b =
    let key = new_order_key w d o c in
    let order_part : key / 2 ^ 16 % 2 ^ 16 * 2 ^ 16 / 2 ^ 16 ≡ o = omega arith in
    let customer_part : key % 2 ^ 16 ≡ c = omega arith in
    ap (λ x. (x / 2 ^ 16, bit_and key (2 ^ 16 - 1))) (bit_and-field 16 16 key)
    ∙ ap (λ x. (key / 2 ^ 16 % 2 ^ 16 * 2 ^ 16 / 2 ^ 16, x)) (bit_and-ones 16 key)
    ∙ ap (λ x. (x, key % 2 ^ 16)) order_part
    ∙ ap (λ x. (o, x)) customer_part

-- The key of an order with a number from 2 ^ 16 on is that of an order of the next customer.
order_key-overlap : (w d c o : ℕ) → order_key w d c (2 ^ 16 + o) ≡ order_key w d (c + 1) o
unfolding order_key
order_key-overlap w d c o = omega arith
