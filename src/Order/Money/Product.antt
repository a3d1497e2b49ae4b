-- ===== src/Order/Money/Product.antt =====
-- `Mul`: the division test finds exactly the products that wrap.
use boilerplate_go_grpc_micr.Common.{
  ℕ, suc, ◌+◌, ◌*◌, ◌/◌, ◌≤◌, ◌<◌, ◌^◌, ◌≡◌, refl, ap, ◌⊎◌, inl, inr, true, arith, Bool-cases, sym,
  ◌∙◌,
}
use boilerplate_go_grpc_micr.Common.Int.{
  ℤ, pos, negsuc, pos_part, neg_part, ◌+ℤ◌, ◌*ℤ◌, wrap64, wrap64_exact, wrap64-IsInt64, wrap64_far,
  IsInt64, tdiv, IsInt64-cases, eqb_ℤ, eq_of_parts, one_part,
}
use boilerplate_go_grpc_micr.Common.Text.{Text}
use boilerplate_go_grpc_micr.Order.Money.{
  Money, Casing, valid_currency_code, mul, mul_total, zero_money,
}
use boilerplate_go_grpc_micr.Order.Money.Bounds.{
  IsAmount, value, value-Fits, Fits, Exact, total_nanos-eq-value, from_total_nanos-Exact, *ℤ_parts,
}

-- The size of an integer; a product has the product of the sizes.
abbrev pub size : ℤ → ℕ
size z = pos_part z + neg_part z

div_near : (a b : ℕ) → 0 < b → (a / b * b ≤ a) × (a < a / b * b + b)
div_near a b h = omega arith

mul_parts :
    (a b : ℤ)
    → pos_part (a *ℤ b) + pos_part a * neg_part b + neg_part a * pos_part b
      ≡ neg_part (a *ℤ b) + pos_part a * pos_part b + neg_part a * neg_part b
unfolding ◌*ℤ◌
mul_parts a b = ground arith

-- A quotient times its divisor is the dividend but for less than the divisor.
tdiv_near :
    (p n : ℤ)
    → 0 < size n
    → (pos_part p + neg_part (tdiv p n *ℤ n) < pos_part (tdiv p n *ℤ n) + neg_part p + size n)
      × (pos_part (tdiv p n *ℤ n) + neg_part p < pos_part p + neg_part (tdiv p n *ℤ n) + size n)
unfolding tdiv ◌*ℤ◌
tdiv_near (pos a) (pos b) h = ground (arith, div_near a b)
tdiv_near (pos a) (negsuc b) h = ground (arith, div_near a (suc b))
tdiv_near (negsuc a) (pos b) h = ground (arith, div_near (suc a) b)
tdiv_near (negsuc a) (negsuc b) h = ground (arith, div_near (suc a) (suc b))

div_exact : (t n : ℕ) → 0 < n → t * n / n ≡ t
div_exact t n h = grind arith

tdiv_exact : (t n : ℤ) → 0 < size n → tdiv (t *ℤ n) n ≡ t
unfolding tdiv ◌*ℤ◌
tdiv_exact (pos t) (pos n) h = ground (arith, div_exact t n)
tdiv_exact (pos t) (negsuc n) h = ground (arith, div_exact t (suc n))
tdiv_exact (negsuc t) (pos n) h = ground (arith, div_exact (suc t) n)
tdiv_exact (negsuc t) (negsuc n) h = ground (arith, div_exact (suc t) (suc n))

tdiv_small : (p n : ℤ) → size (tdiv p n) ≤ size p
unfolding tdiv
tdiv_small (pos a) (pos b) = ground arith
tdiv_small (pos a) (negsuc b) = ground arith
tdiv_small (negsuc a) (pos b) = ground arith
tdiv_small (negsuc a) (negsuc b) = ground arith

eqb_ℤ-self : (a : ℤ) → eqb_ℤ a a ≡ true
eqb_ℤ-self a = ground arith

eq_of_eqb_ℤ : (a b : ℤ) → eqb_ℤ a b ≡ true → a ≡ b
eq_of_eqb_ℤ a b h = ground arith

quotient_too_far :
    (w n t : ℤ)
    → Fits t
    → IsInt64 w
    → wrap64 (tdiv w n) ≡ t
    → (pos_part (tdiv w n) + neg_part (wrap64 (tdiv w n)) + 2 ^ 64
        ≤ pos_part (wrap64 (tdiv w n)) + neg_part (tdiv w n))
      ⊎ (pos_part (wrap64 (tdiv w n)) + neg_part (tdiv w n) + 2 ^ 64
          ≤ pos_part (tdiv w n) + neg_part (wrap64 (tdiv w n)))
    → ⊥
quotient_too_far w n t ft landed e far =
    let p = ap pos_part e in let m = ap neg_part e in omega (arith, tdiv_small w n, one_part w)

-- A product that is nearer to its wrapped value than 2 ^ 64 did not wrap.
near_IsInt64 :
    (t n : ℤ)
    → IsInt64 n
    → (pos_part (wrap64 (t *ℤ n)) + neg_part (t *ℤ n)
        < pos_part (t *ℤ n) + neg_part (wrap64 (t *ℤ n)) + size n)
      × (pos_part (t *ℤ n) + neg_part (wrap64 (t *ℤ n))
          < pos_part (wrap64 (t *ℤ n)) + neg_part (t *ℤ n) + size n)
    → IsInt64 (t *ℤ n)
near_IsInt64 t n hn near = elim (wrap64_far (t *ℤ n)) [
  | inl exact ↦ rw exact at (wrap64-IsInt64 (t *ℤ n))
  | inr far ↦ absurd (omega (arith, one_part n))
]

-- A quotient that passes the test comes from a product that did not wrap.
quotient_refutes_wrap :
    (t n : ℤ)
    → Fits t
    → IsInt64 n
    → 0 < size n
    → wrap64 (tdiv (wrap64 (t *ℤ n)) n) ≡ t
    → IsInt64 (t *ℤ n)
quotient_refutes_wrap t n ft hn pn e =
    let w = wrap64 (t *ℤ n) in
    let q = tdiv w n in
    let landed = wrap64-IsInt64 (t *ℤ n) in
    let same : q ≡ t = elim (wrap64_far q) [
      | inl exact ↦ sym exact ∙ e
      | inr far ↦ absurd (quotient_too_far w n t ft landed e far)
    ] in
    near_IsInt64 t n hn (rw same at (tdiv_near w n pn))

mul_total-Exact :
    (code : Text) (t n : ℤ)
    → Fits t
    → IsInt64 n
    → 0 < size n
    → Exact code (t *ℤ n) (mul_total code t n)
unfolding mul_total
mul_total-Exact code t n ft hn pn = elim (IsInt64-cases (t *ℤ n)) [
  | inl fits ↦
      rw
        (
          wrap64_exact (t *ℤ n) fits,
          tdiv_exact t n pn,
          wrap64_exact t (omega (arith, ft)),
          eqb_ℤ-self t,
        )
        (from_total_nanos-Exact code (t *ℤ n))
  | inr wraps ↦ elim (Bool-cases (eqb_ℤ (wrap64 (tdiv (wrap64 (t *ℤ n)) n)) t)) [
    | inl passes ↦ absurd (wraps (quotient_refutes_wrap t n ft hn pn (eq_of_eqb_ℤ _ _ passes)))
    | inr fails ↦ rw fails (refl, λ fits. wraps (omega (arith, fits)))
  ]
]

pub value-zero_money : ⦃c : Casing⦄ (code : Text) → value (zero_money code) ≡ pos 0
unfolding value zero_money ◌*ℤ◌ ◌+ℤ◌
value-zero_money code = refl

zero_product :
    ⦃c : Casing⦄ (n : ℤ)
    → eqb_ℤ n (pos 0) ≡ true
    → (m : Money) → value (zero_money m.currency_code) ≡ value m *ℤ n
zero_product n h m =
    value-zero_money m.currency_code
    ∙ rw (eq_of_eqb_ℤ n (pos 0) h) (eq_of_parts _ _ (omega (arith, *ℤ_parts (value m) 0)))

pub zero-IsAmount : ⦃c : Casing⦄ (code : Text) → IsAmount (zero_money code)
unfolding zero_money
zero-IsAmount code = omega arith

-- A product of an amount in a valid currency and an int64 is exact: `Mul` returns the amount
-- whose value is the product, and fails with the overflow error where no amount has that value.
pub mul-Exact :
    ⦃c : Casing⦄ (m : Money) (n : ℤ)
    → IsAmount m
    → valid_currency_code m.currency_code ≡ true
    → IsInt64 n
    → Exact m.currency_code (value m *ℤ n) (mul m n)
unfolding mul zero_money
mul-Exact ⦃c⦄ m n v code hn = rw (total_nanos-eq-value m v) (elim (Bool-cases (eqb_ℤ n (pos 0))) [
  | inl zero_factor ↦
      rw zero_factor
        (c.to_upper_fixed _ code, zero_product n zero_factor m, zero-IsAmount m.currency_code)
  | inr factor ↦ rw factor (mul_total-Exact _ _ n (value-Fits m v) hn (ground arith))
])
