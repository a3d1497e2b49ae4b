-- ===== src/Order/Money/Exact.antt =====
-- `Add`, `Sub`, `Compare` and `NewMoney` compute exactly, or report that the result is out of
-- range.
use boilerplate_go_grpc_micr.Common.{
  ◌≡◌, refl, ap, ◌⊎◌, ◌↔◌, inl, inr, true, false, [], ◌∷◌, arith, Bool-cases, if◌then◌else◌, ◌≢◌,
  sym, ◌∙◌,
}
use boilerplate_go_grpc_micr.Common.Int.{
  ℤ, pos, negsuc, ◌+ℤ◌, ◌-ℤ◌, wrap64, wrap64_exact, wrap64-IsInt64, wrap64_far, IsInt64, +ℤ_parts,
  -ℤ_parts, one_part, int_laws, ltb_ℤ, IsInt64-cases,
}
use boilerplate_go_grpc_micr.Common.Text.{eq→text_eq, text_eq→eq}
use boilerplate_go_grpc_micr.Order.Errors.{Sentinel, ok, err}
use boilerplate_go_grpc_micr.Order.Money.{Money, sum_overflows, combine, add, sub, compare_money}
use boilerplate_go_grpc_micr.Order.Money.Bounds.{
  IsAmount, value, value-Fits, Fits, Exact, total_nanos-eq-value, from_total_nanos-Exact,
  value-injective,
}

Fits-IsInt64 : (z : ℤ) → Fits z → IsInt64 z
Fits-IsInt64 z h = omega arith

-- The sign test of `combine` finds every sum that wraps, and no other.
sum_overflows-cases :
    (a b : ℤ)
    → IsInt64 a
    → IsInt64 b
    → ((sum_overflows a b (wrap64 (a +ℤ b)) ≡ true) × ¬ IsInt64 (a +ℤ b))
      ⊎ ((sum_overflows a b (wrap64 (a +ℤ b)) ≡ false) × (wrap64 (a +ℤ b) ≡ a +ℤ b))
unfolding sum_overflows
sum_overflows-cases a b ha hb = elim (IsInt64-cases (a +ℤ b)) [
  | inl fits ↦ inr (rw (wrap64_exact _ fits) (ground (arith, +ℤ_parts a b)), wrap64_exact _ fits)
  | inr wraps ↦
      let far = wrap64_far (a +ℤ b) in
      let landed = wrap64-IsInt64 (a +ℤ b) in inl (ground (arith, +ℤ_parts a b, far, landed), wraps)
]

-- The sum of two totals in range, as `combine` computes it.
sum-Exact :
    (m o : Money)
    → IsAmount m
    → IsAmount o
    → m.currency_code ≡ o.currency_code
    → Exact m.currency_code (value m +ℤ value o) (add m o)
unfolding add combine
sum-Exact m o v w same =
    rw (eq→text_eq _ _ same, total_nanos-eq-value m v, total_nanos-eq-value o w)
      (elim (sum_overflows-cases (value m) (value o) (Fits-IsInt64 _ (value-Fits m v))
        (Fits-IsInt64 _ (value-Fits o w))) [
          | inl (over, wraps) ↦ rw over (refl, λ fits. wraps (Fits-IsInt64 _ fits))
          | inr (settled, exact) ↦ rw (settled, exact) (from_total_nanos-Exact _ _)
        ])

-- The difference, as `combine` computes it: negating a total in range does not wrap.
difference-Exact :
    (m o : Money)
    → IsAmount m
    → IsAmount o
    → m.currency_code ≡ o.currency_code
    → Exact m.currency_code (value m -ℤ value o) (sub m o)
unfolding sub combine
difference-Exact m o v w same =
    let b = pos 0 -ℤ value o in
    let negated : IsInt64 b = omega (
      arith,
      Fits-IsInt64 _ (value-Fits o w),
      value-Fits o w,
      -ℤ_parts (pos 0) (value o),
      one_part b,
      one_part (value o),
    ) in
    let same_sum : value m +ℤ b ≡ value m -ℤ value o = omega int_laws in
    rw
      (
        eq→text_eq _ _ same,
        total_nanos-eq-value m v,
        total_nanos-eq-value o w,
        wrap64_exact b negated,
      )
      (elim (sum_overflows-cases (value m) b (Fits-IsInt64 _ (value-Fits m v)) negated) [
        | inl (over, wraps) ↦ rw over (refl, λ fits. wraps (rw same_sum (Fits-IsInt64 _ fits)))
        | inr (settled, exact) ↦ rw (settled, exact, same_sum) (from_total_nanos-Exact _ _)
      ])

-- For two amounts of one currency, sum and difference are exact: the result is the amount whose
-- value is the sum (the difference) of the two, in canonical form, and where no amount has that
-- value the call fails with the overflow error.
pub add-sub-Exact :
    (m o : Money)
    → IsAmount m
    → IsAmount o
    → m.currency_code ≡ o.currency_code
    → Exact m.currency_code (value m +ℤ value o) (add m o)
      × Exact m.currency_code (value m -ℤ value o) (sub m o)
add-sub-Exact m o v w same = (sum-Exact m o v w same, difference-Exact m o v w same)

-- Amounts of two currencies are never combined or compared.
pub currency_mismatch_refused :
    (m o : Money)
    → m.currency_code ≢ o.currency_code
    → (add m o ≡ err (Sentinel.currency_mismatch ∷ []))
      × (sub m o ≡ err (Sentinel.currency_mismatch ∷ []))
      × (compare_money m o ≡ err (Sentinel.currency_mismatch ∷ []))
unfolding add sub combine compare_money
currency_mismatch_refused m o differ = ground (arith, text_eq→eq m.currency_code o.currency_code)

-- The order of two integers, as Go's three-way comparisons report it.
abbrev pub sign : ℤ → ℤ → ℤ
sign a b = if ltb_ℤ a b then negsuc 0 else if ltb_ℤ b a then pos 1 else pos 0

sign-eq-zero : (a b : ℤ) → sign a b ≡ pos 0 → a ≡ b
sign-eq-zero a b h = ground arith

compare-sign :
    (m o : Money)
    → IsAmount m
    → IsAmount o
    → m.currency_code ≡ o.currency_code
    → compare_money m o ≡ ok (sign (value m) (value o))
unfolding compare_money
compare-sign m o v w same =
    rw (eq→text_eq _ _ same, total_nanos-eq-value m v, total_nanos-eq-value o w)
      (elim (Bool-cases (ltb_ℤ (value m) (value o))) [
        | inl h ↦ rw h
        | inr h ↦
            rw h (elim (Bool-cases (ltb_ℤ (value o) (value m))) [ inl k ↦ rw k | inr k ↦ rw k ])
      ])

money_path :
    (m o : Money)
    → m.currency_code ≡ o.currency_code
    → m.units ≡ o.units
    → m.nanos ≡ o.nanos
    → m ≡ o
money_path m o c u n = λ i. record { currency_code = c i; units = u i; nanos = n i }

equal_of_compare :
    (m o : Money)
    → IsAmount m
    → IsAmount o
    → m.currency_code ≡ o.currency_code
    → compare_money m o ≡ ok (pos 0)
    → m ≡ o
equal_of_compare m o v w same h =
    let (u, n) = value-injective m o v w (sign-eq-zero _ _ (cc (compare-sign m o v w same))) in
    money_path m o same u n

sign_self : (a : ℤ) → sign a a ≡ pos 0
sign_self a = ground arith

-- Comparing two amounts of one currency compares what they stand for; it says 0 exactly for
-- amounts with equal fields.
pub compare_money-eq-sign :
    (m o : Money)
    → IsAmount m
    → IsAmount o
    → m.currency_code ≡ o.currency_code
    → (compare_money m o ≡ ok (sign (value m) (value o)))
      × ((compare_money m o ≡ ok (pos 0)) ↔ (m ≡ o))
compare_money-eq-sign m o v w same = (
  compare-sign m o v w same,
  (
    (equal_of_compare m o v w same),
    (λ e.
        compare-sign m o v w same
        ∙ ap (λ (x : Money). ok (sign (value m) (value x))) (sym e)
        ∙ ap ok (sign_self (value m))),
  ),
)
