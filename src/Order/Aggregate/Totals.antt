-- ===== src/Order/Aggregate/Totals.antt =====
-- `ComputeTotal` is the exact sum of price times quantity.
use boilerplate_go_grpc_micr.Common.{
  ℕ, ◌+◌, ◌*◌, ◌≡◌, ◌≢◌, refl, ap, sym, ◌∙◌, inl, inr, arith, List, [], ◌∷◌, All, Bool-cases,
  All-both,
}
use boilerplate_go_grpc_micr.Common.Int.{
  ℤ, pos, negsuc, pos_part, neg_part, IsInt32, ◌+ℤ◌, ◌*ℤ◌, +ℤ_parts, eq_of_parts, one_part,
}
use boilerplate_go_grpc_micr.Common.Text.{Text, text_eq, text_eq→eq, eq→text_eq}
use boilerplate_go_grpc_micr.Order.Errors.{Result, ok, err, ◌>>=◌, >>=-eq-ok}
use boilerplate_go_grpc_micr.Order.Money.{Money, Casing, zero_money, add}
use boilerplate_go_grpc_micr.Order.Money.Bounds.{IsAmount, value, Exact, Fits, value_parts}
use boilerplate_go_grpc_micr.Order.Money.Exact.{add-sub-Exact, currency_mismatch_refused}
use boilerplate_go_grpc_micr.Order.Money.Product.{mul-Exact, value-zero_money, zero-IsAmount}
use boilerplate_go_grpc_micr.Order.Aggregate.{Item, line_total, add_lines, compute_total}
use boilerplate_go_grpc_micr.Order.Aggregate.Items.{IsItem}
use mathlib.Core.Path.{subst}
use mathlib.Core.Bool.{false≢true}
use mathlib.Core.List.{cons-ne-nil}

-- The nanos due for one item and for a list of them.
abbrev pub due : Item → ℕ
due i = pos_part (value i.unit_price) * pos_part i.quantity

abbrev pub dues : List Item → ℕ
dues [] = 0
dues (i ∷ rest) = due i + dues rest

-- A valid item whose quantity is an int32.
abbrev pub IsLine : Item → Type 0
IsLine i = IsItem i × IsInt32 i.quantity

-- The same, priced in one currency.
abbrev pub IsPricedIn : Text → Item → Type 0
IsPricedIn code i = IsLine i × (i.unit_price.currency_code ≡ code)

-- How a computation goes on from an exact result.
bind-Exact :
    {code : Text} {z : ℤ} (w : ℤ) (r : Result Money) (f : Money → Result Money)
    → Exact code z r
    → (Fits w → Fits z)
    → ((m : Money) → m.currency_code ≡ code → value m ≡ z → IsAmount m → Exact code w (f m))
    → Exact code w (r >>= f)
bind-Exact w (ok m) f h shrinks go = go m h.0 h.1 h.2
bind-Exact w (err e) f h shrinks go = (h.0, λ fits. h.1 (shrinks fits))

nonneg_product :
    (a b : ℤ) → neg_part a ≡ 0 → neg_part b ≡ 0 → a *ℤ b ≡ pos (pos_part a * pos_part b)
unfolding ◌*ℤ◌
nonneg_product (pos a) (pos b) h k = ground arith
nonneg_product (pos a) (negsuc b) h k = absurd (omega arith)
nonneg_product (negsuc a) b h k = absurd (omega arith)

product_due : (i : Item) → IsItem i → value i.unit_price *ℤ i.quantity ≡ pos (due i)
product_due i v =
    nonneg_product _ _ (omega (arith, v, value_parts i.unit_price, one_part (value i.unit_price)))
      v.quantity_positive.1

line_total-Exact :
    ⦃c : Casing⦄ (i : Item)
    → IsLine i
    → Exact i.unit_price.currency_code (pos (due i)) (line_total i)
unfolding line_total
line_total-Exact i (v, range) =
    rw (← product_due i v)
      (mul-Exact i.unit_price i.quantity v.price_canonical v.currency_valid (omega (arith, range)))

add_lines-Exact :
    ⦃c : Casing⦄ (code : Text) (items : List Item) (total : Money) (acc : ℕ)
    → All (IsPricedIn code) items
    → total.currency_code ≡ code
    → value total ≡ pos acc
    → IsAmount total
    → Exact code (pos (acc + dues items)) (add_lines total items)
unfolding add_lines
add_lines-Exact code [] total acc h same e v = (same, e ∙ ap pos (omega arith), v)
add_lines-Exact code (i ∷ rest) total acc ((line, cur), h) same e v =
    let w = pos (acc + dues (i ∷ rest)) in
    let line_exact =
      subst (λ c. Exact c (pos (due i)) (line_total i)) cur (line_total-Exact i line) in
    bind-Exact w (line_total i) _ line_exact (λ fits. omega arith)
      λ l lc le lv.
        let sum = (add-sub-Exact total l v lv (same ∙ sym lc)).0 in
        let moved : value total +ℤ value l ≡ pos (acc + due i) =
          rw (e, le) (eq_of_parts _ _ (omega (arith, +ℤ_parts (pos acc) (pos (due i))))) in
        let sum' = subst (λ c. Exact c (pos (acc + due i)) (add total l)) same (rw moved at sum) in
        bind-Exact w (add total l) _ sum' (λ fits. omega arith)
          λ t tc te tv.
            subst (λ n. Exact code (pos n) (add_lines t rest)) (omega arith)
              (add_lines-Exact code rest t (acc + due i) h tc te tv)

-- For valid items of one currency `ComputeTotal` returns the exact sum of price times quantity,
-- and fails with the overflow error where no amount is that large.
pub compute_total-Exact :
    ⦃c : Casing⦄ (code : Text) (items : List Item)
    → items ≢ []
    → All (IsPricedIn code) items
    → Exact code (pos (dues items)) (compute_total items)
unfolding compute_total zero_money
compute_total-Exact code [] given h = absurd (given refl)
compute_total-Exact ⦃c⦄ code (i ∷ rest) given h =
    let v = h.0.0.0 in
    subst (λ n. Exact code (pos n) (add_lines (zero_money i.unit_price.currency_code) (i ∷ rest)))
      (omega arith)
      (add_lines-Exact code (i ∷ rest) _ 0 h (c.to_upper_fixed _ v.currency_valid ∙ h.0.1)
        (value-zero_money _) (zero-IsAmount _))

mul-currency :
    ⦃c : Casing⦄ (i : Item) {l : Money}
    → IsLine i
    → line_total i ≡ ok l
    → l.currency_code ≡ i.unit_price.currency_code
mul-currency i {l} h e = (rw e at (line_total-Exact i h)).0

add-currency :
    (t l : Money) {r : Money}
    → IsAmount t
    → IsAmount l
    → add t l ≡ ok r
    → (t.currency_code ≡ l.currency_code) × (r.currency_code ≡ t.currency_code) × IsAmount r
add-currency t l {r} v w e = elim (Bool-cases (text_eq t.currency_code l.currency_code)) [
  | inl h ↦
      let same = text_eq→eq t.currency_code l.currency_code h in
      let exact = rw e at ((add-sub-Exact t l v w same).0) in (same, exact.0, exact.2)
  | inr h ↦
      let refused =
        (currency_mismatch_refused t l (λ same. false≢true (sym h ∙ eq→text_eq _ _ same))).0 in
      cc
]

-- Where the sum of valid items succeeds, they are all in its currency.
add_lines_one_currency :
    ⦃c : Casing⦄ (items : List Item) (total : Money) {r : Money}
    → All IsLine items
    → IsAmount total
    → add_lines total items ≡ ok r
    → All (λ i. i.unit_price.currency_code ≡ total.currency_code) items
unfolding add_lines
add_lines_one_currency [] total h v e = tt
add_lines_one_currency (i ∷ rest) total {r} h v e =
    let (l, le, fe) = >>=-eq-ok (line_total i) _ e in
    let exact = rw le at (line_total-Exact i h.0) in
    let (t, te, ge) = >>=-eq-ok (add total l) _ fe in
    let (same, kept, tv) = add-currency total l v exact.2 te in
    (
      sym (exact.0) ∙ sym same,
      subst (λ code. All (λ i. i.unit_price.currency_code ≡ code) rest) kept
          (add_lines_one_currency rest t h.1 tv ge),
    )

pub compute_total_one_currency :
    ⦃c : Casing⦄ (items : List Item) {t : Money}
    → All IsLine items
    → compute_total items ≡ ok t
    → (code : Text) × (items ≢ []) × All (IsPricedIn code) items
unfolding compute_total
compute_total_one_currency [] h e = cc
compute_total_one_currency (i ∷ rest) h e =
    let total = zero_money i.unit_price.currency_code in
    (
      total.currency_code,
      cons-ne-nil i rest,
      All-both _ _ (i ∷ rest) h (add_lines_one_currency (i ∷ rest) total h (zero-IsAmount _) e),
    )
