-- ===== src/Failures/Blame.antt =====
-- Which errors of the domain are the client's: those that are answered with InvalidArgument.
use boilerplate_go_grpc_micr.Common.{
  ◌≡◌, refl, Bool, true, false, not, List, [], ◌∷◌, All, arith, inl, inr, Bool-cases,
}
use boilerplate_go_grpc_micr.Common.Int.{ℤ, pos, eqb_ℤ}
use boilerplate_go_grpc_micr.Common.Text.{Text, is_empty}
use boilerplate_go_grpc_micr.Failures.{Kind, domain_error_kind}
use boilerplate_go_grpc_micr.Order.Errors.{
  Sentinel, Err, errors_is, same_sentinel, Result, ok, err, ◌>>=◌, fail_if, wrap_err,
}
use boilerplate_go_grpc_micr.Order.Money
use boilerplate_go_grpc_micr.Order.Money.{Money, Casing}
use boilerplate_go_grpc_micr.Order.Aggregate.{
  Item, line_total, add_lines, compute_total, validate_item, validate_items, Order, validate_order,
  same_money,
}
use boilerplate_go_grpc_micr.Order.Status.{pending, status_valid}
use boilerplate_go_grpc_micr.Order.Aggregate.Orders.{eq→same_money}

abbrev pub is_client : Sentinel → Bool
is_client Sentinel.not_found = false
is_client Sentinel.duplicate = false
is_client Sentinel.invalid_transition = false
is_client Sentinel.missing_tenant = false
is_client _ = true

abbrev pub IsBlame : Err → Type 0
IsBlame [] = ⊥
IsBlame (s ∷ e) = All (λ r. is_client r ≡ true) (s ∷ e)

-- A computation that fails only through the client's fault.
pub data Blames {ℓ} {A : Type ℓ} : Result A → Type ℓ where
  returns : (a : A) → Blames (ok a)
  fails : (e : Err) → IsBlame e → Blames (err e)

pub blamed {ℓ} : {A : Type ℓ} (r : Result A) (e : Err) → Blames r → r ≡ err e → IsBlame e
blamed (ok a) e b h = absurd cc
blamed (err e') e (fails _ b) h = let same : e' ≡ e = cc in rw (← same) b

pub >>=-Blames {ℓ κ} :
    {A : Type ℓ} {B : Type κ} (r : Result A) (f : A → Result B)
    → Blames r
    → ((a : A) → Blames (f a))
    → Blames (r >>= f)
>>=-Blames (ok a) f h k = k a
>>=-Blames (err e) f (fails _ h) k = fails e h

pub fail_if-Blames : (b : Bool) (s : Sentinel) → is_client s ≡ true → Blames (fail_if b (s ∷ []))
fail_if-Blames true s h = fails _ (h, tt)
fail_if-Blames false s h = returns tt

IsBlame-All : (e : Err) → IsBlame e → All (λ r. is_client r ≡ true) e
IsBlame-All [] h = absurd h
IsBlame-All (s ∷ e) h = h

pub wrap_err-Blames {ℓ} :
    {A : Type ℓ} (s : Sentinel) (r : Result A)
    → is_client s ≡ true
    → Blames r
    → Blames (wrap_err s r)
wrap_err-Blames s (ok a) h k = returns a
wrap_err-Blames s (err e) h (fails _ k) = fails _ (h, IsBlame-All e k)

no_other :
    (e : Err) (s : Sentinel)
    → is_client s ≡ false
    → All (λ r. is_client r ≡ true) e
    → errors_is e s ≡ false
no_other [] s h k = refl
no_other (r ∷ e) s h k = rw (differ r s (k.0) h) (no_other e s h k.1)
  where
    differ : (r s : Sentinel) → is_client r ≡ true → is_client s ≡ false → same_sentinel r s ≡ false
    differ r s h k = ground arith

-- Such an error is answered with InvalidArgument.
pub domain_error_kind-IsBlame : (e : Err) → IsBlame e → domain_error_kind e ≡ Kind.invalid_argument
unfolding domain_error_kind
domain_error_kind-IsBlame [] h = absurd h
domain_error_kind-IsBlame (s ∷ e) h =
    rw
      (
        no_other (s ∷ e) Sentinel.not_found refl h,
        no_other (s ∷ e) Sentinel.duplicate refl h,
        no_other (s ∷ e) Sentinel.invalid_transition refl h,
      )
      (ground (arith, h.0))

pub ruleset blame_rules = (>>=-Blames, fail_if-Blames, wrap_err-Blames, returns)

total_nanos-Blames : (m : Money) → Blames (Money.total_nanos m)
unfolding Money.total_nanos
total_nanos-Blames m = >>=-Blames _ _ (fail_if-Blames _ _ refl) (λ _. returns _)

from_total_nanos-Blames : (code : Text) (t : ℤ) → Blames (Money.from_total_nanos code t)
unfolding Money.from_total_nanos
from_total_nanos-Blames code t = >>=-Blames _ _ (fail_if-Blames _ _ refl) (λ _. returns _)

add-Blames : (m o : Money) → Blames (Money.add m o)
unfolding Money.add Money.combine
add-Blames m o = >>=-Blames _ _ (fail_if-Blames _ _ refl) λ _.
    >>=-Blames _ _ (total_nanos-Blames m) λ a.
      >>=-Blames _ _ (total_nanos-Blames o)
        λ b. >>=-Blames _ _ (fail_if-Blames _ _ refl) λ _. from_total_nanos-Blames _ _

mul-Blames : ⦃c : Casing⦄ (m : Money) (n : ℤ) → Blames (Money.mul m n)
unfolding Money.mul Money.mul_total
mul-Blames m n = >>=-Blames _ _ (total_nanos-Blames m) λ t. elim (Bool-cases (eqb_ℤ n (pos 0))) [
  | inl e ↦ rw e (returns _)
  | inr e ↦ rw e (>>=-Blames _ _ (fail_if-Blames _ _ refl) λ _. from_total_nanos-Blames _ _)
]

add_lines-Blames : ⦃c : Casing⦄ (t : Money) (items : List Item) → Blames (add_lines t items)
unfolding add_lines line_total
add_lines-Blames t [] = returns _
add_lines-Blames t (i ∷ rest) =
    >>=-Blames _ _ (mul-Blames _ _)
      λ l. >>=-Blames _ _ (add-Blames t l) λ t'. add_lines-Blames t' rest

pub compute_total-Blames : ⦃c : Casing⦄ (items : List Item) → Blames (compute_total items)
unfolding compute_total
compute_total-Blames [] = fails _ (refl, tt)
compute_total-Blames (i ∷ rest) = add_lines-Blames _ (i ∷ rest)

pub validate-Blames : (m : Money) → Blames (Money.validate m)
unfolding Money.validate
validate-Blames m = search blame_rules

validate_item-Blames : (i : Item) → Blames (validate_item i)
unfolding validate_item
validate_item-Blames i = search (blame_rules, validate-Blames) depth 10

pub validate_items-Blames : (items : List Item) → Blames (validate_items items)
unfolding validate_items
validate_items-Blames [] = returns tt
validate_items-Blames (i ∷ rest) =
    >>=-Blames _ _ (validate_item-Blames i) λ _. validate_items-Blames rest

-- The three checks that an order made of a request meets.
tenant_check :
    (o : Order)
    → is_empty o.tenant_id ≡ false
    → Blames (fail_if (is_empty o.tenant_id) (Sentinel.missing_tenant ∷ []))
tenant_check o given = rw given (returns tt)

status_check :
    (o : Order)
    → o.status ≡ pending
    → Blames (fail_if (not (status_valid o.status)) (Sentinel.invalid_transition ∷ []))
unfolding status_valid
status_check o e = rw e (returns tt)

total_check :
    ⦃c : Casing⦄ (o : Order)
    → compute_total o.items ≡ ok o.total
    → Blames (compute_total o.items >>= λ want. fail_if (not (same_money want o.total)) [])
total_check o e = rw (e, eq→same_money o.total o.total refl) (returns tt)

-- An order made of a request is refused only through the client's fault.
pub validate_order-Blames :
    ⦃c : Casing⦄ (o : Order)
    → is_empty o.tenant_id ≡ false
    → o.status ≡ pending
    → compute_total o.items ≡ ok o.total
    → Blames (validate_order o)
unfolding validate_order
validate_order-Blames o given status total =
    search
      (
        blame_rules,
        validate_items-Blames,
        tenant_check o given,
        status_check o status,
        total_check o total,
      )
      depth 10
