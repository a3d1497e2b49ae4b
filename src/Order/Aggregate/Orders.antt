-- ===== src/Order/Aggregate/Orders.antt =====
-- What a valid order is, and what cancelling does to it.
use boilerplate_go_grpc_micr.Common.{
  ◌≡◌, ◌≢◌, refl, ap, sym, ◌∙◌, ◌⊎◌, ◌↔◌, inl, inr, Bool, true, false, arith, List, [], ◌∷◌, All,
  All-both,
}
use boilerplate_go_grpc_micr.Common.Int.{pos, IsInt32}
use boilerplate_go_grpc_micr.Common.Text.{is_empty, text_eq→eq, eq→text_eq}
use boilerplate_go_grpc_micr.Order.Errors.{Sentinel, Result, ok, err}
use boilerplate_go_grpc_micr.Order.Money.{Money, Casing, validate, valid_currency_code}
use boilerplate_go_grpc_micr.Order.Money.Bounds.{IsAmount, value}
use boilerplate_go_grpc_micr.Order.Status.{
  Status, cancelled, pending, confirmed, status_valid, can_transition_to,
}
use boilerplate_go_grpc_micr.Order.Aggregate.{
  Item, Order, Time, compute_total, same_money, validate_order, cancel, no_items,
}
use boilerplate_go_grpc_micr.Order.Aggregate.Items.{IsItem, validate_items_iff}
use boilerplate_go_grpc_micr.Order.Aggregate.Totals.{
  IsPricedIn, dues, compute_total-Exact, compute_total_one_currency,
}
use mathlib.Core.Path.{subst}
use mathlib.Core.Bool.{false≢true}
use boilerplate_go_grpc_micr.Order.Money.Construct.{validate_iff}

pub record IsOrder ⦃c : Casing⦄ (o : Order) : Type 0 where
  pub tenant_given : is_empty o.tenant_id ≡ false
  pub customer_given : is_empty o.customer_id ≡ false
  pub items_valid : All IsItem o.items
  pub status_known : status_valid o.status ≡ true
  pub total_computed : compute_total o.items ≡ ok o.total

same_money→eq : (m o : Money) → same_money m o ≡ true → m ≡ o
unfolding same_money
same_money→eq m o h = ground (arith, text_eq→eq m.currency_code o.currency_code)

pub eq→same_money : (m o : Money) → m ≡ o → same_money m o ≡ true
unfolding same_money
eq→same_money m o e = ground (arith, eq→text_eq m.currency_code o.currency_code)

items_given :
    ⦃c : Casing⦄ (items : List Item) {t : Money}
    → compute_total items ≡ ok t
    → no_items items ≡ false
unfolding compute_total
items_given [] e = cc
items_given (i ∷ rest) e = refl

validate_order-IsOrder : ⦃c : Casing⦄ (o : Order) → validate_order o ≡ ok tt → IsOrder o
unfolding validate_order
validate_order-IsOrder o h = go (compute_total o.items) refl
  where
    go : (r : Result Money) → compute_total o.items ≡ r → IsOrder o
    go (ok want) e = ground (arith, validate_items_iff o.items, same_money→eq want o.total)
    go (err x) e = absurd (ground arith)

IsOrder-validate_order : ⦃c : Casing⦄ (o : Order) → IsOrder o → validate_order o ≡ ok tt
unfolding validate_order
IsOrder-validate_order o v = ground (
  arith,
  validate_items_iff o.items,
  eq→same_money o.total o.total,
  items_given o.items v.total_computed,
)

-- `Order.Validate` passes exactly for a well-formed order whose stored total is the one that
-- `ComputeTotal` derives from its items.
pub validate_order_iff : ⦃c : Casing⦄ (o : Order) → (validate_order o ≡ ok tt) ↔ IsOrder o
validate_order_iff o = (validate_order-IsOrder o, IsOrder-validate_order o)

-- Every quantity is an int32.
abbrev pub HasInt32 : List Item → Type 0
HasInt32 = All (λ i. IsInt32 i.quantity)

-- A validated order is priced in one currency, and its total is exactly the sum of price times
-- quantity over its items, in canonical form.
pub validate_order-total :
    ⦃c : Casing⦄ (o : Order)
    → HasInt32 o.items
    → validate_order o ≡ ok tt
    → All (IsPricedIn o.total.currency_code) o.items
      × (value o.total ≡ pos (dues o.items))
      × IsAmount o.total
validate_order-total o range h =
    let v = validate_order-IsOrder o h in
    let (code, given, priced) =
      compute_total_one_currency o.items (All-both _ _ o.items v.items_valid range)
        v.total_computed in
    let exact = rw v.total_computed at (compute_total-Exact code o.items given priced) in
    (subst (λ code'. All (IsPricedIn code') o.items) (sym (exact.0)) priced, exact.1, exact.2)

cancellable : (s : Status) → can_transition_to s cancelled ≡ true → (s ≡ pending) ⊎ (s ≡ confirmed)
unfolding can_transition_to
cancellable pending h = inl refl
cancellable confirmed h = inr refl
cancellable Status.unspecified h = cc
cancellable Status.shipped h = cc
cancellable cancelled h = cc
cancellable (Status.undeclared n) h = cc

-- What a call of `Cancel` on an order does, by how it ends.
abbrev pub Cancels : Order → Time → Result Order → Type 0
Cancels o at (ok o') =
    ((o.status ≡ pending) ⊎ (o.status ≡ confirmed))
    × (o' ≡ record o { status = cancelled; updated_at = at })
    × (cancel o' at ≡ err (Sentinel.invalid_transition ∷ []))
Cancels o at (err e) =
    (e ≡ Sentinel.invalid_transition ∷ []) × (o.status ≢ pending) × (o.status ≢ confirmed)

-- A pending or confirmed order is cancelled, once: its status and time of update change and
-- nothing else, and cancelling the result is refused. Any other order is refused with the
-- transition error.
cancel-Cancels : (o : Order) (at : Time) → Cancels o at (cancel o at)
unfolding cancel can_transition_to
cancel-Cancels o at = go (can_transition_to o.status cancelled) refl
  where
    go : (b : Bool) → can_transition_to o.status cancelled ≡ b → Cancels o at (cancel o at)
    go true e = rw e (cancellable o.status e, refl, refl)
    go false e = rw e (
      refl,
      (λ p. false≢true (sym e ∙ ap (λ s. can_transition_to s cancelled) p)),
      (λ p. false≢true (sym e ∙ ap (λ s. can_transition_to s cancelled) p)),
    )

-- A cancelled order passes validation if it passed before.
pub cancel-validate :
    ⦃c : Casing⦄ (o : Order) (at : Time) {o' : Order}
    → validate_order o ≡ ok tt
    → cancel o at ≡ ok o'
    → validate_order o' ≡ ok tt
unfolding cancel status_valid
cancel-validate o at h e =
    let v = validate_order-IsOrder o h in
    let done = rw e at (cancel-Cancels o at) in
    subst (λ x. validate_order x ≡ ok tt) (sym (done.1))
      (IsOrder-validate_order _ (record {
        tenant_given = v.tenant_given;
        customer_given = v.customer_given;
        items_valid = v.items_valid;
        status_known = refl;
        total_computed = v.total_computed;
      }))

pub price_valid : (i : Item) → IsItem i → validate i.unit_price ≡ ok tt
price_valid i v = (validate_iff i.unit_price).1 (v.currency_valid, v.price_canonical)

-- The code of the total is that of an item, and there is one.
code_valid :
    ⦃c : Casing⦄ (total : Money) (items : List Item)
    → compute_total items ≡ ok total
    → All (IsPricedIn total.currency_code) items
    → valid_currency_code total.currency_code ≡ true
unfolding compute_total
code_valid total [] e h = cc
code_valid total (i ∷ rest) e h = rw (← h.0.1) (h.0.0.0.currency_valid)

pub total_valid :
    ⦃c : Casing⦄ (o : Order)
    → HasInt32 o.items
    → validate_order o ≡ ok tt
    → validate o.total ≡ ok tt
total_valid o range h =
    let (priced, _, amount) = validate_order-total o range h in
    let v = (validate_order_iff o).0 h in
    (validate_iff o.total).1 (code_valid o.total o.items v.total_computed priced, amount)
