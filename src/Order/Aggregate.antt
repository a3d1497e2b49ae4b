-- ===== src/Order/Aggregate.antt =====
-- Items and orders of internal/order/order.go.
pub mod Items
pub mod Totals
pub mod Orders
use boilerplate_go_grpc_micr.Common.{
  ℕ, Bool, true, false, not, ◌&&◌, ◌||◌, List, [], ◌∷◌, ltb, length,
}
use boilerplate_go_grpc_micr.Common.Int.{ℤ, pos, ltb_ℤ, eqb_ℤ}
use boilerplate_go_grpc_micr.Common.Text.{Text, is_empty, text_eq}
use boilerplate_go_grpc_micr.Order.Errors.{
  Sentinel, Result, ok, err, ◌>>=◌, ◌>>◌, fail_if, wrap_err,
}
use boilerplate_go_grpc_micr.Order.Money
use boilerplate_go_grpc_micr.Order.Money.{Money, Casing}
use boilerplate_go_grpc_micr.Order.Status.{Status, cancelled, status_valid, can_transition_to}

-- An instant, as a count of nanoseconds from the earliest one that Go represents.
abbrev pub Time : Type 0
Time = ℕ

pub record Item : Type 0 where
  pub sku : Text
  pub quantity : ℤ
  pub unit_price : Money

-- `Item.Validate`
unfoldable pub validate_item : Item → Result (Unit {0})
validate_item i = do
  fail_if (is_empty i.sku) (Sentinel.invalid_item ∷ [])
  fail_if (ltb 64 (length i.sku)) (Sentinel.invalid_item ∷ [])
  fail_if (not (ltb_ℤ (pos 0) i.quantity)) (Sentinel.invalid_item ∷ [])
  wrap_err Sentinel.invalid_item (Money.validate i.unit_price)
  fail_if (Money.is_negative i.unit_price) (Sentinel.invalid_item ∷ [])

-- `Item.LineTotal`
unfoldable pub line_total : ⦃c : Casing⦄ → Item → Result Money
line_total i = Money.mul i.unit_price i.quantity

pub record Order : Type 0 where
  pub id : Text
  pub tenant_id : Text
  pub customer_id : Text
  pub status : Status
  pub items : List Item
  pub total : Money
  pub created_at : Time
  pub updated_at : Time

-- The loop of `ComputeTotal`.
unfoldable pub add_lines : ⦃c : Casing⦄ → Money → List Item → Result Money
add_lines total [] = ok total
add_lines total (item ∷ rest) = do
  line ← line_total item
  total' ← Money.add total line
  add_lines total' rest

unfoldable pub compute_total : ⦃c : Casing⦄ → List Item → Result Money
compute_total [] = err (Sentinel.no_items ∷ [])
compute_total (item ∷ rest) =
    add_lines (Money.zero_money item.unit_price.currency_code) (item ∷ rest)

-- The loop of `Order.Validate` over the items.
unfoldable pub validate_items : List Item → Result (Unit {0})
validate_items [] = ok tt
validate_items (item ∷ rest) = do validate_item item; validate_items rest

-- `==` on `Money`, field by field.
unfoldable pub same_money : Money → Money → Bool
same_money m o =
    text_eq m.currency_code o.currency_code && (eqb_ℤ m.units o.units && eqb_ℤ m.nanos o.nanos)

abbrev pub no_items : List Item → Bool
no_items [] = true
no_items (_ ∷ _) = false

-- `Order.Validate`
unfoldable pub validate_order : ⦃c : Casing⦄ → Order → Result (Unit {0})
validate_order o = do
  fail_if (is_empty o.tenant_id) (Sentinel.missing_tenant ∷ [])
  fail_if (is_empty o.customer_id) (Sentinel.invalid_item ∷ [])
  fail_if (no_items o.items) (Sentinel.no_items ∷ [])
  validate_items o.items
  fail_if (not (status_valid o.status)) (Sentinel.invalid_transition ∷ [])
  want ← compute_total o.items
  fail_if (not (same_money want o.total)) []

-- `Order.Cancel`
unfoldable pub cancel : Order → Time → Result Order
cancel o at = do
  fail_if (not (can_transition_to o.status cancelled)) (Sentinel.invalid_transition ∷ [])
  ok (record o { status = cancelled; updated_at = at })
