-- ===== src/Order/Rows/RoundTrip.antt =====
-- A valid order survives the trip through the tables.
use boilerplate_go_grpc_micr.Common.{ℕ, suc, ◌≡◌, refl, ap, ◌∙◌, inr, List, [], ◌∷◌, All, arith}
use boilerplate_go_grpc_micr.Common.Int.{
  pos, ◌+ℤ◌, wrap64, wrap64_exact, tdiv, trem, eq_of_parts, +ℤ_parts,
}
use boilerplate_go_grpc_micr.Common.Text.{Text}
use boilerplate_go_grpc_micr.Order.Errors.{ok}
use boilerplate_go_grpc_micr.Order.Money.{
  Money, Casing, nanos_per_unit, validate, agree, normalized, new_money,
}
use boilerplate_go_grpc_micr.Order.Money.Bounds.{IsAmount, tdiv_parts, trem_parts}
use boilerplate_go_grpc_micr.Order.Money.Construct.{validate_iff}
use boilerplate_go_grpc_micr.Order.Status.Lifecycle.{parse_status-string}
use boilerplate_go_grpc_micr.Order.Aggregate.{Item, Order, validate_order}
use boilerplate_go_grpc_micr.Order.Aggregate.Items.{IsItem}
use boilerplate_go_grpc_micr.Order.Aggregate.Orders.{
  validate_order_iff, HasInt32, price_valid, total_valid,
}
use boilerplate_go_grpc_micr.Order.Rows.{
  Storage, item_row, item_rows, order_row, to_item, to_items, to_domain,
}

no_carry : (m : Money) → IsAmount m → tdiv m.nanos (pos nanos_per_unit) ≡ pos 0
no_carry m v = eq_of_parts _ _ (omega (arith, tdiv_parts m.nanos))

no_cut : (m : Money) → IsAmount m → trem m.nanos nanos_per_unit ≡ m.nanos
no_cut m v = eq_of_parts _ _ (omega (arith, trem_parts m.nanos))

no_wrap : (m : Money) → IsAmount m → wrap64 (m.units +ℤ pos 0) ≡ m.units
no_wrap m v =
    let same : m.units +ℤ pos 0 ≡ m.units =
      eq_of_parts _ _ (omega (arith, +ℤ_parts m.units (pos 0))) in
    ap wrap64 same ∙ wrap64_exact m.units (ground arith)

no_change : (m : Money) → IsAmount m → agree m.units m.nanos ≡ (m.units, m.nanos)
unfolding agree
no_change m v = ground arith

pub new_money-validate :
    ⦃c : Casing⦄ (m : Money) → validate m ≡ ok tt → new_money m.currency_code m.units m.nanos ≡ ok m
unfolding new_money normalized
new_money-validate ⦃c⦄ m h =
    let (valid, v) = (validate_iff m).0 h in
    rw
      (
        no_carry m v,
        no_cut m v,
        no_wrap m v,
        no_change m v,
        c.to_upper_fixed m.currency_code valid,
        h,
      )
      refl

items_back :
    ⦃c : Casing⦄ (id : Text) (n : ℕ) (items : List Item)
    → All IsItem items
    → to_items (item_rows id n items) ≡ ok items
unfolding to_items to_item item_rows item_row
items_back id n [] h = refl
items_back id n (i ∷ items) h =
    rw (new_money-validate i.unit_price (price_valid i h.0), items_back id (suc n) items h.1) refl

-- The instants of the order are stored as they are.
abbrev pub HasStored : ⦃s : Storage⦄ → Order → Type 0
HasStored ⦃s⦄ o = (s.stored o.created_at ≡ o.created_at) × (s.stored o.updated_at ≡ o.updated_at)

-- An order that passes `Order.Validate`, with int32 quantities and instants that the database
-- stores as they are, is read back from its rows as it was.
pub to_domain-order_row :
    ⦃c : Casing⦄ ⦃s : Storage⦄ (o : Order)
    → HasInt32 o.items
    → HasStored o
    → validate_order o ≡ ok tt
    → to_domain (order_row o) (item_rows o.id 0 o.items) ≡ ok o
unfolding to_domain order_row
to_domain-order_row o range (created, updated) h =
    let v = (validate_order_iff o).0 h in
    rw
      (
        parse_status-string o.status (inr v.status_known),
        new_money-validate o.total (total_valid o range h),
        items_back o.id 0 o.items v.items_valid,
        created,
        updated,
      )
      refl
