-- ===== src/Grpc/RoundTrip.antt =====
-- A valid order survives the trip over the wire.
use boilerplate_go_grpc_micr.Common.{◌≡◌, refl, true, some, List, [], ◌∷◌, map, All}
use boilerplate_go_grpc_micr.Order.Errors.{ok}
use boilerplate_go_grpc_micr.Order.Money.{Money, Casing, validate}
use boilerplate_go_grpc_micr.Order.Status.{Status, status_valid}
use boilerplate_go_grpc_micr.Order.Aggregate.{Item, Order, validate_order}
use boilerplate_go_grpc_micr.Order.Aggregate.Items.{IsItem}
use boilerplate_go_grpc_micr.Order.Aggregate.Orders.{
  validate_order_iff, HasInt32, price_valid, total_valid,
}
use boilerplate_go_grpc_micr.Grpc.{
  Timestamps, to_proto_money, from_proto_money, to_proto_status, from_proto_status, to_proto_item,
  from_proto_item, from_proto_items, to_proto_order, from_proto_order,
}

money_back : (m : Money) → validate m ≡ ok tt → from_proto_money (some (to_proto_money m)) ≡ ok m
unfolding from_proto_money to_proto_money
money_back m h = rw h

status_back : (s : Status) → status_valid s ≡ true → from_proto_status (to_proto_status s) ≡ s
unfolding from_proto_status to_proto_status status_valid
status_back Status.pending h = refl
status_back Status.confirmed h = refl
status_back Status.shipped h = refl
status_back Status.cancelled h = refl
status_back Status.unspecified h = cc
status_back (Status.undeclared n) h = cc

items_back :
    (items : List Item)
    → All IsItem items
    → from_proto_items (map (λ i. some (to_proto_item i)) items) ≡ ok items
unfolding from_proto_items from_proto_item to_proto_item
items_back [] h = refl
items_back (i ∷ rest) h = rw (money_back i.unit_price (price_valid i h.0), items_back rest h.1) refl

-- An order that passes `Order.Validate`, with int32 quantities, is read back from its message as it
-- was.
pub from_proto_order-to_proto_order :
    ⦃c : Casing⦄ ⦃t : Timestamps⦄ (o : Order)
    → HasInt32 o.items
    → validate_order o ≡ ok tt
    → from_proto_order (some (to_proto_order o)) ≡ ok o
unfolding from_proto_order to_proto_order
from_proto_order-to_proto_order ⦃t = t⦄ o range h =
    let v = (validate_order_iff o).0 h in
    rw
      (
        items_back o.items v.items_valid,
        money_back o.total (total_valid o range h),
        status_back o.status v.status_known,
        t.as_time-stamp o.created_at,
        t.as_time-stamp o.updated_at,
      )
      refl
