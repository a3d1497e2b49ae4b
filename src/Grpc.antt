-- ===== src/Grpc.antt =====
-- internal/grpcapi/convert.go: between the messages of the API and the values of the domain. A
-- pointer is an `Option`, with `none` for nil. Messages of errors are left out, as in the domain.
pub mod RoundTrip
pub mod Server
pub mod Calls
use boilerplate_go_grpc_micr.Common.{ℕ, ◌≡◌, Option, none, some, List, [], ◌∷◌, map}
use boilerplate_go_grpc_micr.Common.Int.{ℤ}
use boilerplate_go_grpc_micr.Common.Text.{Text}
use boilerplate_go_grpc_micr.Order.Errors.{Sentinel, Result, ok, err, ◌>>=◌, ◌>>◌}
use boilerplate_go_grpc_micr.Order.Money.{Money, validate}
use boilerplate_go_grpc_micr.Order.Status
use boilerplate_go_grpc_micr.Order.Status.{Status}
use boilerplate_go_grpc_micr.Order.Aggregate.{Item, Order, Time}

-- The messages of proto/order/v1/order.proto.
pub record WireMoney : Type 0 where
  pub currency_code : Text
  pub units : ℤ
  pub nanos : ℤ

-- An open enum: `unlisted` is a number that no name of the schema has.
pub data OrderStatus : Type 0 where
  unspecified pending confirmed shipped cancelled : OrderStatus
  unlisted : ℤ → OrderStatus

pub record WireItem : Type 0 where
  pub sku : Text
  pub quantity : ℤ
  pub unit_price : Option WireMoney

-- Seconds and nanoseconds of google.protobuf.Timestamp.
abbrev pub Stamp : Type 0
Stamp = ℤ × ℤ

pub record WireOrder : Type 0 where
  pub order_id : Text
  pub tenant_id : Text
  pub customer_id : Text
  pub status : OrderStatus
  pub items : List (Option WireItem)
  pub total : Option WireMoney
  pub created_at : Option Stamp
  pub updated_at : Option Stamp

-- `timestamppb.New` and `AsTime`, which reads an absent stamp too: an instant is read back as it
-- was.
pub record Timestamps : Type 0 where
  pub stamp : Time → Stamp
  pub as_time : Option Stamp → Time
  pub as_time-stamp : (t : Time) → as_time (some (stamp t)) ≡ t

unfoldable pub to_proto_money : Money → WireMoney
to_proto_money m = record { currency_code = m.currency_code; units = m.units; nanos = m.nanos }

unfoldable pub from_proto_money : Option WireMoney → Result Money
from_proto_money none = err (Sentinel.invalid_item ∷ [])
from_proto_money (some m) = do
  let money : Money = record { currency_code = m.currency_code; units = m.units; nanos = m.nanos }
  validate money
  ok money

unfoldable pub to_proto_status : Status → OrderStatus
to_proto_status Status.pending = OrderStatus.pending
to_proto_status Status.confirmed = OrderStatus.confirmed
to_proto_status Status.shipped = OrderStatus.shipped
to_proto_status Status.cancelled = OrderStatus.cancelled
to_proto_status _ = OrderStatus.unspecified

unfoldable pub from_proto_status : OrderStatus → Status
from_proto_status OrderStatus.pending = Status.pending
from_proto_status OrderStatus.confirmed = Status.confirmed
from_proto_status OrderStatus.shipped = Status.shipped
from_proto_status OrderStatus.cancelled = Status.cancelled
from_proto_status _ = Status.unspecified

unfoldable pub to_proto_item : Item → WireItem
to_proto_item i = record {
  sku = i.sku;
  quantity = i.quantity;
  unit_price = some (to_proto_money i.unit_price);
}

unfoldable pub from_proto_item : Option WireItem → Result Item
from_proto_item none = err (Sentinel.invalid_item ∷ [])
from_proto_item (some i) = do
  price ← from_proto_money i.unit_price
  ok (record { sku = i.sku; quantity = i.quantity; unit_price = price })

unfoldable pub from_proto_items : List (Option WireItem) → Result (List Item)
from_proto_items [] = ok []
from_proto_items (pi ∷ rest) = do
  item ← from_proto_item pi
  out ← from_proto_items rest
  ok (item ∷ out)

module _ ⦃t : Timestamps⦄ where
  unfoldable pub to_proto_order : Order → WireOrder
  to_proto_order o = record {
    order_id = o.id;
    tenant_id = o.tenant_id;
    customer_id = o.customer_id;
    status = to_proto_status o.status;
    items = map (λ i. some (to_proto_item i)) o.items;
    total = some (to_proto_money o.total);
    created_at = some (t.stamp o.created_at);
    updated_at = some (t.stamp o.updated_at);
  }

  unfoldable pub to_proto_orders : List Order → List WireOrder
  to_proto_orders os = map to_proto_order os

  unfoldable pub from_proto_order : Option WireOrder → Result Order
  from_proto_order none = err []
  from_proto_order (some p) = do
    items ← from_proto_items p.items
    total ← from_proto_money p.total
    ok (record {
      id = p.order_id;
      tenant_id = p.tenant_id;
      customer_id = p.customer_id;
      status = from_proto_status p.status;
      items = items;
      total = total;
      created_at = t.as_time p.created_at;
      updated_at = t.as_time p.updated_at;
    })
