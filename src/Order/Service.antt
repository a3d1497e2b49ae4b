-- ===== src/Order/Service.antt =====
-- internal/order/service.go: the business rules over the ports. The clock and the id generator
-- are injected in the source; here each call takes the instant and the id that they return.
pub mod Creating
pub mod Cancelling
pub mod History
use boilerplate_go_grpc_micr.Common.{Bool, true, false, not, List, [], ◌∷◌}
use boilerplate_go_grpc_micr.Common.Int.{ℤ, pos}
use boilerplate_go_grpc_micr.Common.Text.{Text, is_empty}
use boilerplate_go_grpc_micr.Order.Errors.{Sentinel, Result, ok, err, fail_if}
use boilerplate_go_grpc_micr.Order.Money.{Casing}
use boilerplate_go_grpc_micr.Order.Status.{pending}
use boilerplate_go_grpc_micr.Order.Aggregate.{
  Item, Order, Time, compute_total, validate_order, cancel, no_items,
}
use boilerplate_go_grpc_micr.Order.Cursor.{ListFilter, Page, clamp_page_size}
use boilerplate_go_grpc_micr.Order.Ports.{
  EventType, Event, Action, Ports, ◌>>=◌, ◌>>◌, pure, fail, lift,
}

pub record CreateCommand : Type 0 where
  pub tenant_id : Text
  pub customer_id : Text
  pub items : List Item

abbrev pub event_of : EventType → Time → Order → Event
event_of kind now o = record {
  event_type = kind;
  aggregate_id = o.id;
  tenant_id = o.tenant_id;
  occurred_at = now;
  order = o;
}

module _ {S : Type 0} (p : Ports S) where
  -- The transaction of `Create`: the insert, then the event.
  unfoldable pub create_tx : Order → Time → Action S Order
  create_tx o now = do p.create o; p.publish (event_of EventType.order_created now o); pure o

  unfoldable pub create : ⦃c : Casing⦄ → CreateCommand → Result Text → Time → Action S Order
  create cmd new_id now = do
    lift (fail_if (is_empty cmd.tenant_id) (Sentinel.missing_tenant ∷ []))
    lift (fail_if (no_items cmd.items) (Sentinel.no_items ∷ []))
    total ← lift (compute_total cmd.items)
    id ← lift new_id
    let o : Order = record {
      id = id;
      tenant_id = cmd.tenant_id;
      customer_id = cmd.customer_id;
      status = pending;
      items = cmd.items;
      total = total;
      created_at = now;
      updated_at = now;
    }
    lift (validate_order o)
    p.in_tx (create_tx o now)

  unfoldable pub get : Text → Text → Action S Order
  get tenant id = do
    lift (fail_if (is_empty tenant) (Sentinel.missing_tenant ∷ []))
    p.get tenant id

  unfoldable pub list : Text → ListFilter → Action S Page
  list tenant f = do
    lift (fail_if (is_empty tenant) (Sentinel.missing_tenant ∷ []))
    p.list tenant (record f { page_size = pos (clamp_page_size f.page_size) })

  -- The transaction of `Cancel`: the read, the transition, the write, then the event.
  unfoldable pub cancel_tx : Text → Text → Time → Action S Order
  cancel_tx tenant id now = do
    o ← p.get tenant id
    o' ← lift (cancel o now)
    p.update o'
    p.publish (event_of EventType.order_cancelled now o')
    pure o'

  unfoldable pub cancel_order : Text → Text → Time → Action S Order
  cancel_order tenant id now = do
    lift (fail_if (is_empty tenant) (Sentinel.missing_tenant ∷ []))
    p.in_tx (cancel_tx tenant id now)
