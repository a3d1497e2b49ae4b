-- ===== src/Grpc/Server.antt =====
-- internal/grpcapi/server.go and `asAppError` of errmap.go: the handlers of the order service. The
-- context is what it holds of the caller; the clock and the id generator of the service are
-- inputs, and so is what becomes of each message that a stream sends.
use boilerplate_go_grpc_micr.Common.{ℕ, suc, Option, none, some, List, [], ◌∷◌}
use boilerplate_go_grpc_micr.Common.Int.{ℤ, pos}
use boilerplate_go_grpc_micr.Common.Text.{Text}
use boilerplate_go_grpc_micr.Failures.{Kind, Reason, domain_error_kind, reason_for}
use boilerplate_go_grpc_micr.Auth.{Context, tenant_from}
use boilerplate_go_grpc_micr.Order.Errors.{Err, Result, ok, err}
use boilerplate_go_grpc_micr.Order.Money.{Casing}
use boilerplate_go_grpc_micr.Order.Aggregate.{Item, Order, Time}
use boilerplate_go_grpc_micr.Order.Cursor.{Page}
use boilerplate_go_grpc_micr.Order.Ports.{Ports}
use boilerplate_go_grpc_micr.Order.Service
use boilerplate_go_grpc_micr.Order.Service.{CreateCommand}
use boilerplate_go_grpc_micr.Grpc.{
  Timestamps, OrderStatus, WireItem, WireOrder, from_proto_items, from_proto_status, to_proto_order,
  to_proto_orders,
}

-- The kind and the reason of an error; its message is left out.
pub data Refusal : Type 0 where
  no_principal : Refusal
  domain : Kind → Reason → Refusal

-- `asAppError`, of an error of the domain, which holds no other application error.
unfoldable pub as_app_error : Err → Refusal
as_app_error e = domain (domain_error_kind e) (reason_for e)

pub data Reply (A : Type 0) : Type 0 where
  replied : A → Reply A
  refused : Refusal → Reply A

-- `tenantOf`
unfoldable pub tenant_of : Context → Reply Text
unfolding tenant_from
tenant_of ctx = elim (tenant_from ctx) [ none ↦ refused no_principal | some t ↦ replied t ]

-- The end of a handler: `answer` builds the response.
unfoldable pub respond : {S A B : Type 0} → (A → B) → Result A × S → Reply B × S
respond answer (ok a, s) = (replied (answer a), s)
respond answer (err e, s) = (refused (as_app_error e), s)

-- A handler that needs a tenant.
unfoldable pub with_tenant :
    {S B : Type 0} → Reply Text → (Text → S → Reply B × S) → S → Reply B × S
with_tenant (refused r) handle s = (refused r, s)
with_tenant (replied tenant) handle s = handle tenant s

pub record CreateOrderRequest : Type 0 where
  pub customer_id : Text
  pub items : List (Option WireItem)

pub record ListOrdersRequest : Type 0 where
  pub status : OrderStatus
  pub customer_id : Text
  pub page_size : ℤ
  pub page_token : Text

pub record ListOrdersResponse : Type 0 where
  pub orders : List WireOrder
  pub next_page_token : Text

-- What becomes of one message on a stream: it cannot be sent, it is sent, or it is sent and the
-- context is done then.
pub data Sending : Type 0 where
  broken delivered last_one : Sending

-- Why a stream ends: `Send` failed, or the context is done.
pub data StreamEnd : Type 0 where
  send_failed context_done : StreamEnd

unfoldable pub after_send :
    Sending → WireOrder → List WireOrder × StreamEnd → List WireOrder × StreamEnd
after_send broken m rest = ([], send_failed)
after_send last_one m rest = (m ∷ [], context_done)
after_send delivered m rest = (m ∷ rest.0, rest.1)

module _ ⦃t : Timestamps⦄ where
  -- The loop of `WatchOrders` and the wait behind it, with the messages that were sent.
  unfoldable pub send_orders : (ℕ → Sending) → ℕ → List Order → List WireOrder × StreamEnd
  unfolding after_send
  send_orders sending i [] = ([], context_done)
  send_orders sending i (o ∷ os) =
      after_send (sending i) (to_proto_order o) (send_orders sending (suc i) os)

  module _ {S : Type 0} (p : Ports S) (ctx : Context) where
    -- The part of `CreateOrder` behind the conversion of the items.
    unfoldable pub create_converted :
        ⦃c : Casing⦄
        → CreateOrderRequest
        → Result Text
        → Time
        → Text
        → Result (List Item)
        → S
        → Reply WireOrder × S
    unfolding respond
    create_converted req new_id now tenant (err e) s = (refused (as_app_error e), s)
    create_converted req new_id now tenant (ok items) s = respond to_proto_order (
        Service.create p
          (record { tenant_id = tenant; customer_id = req.customer_id; items = items }) new_id now
          s)

    unfoldable pub create_order :
        ⦃c : Casing⦄ → CreateOrderRequest → Result Text → Time → S → Reply WireOrder × S
    unfolding with_tenant create_converted
    create_order req new_id now =
        with_tenant (tenant_of ctx)
          (λ tenant. create_converted req new_id now tenant (from_proto_items req.items))

    unfoldable pub get_order : Text → S → Reply WireOrder × S
    unfolding with_tenant respond
    get_order order_id =
        with_tenant (tenant_of ctx)
          (λ tenant s. respond to_proto_order (Service.get p tenant order_id s))

    unfoldable pub list_orders : ListOrdersRequest → S → Reply ListOrdersResponse × S
    unfolding with_tenant respond
    list_orders req = with_tenant (tenant_of ctx) (λ tenant s.
        respond
          (λ (page : Page). record {
            orders = to_proto_orders page.orders;
            next_page_token = page.next_page_token;
          })
          (Service.list p tenant
            (record {
              status = from_proto_status req.status;
              customer_id = req.customer_id;
              page_size = req.page_size;
              page_token = req.page_token;
            })
            s))

    unfoldable pub cancel_order : Text → Time → S → Reply WireOrder × S
    unfolding with_tenant respond
    cancel_order order_id now =
        with_tenant (tenant_of ctx)
          (λ tenant s. respond to_proto_order (Service.cancel_order p tenant order_id now s))

    unfoldable pub watch_orders :
        OrderStatus → (ℕ → Sending) → S → Reply (List WireOrder × StreamEnd) × S
    unfolding with_tenant respond
    watch_orders status sending = with_tenant (tenant_of ctx) (λ tenant s.
        respond (λ (page : Page). send_orders sending 0 page.orders)
          (Service.list p tenant
            (record {
              status = from_proto_status status;
              customer_id = [];
              page_size = pos 0;
              page_token = [];
            })
            s))
