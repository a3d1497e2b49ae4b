-- ===== src/Order/Ports.antt =====
-- The ports of internal/order/store.go: a call of the store or of the publisher is an action on
-- the state behind them, and `in_tx` runs one action as a transaction.
use boilerplate_go_grpc_micr.Common.Text.{Text}
use boilerplate_go_grpc_micr.Order.Errors.{Err, Result, ok, err}
use boilerplate_go_grpc_micr.Order.Aggregate.{Order, Time}
use boilerplate_go_grpc_micr.Order.Cursor.{ListFilter, Page}

-- The two event names, `EventOrderCreated` and `EventOrderCancelled`.
pub data EventType : Type 0 where
  order_created order_cancelled : EventType

pub record Event : Type 0 where
  pub event_type : EventType
  pub aggregate_id : Text
  pub tenant_id : Text
  pub occurred_at : Time
  pub order : Order

abbrev pub Action : Type 0 → Type 0 → Type 0
Action S A = S → Result A × S

module _ {S : Type 0} where
  abbrev pub pure : {A : Type 0} → A → Action S A
  pure a s = (ok a, s)

  abbrev pub fail : {A : Type 0} → Err → Action S A
  fail e s = (err e, s)

  -- A call that touches no state.
  abbrev pub lift : {A : Type 0} → Result A → Action S A
  lift r s = (r, s)

infixl 5 ◌>>=◌ ◌>>◌
abbrev pub ◌>>=◌ : {S A B : Type 0} → Action S A → (A → Action S B) → Action S B
◌>>=◌ m f s = let (r, s') = m s in elim r [ ok a ↦ f a s' | err e ↦ (err e, s') ]

abbrev pub ◌>>◌ : {S B : Type 0} → Action S (Unit {0}) → Action S B → Action S B
m >> k = m >>= λ _. k

-- `Store`, `EventPublisher` and `Atomic`.
pub record Ports (S : Type 0) : Type 0 where
  pub create : Order → Action S (Unit {0})
  pub get : Text → Text → Action S Order
  pub list : Text → ListFilter → Action S Page
  pub update : Order → Action S (Unit {0})
  pub publish : Event → Action S (Unit {0})
  pub in_tx : Action S Order → Action S Order
