-- ===== src/Projection.antt =====
-- internal/order/orderproj: the projection that counts each tenant's orders. A transaction is
-- one function of the two tables, and its outcome takes effect only if it commits.
pub mod Once
use boilerplate_go_grpc_micr.Common.{
  ℕ, suc, ◌+◌, max, Bool, true, false, not, ◌&&◌, ◌||◌, Option, none, some, List, [], ◌∷◌,
  if◌then◌else◌,
}
use boilerplate_go_grpc_micr.Common.Text.{Text, codes, is_empty, text_eq}
use boilerplate_go_grpc_micr.Events.{Event, Handled, done, failing, permanently}

-- A row of `order_counts`.
pub record Count : Type 0 where
  pub tenant_id : Text
  pub orders : ℕ
  pub last_order_at : ℕ

-- The tables `processed_events` and `order_counts`.
pub record Db : Type 0 where
  pub processed : List (Text × Text)
  pub counts : List Count

-- Which statements of the database succeed.
pub record Luck : Type 0 where
  pub begins : Bool
  pub claims : Bool
  pub projects : Bool
  pub commits : Bool

unfoldable pub is_processed : Text → Text → List (Text × Text) → Bool
is_processed consumer id [] = false
is_processed consumer id ((c, i) ∷ rows) =
    text_eq c consumer && text_eq i id || is_processed consumer id rows

-- The upsert of `order_counts`.
unfoldable pub count_one : Text → ℕ → List Count → List Count
count_one tenant at [] = record { tenant_id = tenant; orders = 1; last_order_at = at } ∷ []
count_one tenant at (c ∷ cs) =
    if text_eq c.tenant_id tenant
    then record c { orders = c.orders + 1; last_order_at = max c.last_order_at at } ∷ cs
    else c ∷ count_one tenant at cs

-- The transaction of `Handle`.
unfoldable pub apply_event : Text → Luck → Text → Event → Db → Handled × Db
apply_event consumer l tenant e db =
    if not l.begins
    then (failing (codes "begin"), db)
    else if not l.claims
    then (failing (codes "claim event"), db)
    else if is_processed consumer e.id db.processed
    then (done, db)
    else if not l.projects
    then (failing (codes "project"), db)
    else if not l.commits
    then (failing (codes "commit projection"), db)
    else (
      done,
      record {
        processed = (consumer, e.id) ∷ db.processed;
        counts = count_one tenant e.occurred_at db.counts;
      },
    )

-- `Handle`; `decode` reads the tenant of the snapshot in a payload, if it parses.
unfoldable pub handle : Text → (Text → Option Text) → Luck → Event → Db → Handled × Db
handle consumer decode l e db =
    if not (text_eq e.event_type (codes "order.v1.OrderCreated"))
    then (done, db)
    else elim (decode e.payload) [
      | none ↦ (permanently (codes "decode payload"), db)
      | some snapshot_tenant ↦
          let tenant = if is_empty e.tenant_id then snapshot_tenant else e.tenant_id in
          if is_empty tenant
          then (permanently (codes "event carries no tenant"), db)
          else apply_event consumer l tenant e db
    ]
