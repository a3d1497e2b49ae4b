-- ===== src/Order/Postgres.antt =====
-- internal/order/orderpg: the store over PostgreSQL. A statement is what SQL says of it over the
-- tables of internal/platform/migrations, whose keys and checks it keeps, and it fails for a text
-- or a number of parameters that PostgreSQL does not take; it fails by no other cause, such as a
-- lost connection. A statement that fails undoes its transaction. The guard of
-- internal/platform/gormx adds the tenant's predicate to a query that has it already.
pub mod Listing
pub mod Lines
pub mod Statements
pub mod Agreement
pub mod Inserting
pub mod Updating
pub mod Selecting
pub mod Cuts
pub mod Pages
pub mod Transactions
pub mod Serving
pub mod Requests
use boilerplate_go_grpc_micr.Common.{
  ℕ, zero, suc, ◌-◌, Bool, true, false, not, ◌&&◌, ◌||◌, Option, none, some, List, [], ◌∷◌, ◌++◌,
  map, ltb, ◌==◌, if◌then◌else◌, length, take, keep, get_elem?,
}
use boilerplate_go_grpc_micr.Common.Int.{ℤ, pos, negsuc, ltb_ℤ}
use boilerplate_go_grpc_micr.Common.Text.{Text, codes, is_empty, text_eq, text_lt}
use boilerplate_go_grpc_micr.Order.Errors.{Sentinel, Result, ok, err, fail_if}
use boilerplate_go_grpc_micr.Order.Money.{Casing, Money, new_money, nanos_per_unit}
use boilerplate_go_grpc_micr.Order.Status.{
  Status, status_string, parse_status, same_status, unspecified,
}
use boilerplate_go_grpc_micr.Order.Aggregate.{Item, Order, Time}
use boilerplate_go_grpc_micr.Order.Cursor.{
  ListFilter, Page, TokenCodec, clamp_page_size, encode_page_token, decode_page_token,
}
use boilerplate_go_grpc_micr.Order.Ports.{
  EventType, Event, Action, Ports, ◌>>=◌, ◌>>◌, pure, fail, lift,
}
use boilerplate_go_grpc_micr.Order.Rows.{
  OrderRow, ItemRow, Storage, item_rows, order_row, to_domain, fits,
}
use boilerplate_go_grpc_micr.Outbox.{Row}

-- The tables, and the next number of the sequence of the outbox's ids.
pub record Tables : Type 0 where
  pub orders : List OrderRow
  pub items : List ItemRow
  pub outbox : List Row
  pub next_id : ℕ

-- `SELECT … FROM order_items WHERE order_id = id ORDER BY line_no`
unfoldable pub insert_line : ItemRow → List ItemRow → List ItemRow
insert_line r [] = r ∷ []
insert_line r (q ∷ qs) = if ltb r.line_no q.line_no then r ∷ q ∷ qs else q ∷ insert_line r qs

unfoldable pub sort_lines : List ItemRow → List ItemRow
unfolding insert_line
sort_lines [] = []
sort_lines (r ∷ rs) = insert_line r (sort_lines rs)

abbrev pub lines_of : Text → List ItemRow → List ItemRow
lines_of id items = keep (λ r. text_eq r.order_id id) items

-- `SELECT … FROM orders WHERE tenant_id = … AND id = …`, of which there is at most one row, and
-- whether there is a row of the primary key.
unfoldable pub row_of : Text → Text → List OrderRow → Option OrderRow
row_of tenant id [] = none
row_of tenant id (r ∷ rs) =
    if text_eq r.tenant_id tenant && text_eq r.id id then some r else row_of tenant id rs

unfoldable pub has_row : Text → List OrderRow → Bool
has_row id [] = false
has_row id (r ∷ rs) = text_eq r.id id || has_row id rs

-- The checks of the tables; below, a unique violation and a check violation as `mapWriteError`
-- maps them.
abbrev pub passes_checks : OrderRow → Bool
passes_checks r =
    not (is_empty r.tenant_id)
    && (ltb_ℤ (negsuc 999999999) r.total_nanos && ltb_ℤ r.total_nanos (pos 1000000000))

abbrev pub passes_check : ItemRow → Bool
passes_check r = ltb_ℤ (pos 0) r.quantity

unfoldable pub all_pass : List ItemRow → Bool
all_pass [] = true
all_pass (r ∷ rs) = passes_check r && all_pass rs

unfoldable pub has_line : ItemRow → List ItemRow → Bool
has_line r [] = false
has_line r (q ∷ qs) = (text_eq q.order_id r.order_id && (q.line_no == r.line_no)) || has_line r qs

unfoldable pub any_taken : List ItemRow → List ItemRow → Bool
any_taken [] items = false
any_taken (r ∷ rs) items = has_line r items || any_taken rs items

-- A statement, and whether PostgreSQL takes its texts and the number of its parameters: if not, an
-- error of no sentinel.
unfoldable pub with_texts : {A : Type 0} → Bool → Action Tables A → Action Tables A
with_texts false f d = (err [], d)
with_texts true f d = f d

unfoldable pub all_taken : ⦃s : Storage⦄ → List ItemRow → Bool
all_taken [] = true
all_taken ⦃s⦄ (r ∷ rs) = s.takes r.sku && all_taken rs

-- A statement on an id. A text that is no UUID is an error of no sentinel.
unfoldable pub with_id : {A : Type 0} → Option Text → (Text → Action Tables A) → Action Tables A
with_id none f d = (err [], d)
with_id (some i) f d = f i d

-- `INSERT INTO orders` and `INSERT INTO order_items`, whose rows are of one order and have
-- different line numbers.
unfoldable pub insert_order : ⦃s : Storage⦄ → OrderRow → Action Tables (Unit {0})
insert_order ⦃s⦄ r = with_texts (s.takes r.tenant_id && s.takes r.customer_id) (
    with_id (s.canonical r.id) λ i. do
      lift (fail_if (not (passes_checks r)) (Sentinel.invalid_item ∷ []))
      λ d.
          if has_row i d.orders
          then (err (Sentinel.duplicate ∷ []), d)
          else (ok tt, record d { orders = d.orders ++ record r { id = i } ∷ [] }))

unfoldable pub under : Text → List ItemRow → List ItemRow
under i [] = []
under i (r ∷ rs) = record r { order_id = i } ∷ under i rs

unfoldable pub insert_rows : List ItemRow → Action Tables (Unit {0})
insert_rows rs = do
  lift (fail_if (not (all_pass rs)) (Sentinel.invalid_item ∷ []))
  λ d.
      if any_taken rs d.items
      then (err (Sentinel.duplicate ∷ []), d)
      else (ok tt, record d { items = d.items ++ rs })

unfoldable pub insert_items : ⦃s : Storage⦄ → Text → List ItemRow → Action Tables (Unit {0})
insert_items ⦃s⦄ id rs =
    with_texts (fits rs && all_taken rs) (with_id (s.canonical id) λ i. insert_rows (under i rs))

-- `DELETE FROM order_items WHERE order_id = …`
unfoldable pub delete_items : ⦃s : Storage⦄ → Text → Action Tables (Unit {0})
delete_items ⦃s⦄ id =
    with_id (s.canonical id)
      λ i d. (ok tt, record d { items = keep (λ r. not (text_eq r.order_id i)) d.items })

-- `db.Transaction`: an error undoes the callback, save that the sequence goes on.
unfoldable pub transaction : {A : Type 0} → Action Tables A → Action Tables A
transaction fn d =
    let (r, d') = fn d in
    elim r [ ok a ↦ (ok a, d') | err e ↦ (err e, record d { next_id = d'.next_id }) ]

-- `if len(items) > 0`, of rows of one order.
abbrev pub insert_given : ⦃s : Storage⦄ → Text → List ItemRow → Action Tables (Unit {0})
insert_given id [] = pure tt
insert_given id (r ∷ rs) = insert_items id (r ∷ rs)

-- The columns that `Update` selects, of each row that it matches.
unfoldable pub set_columns : Text → Text → OrderRow → List OrderRow → List OrderRow
set_columns tenant id new [] = []
set_columns tenant id new (r ∷ rs) =
    let rest = set_columns tenant id new rs in
    if text_eq r.tenant_id tenant && text_eq r.id id
    then record r {
      customer_id = new.customer_id;
      status = new.status;
      currency_code = new.currency_code;
      total_units = new.total_units;
      total_nanos = new.total_nanos;
      updated_at = new.updated_at;
    }
      ∷ rest
    else r ∷ rest

-- The statement, of the row that it matches, and the test of the rows that it affected.
unfoldable pub write_row : Option OrderRow → Text → Text → OrderRow → Action Tables (Unit {0})
write_row none tenant id new d = (err (Sentinel.not_found ∷ []), d)
write_row (some r) tenant id new d =
    if passes_checks new
    then (ok tt, record d { orders = set_columns tenant id new d.orders })
    else (err (Sentinel.invalid_item ∷ []), d)

unfoldable pub update_row : ⦃s : Storage⦄ → Text → Text → OrderRow → Action Tables (Unit {0})
update_row ⦃s⦄ tenant id new =
    with_texts (s.takes tenant && s.takes new.customer_id)
      (with_id (s.canonical id) λ i d. write_row (row_of tenant i d.orders) tenant i new d)

-- The two names of events.
abbrev pub event_name : EventType → Text
event_name EventType.order_created = codes "order.v1.OrderCreated"
event_name EventType.order_cancelled = codes "order.v1.OrderCancelled"

module _ ⦃s : Storage⦄ where
  -- `Create`
  unfoldable pub create : Order → Action Tables (Unit {0})
  create o = do
    lift (fail_if (is_empty o.tenant_id) (Sentinel.missing_tenant ∷ []))
    transaction (do insert_order (order_row o); insert_given o.id (item_rows o.id 0 o.items))

  -- `Update`
  unfoldable pub update : Order → Action Tables (Unit {0})
  update o = do
    lift (fail_if (is_empty o.tenant_id) (Sentinel.missing_tenant ∷ []))
    transaction (do
      update_row o.tenant_id o.id (order_row o)
      delete_items o.id
      insert_given o.id (item_rows o.id 0 o.items))

  -- `Publish`, in a request with this trace. An order without a JSON form is an error of no
  -- sentinel.
  unfoldable pub outbox_row : Text → Event → Text → Text → ℕ → Row
  outbox_row trace e aggregate payload n = record {
    id = n;
    tenant_id = e.tenant_id;
    aggregate_id = aggregate;
    event_type = event_name e.event_type;
    payload = payload;
    occurred_at = s.stored e.occurred_at;
    trace_parent = trace;
    published_at = none;
    failed_at = none;
    failure_reason = none;
  }

  unfoldable pub insert_event : Text → Event → Option Text → Action Tables (Unit {0})
  insert_event trace e none = fail []
  insert_event trace e (some payload) = with_texts (s.takes e.tenant_id && s.takes trace) (
      with_id (s.canonical e.aggregate_id) λ i d. (
        ok tt,
        record d {
          outbox = d.outbox ++ outbox_row trace e i payload d.next_id ∷ [];
          next_id = suc d.next_id;
        },
      ))

  unfoldable pub publish : Text → Event → Action Tables (Unit {0})
  publish trace e = insert_event trace e (s.marshal e.order)

module _ ⦃c : Casing⦄ ⦃s : Storage⦄ where
  -- `Get`
  unfoldable pub get : Text → Text → Action Tables Order
  get tenant id = do
    lift (fail_if (is_empty tenant) (Sentinel.missing_tenant ∷ []))
    with_texts (s.takes tenant) (
        with_id (s.canonical id) λ i d. elim (row_of tenant i d.orders) [
          | none ↦ (err (Sentinel.not_found ∷ []), d)
          | some r ↦ (to_domain r (sort_lines (lines_of r.id d.items)), d)
        ])
