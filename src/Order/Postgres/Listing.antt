-- ===== src/Order/Postgres/Listing.antt =====
-- `List` of internal/order/orderpg, and the store as the ports of the service.
use boilerplate_go_grpc_micr.Common.{
  suc, ◌-◌, Bool, true, false, not, ◌&&◌, ◌||◌, Option, none, some, List, [], ◌∷◌, ltb, ◌==◌,
  if◌then◌else◌, length, take, keep, get_elem?,
}
use boilerplate_go_grpc_micr.Common.Text.{Text, is_empty, text_eq, text_lt}
use boilerplate_go_grpc_micr.Order.Errors.{Sentinel, Result, ok, err, fail_if}
use boilerplate_go_grpc_micr.Order.Money.{Casing}
use boilerplate_go_grpc_micr.Order.Status.{status_string, same_status, unspecified}
use boilerplate_go_grpc_micr.Order.Aggregate.{Order, Time}
use boilerplate_go_grpc_micr.Order.Cursor.{
  ListFilter, Page, TokenCodec, clamp_page_size, encode_page_token, decode_page_token,
}
use boilerplate_go_grpc_micr.Order.Ports.{Action, Ports, ◌>>=◌, ◌>>◌, lift}
use boilerplate_go_grpc_micr.Order.Rows.{OrderRow, ItemRow, Storage, to_domain}
use boilerplate_go_grpc_micr.Order.Postgres
use boilerplate_go_grpc_micr.Order.Postgres.{
  Tables, sort_lines, lines_of, transaction, with_id, with_texts,
}

-- The conditions on the tenant, the status and the customer.
unfoldable pub is_selected : Text → ListFilter → OrderRow → Bool
is_selected tenant f r =
    text_eq r.tenant_id tenant
    && ((same_status f.status unspecified || text_eq r.status (status_string f.status))
        && (is_empty f.customer_id || text_eq r.customer_id f.customer_id))

-- `(created_at, id) > (?, ?)`
unfoldable pub is_behind : Option (Time × Text) → OrderRow → Bool
is_behind none r = true
is_behind (some (after, after_id)) r =
    ltb after r.created_at || (r.created_at == after && text_lt after_id r.id)

-- The place of a cursor as the database takes it.
unfoldable pub with_place :
    ⦃s : Storage⦄
    → Option (Time × Text)
    → (Option (Time × Text) → Action Tables Page)
    → Action Tables Page
with_place none f = f none
with_place ⦃s⦄ (some (after, id)) f = with_id (s.canonical id) λ i. f (some (s.stored after, i))

-- `ORDER BY created_at, id`
unfoldable pub row_less : OrderRow → OrderRow → Bool
row_less a b =
    if not (a.created_at == b.created_at) then ltb a.created_at b.created_at else text_lt a.id b.id

unfoldable pub insert_row : OrderRow → List OrderRow → List OrderRow
insert_row r [] = r ∷ []
insert_row r (q ∷ qs) = if row_less r q then r ∷ q ∷ qs else q ∷ insert_row r qs

unfoldable pub sort_rows : List OrderRow → List OrderRow
unfolding insert_row
sort_rows [] = []
sort_rows (r ∷ rs) = insert_row r (sort_rows rs)

module _ ⦃c : Casing⦄ where
  -- The loop over the rows, each with its items in the order of their lines.
  unfoldable pub to_orders : List ItemRow → List OrderRow → Result (List Order)
  to_orders items [] = ok []
  to_orders items (r ∷ rs) = elim (to_domain r (sort_lines (lines_of r.id items))) [
    | err e ↦ err e
    | ok o ↦ elim (to_orders items rs) [ err e ↦ err e | ok os ↦ ok (o ∷ os) ]
  ]

  module _ ⦃k : TokenCodec⦄ where
    -- The page of the orders, and whether there are more.
    unfoldable pub token_page : Text → ListFilter → Bool → List Order → Result Page
    token_page tenant f false os = ok (record { orders = os; next_page_token = [] })
    token_page tenant f true os = elim (get_elem? os (length os - 1)) [
      | none ↦ ok (record { orders = os; next_page_token = [] })
      | some last ↦ elim (encode_page_token tenant f last) [
        | err e ↦ err e
        | ok token ↦ ok (record { orders = os; next_page_token = token })
      ]
    ]

    unfoldable pub page_of : Text → ListFilter → List ItemRow → List OrderRow → Result Page
    page_of tenant f items rows =
        let size = clamp_page_size f.page_size in
        elim (to_orders items (take size rows)) [
          | err e ↦ err e
          | ok os ↦ token_page tenant f (ltb size (length rows)) os
        ]

    module _ ⦃s : Storage⦄ where
      -- `List`
      unfoldable pub list : Text → ListFilter → Action Tables Page
      list tenant f = do
        lift (fail_if (is_empty tenant) (Sentinel.missing_tenant ∷ []))
        cursor ← lift (decode_page_token tenant f)
        with_texts (s.takes tenant && (is_empty f.customer_id || s.takes f.customer_id)) (
            with_place cursor λ place d.
              let selected = keep (is_behind place) (keep (is_selected tenant f) d.orders) in
              let rows = take (suc (clamp_page_size f.page_size)) (sort_rows selected) in
              (page_of tenant f d.items rows, d))

      -- The store of a request with this trace as the ports of the service.
      abbrev pub ports : Text → Ports Tables
      ports trace = record {
        create = Postgres.create;
        get = Postgres.get;
        list = list;
        update = Postgres.update;
        publish = Postgres.publish trace;
        in_tx = transaction;
      }
