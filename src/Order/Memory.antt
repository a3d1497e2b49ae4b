-- ===== src/Order/Memory.antt =====
-- internal/order/ordermem: the in-memory store. A Go map is a list of its entries, in the order
-- in which a `range` may yield them.
pub mod Map
pub mod Sorting
pub mod Pages
pub mod Paging
use boilerplate_go_grpc_micr.Common.{
  ℕ, suc, ◌-◌, Bool, true, false, not, ◌&&◌, ◌||◌, Option, none, some, List, [], ◌∷◌, ◌++◌, map,
  ltb, ◌==◌, if◌then◌else◌, length, take, keep, get_elem?,
}
use boilerplate_go_grpc_micr.Common.Text.{Text, is_empty, text_eq, text_lt}
use boilerplate_go_grpc_micr.Order.Errors.{Sentinel, Result, ok, err, fail_if}
use boilerplate_go_grpc_micr.Order.Status.{Status, status_number, same_status, unspecified}
use boilerplate_go_grpc_micr.Order.Aggregate.{Order, Time}
use boilerplate_go_grpc_micr.Order.Cursor.{
  ListFilter, Page, TokenCodec, clamp_page_size, encode_page_token, decode_page_token,
}
use boilerplate_go_grpc_micr.Order.Ports.{Event, Action, Ports, ◌>>=◌, ◌>>◌, pure, fail, lift}

abbrev pub Entries : Type 0
Entries = List (Text × Order)

-- `state`
pub record State : Type 0 where
  pub orders : Entries
  pub events : List Event

unfoldable pub key : Text → Text → Text
key tenant id = tenant ++ 0 ∷ id

-- `orders[k]`
unfoldable pub lookup : Text → Entries → Option Order
lookup k [] = none
lookup k ((j, o) ∷ d) = if text_eq j k then some o else lookup k d

-- `orders[k] = o`
unfoldable pub insert : Text → Order → Entries → Entries
insert k o [] = (k, o) ∷ []
insert k o ((j, p) ∷ d) = if text_eq j k then (k, o) ∷ d else (j, p) ∷ insert k o d

-- `New`
unfoldable pub new : State
new = record { orders = []; events = [] }

abbrev pub is_some : Option Order → Bool
is_some none = false
is_some (some _) = true

unfoldable pub create : Order → Action State (Unit {0})
create o = do
  lift (fail_if (is_empty o.tenant_id) (Sentinel.missing_tenant ∷ []))
  λ s.
      if is_some (lookup (key o.tenant_id o.id) s.orders)
      then (err (Sentinel.duplicate ∷ []), s)
      else (ok tt, record s { orders = insert (key o.tenant_id o.id) o s.orders })

unfoldable pub get : Text → Text → Action State Order
get tenant id = do
  lift (fail_if (is_empty tenant) (Sentinel.missing_tenant ∷ []))
  λ s. elim (lookup (key tenant id) s.orders) [
    | none ↦ (err (Sentinel.not_found ∷ []), s)
    | some o ↦ (ok o, s)
  ]

unfoldable pub update : Order → Action State (Unit {0})
update o = do
  lift (fail_if (is_empty o.tenant_id) (Sentinel.missing_tenant ∷ []))
  λ s.
      if is_some (lookup (key o.tenant_id o.id) s.orders)
      then (ok tt, record s { orders = insert (key o.tenant_id o.id) o s.orders })
      else (err (Sentinel.not_found ∷ []), s)

-- The filters of `List`.
unfoldable pub matches : Text → ListFilter → Order → Bool
matches tenant f o =
    text_eq o.tenant_id tenant
    && ((same_status f.status unspecified || same_status o.status f.status)
        && (is_empty f.customer_id || text_eq o.customer_id f.customer_id))

-- The order of the listing: by time of creation, then by id.
unfoldable pub less : Order → Order → Bool
less a b =
    if not (a.created_at == b.created_at) then ltb a.created_at b.created_at else text_lt a.id b.id

unfoldable pub insert_sorted : Order → List Order → List Order
insert_sorted o [] = o ∷ []
insert_sorted o (p ∷ ps) = if less o p then o ∷ p ∷ ps else p ∷ insert_sorted o ps

-- `sort.Slice`: orders with different keys have one sorted arrangement, whatever the algorithm.
unfoldable pub sorted : List Order → List Order
unfolding insert_sorted
sorted [] = []
sorted (o ∷ os) = insert_sorted o (sorted os)

-- The test that ends the loop over the cursor.
unfoldable pub is_after : Time × Text → Order → Bool
is_after (after, after_id) o =
    ltb after o.created_at || (o.created_at == after && text_lt after_id o.id)

unfoldable pub skip_until : Time × Text → List Order → List Order
skip_until c [] = []
skip_until c (o ∷ os) = if is_after c o then o ∷ os else skip_until c os

abbrev pub resume : Option (Time × Text) → List Order → List Order
resume none os = os
resume (some c) os = skip_until c os

module _ ⦃k : TokenCodec⦄ where
  -- The last part of `List`. The element read by `page.Orders[size-1]` is there: a read out of
  -- range is the error of no sentinel.
  unfoldable pub cut_page : Text → ListFilter → List Order → Result Page
  cut_page tenant f rest =
      let size = clamp_page_size f.page_size in
      if ltb size (length rest)
      then elim (get_elem? (take size rest) (size - 1)) [
        | none ↦ err []
        | some last ↦ elim (encode_page_token tenant f last) [
          | ok token ↦ ok (record { orders = take size rest; next_page_token = token })
          | err e ↦ err e
        ]
      ]
      else ok (record { orders = rest; next_page_token = [] })

  unfoldable pub list : Text → ListFilter → Action State Page
  list tenant f = do
    lift (fail_if (is_empty tenant) (Sentinel.missing_tenant ∷ []))
    cursor ← lift (decode_page_token tenant f)
    λ s. (
      cut_page tenant f
          (resume cursor (sorted (keep (matches tenant f) (map (λ e. e.1) s.orders)))),
      s,
    )

unfoldable pub publish : Event → Action State (Unit {0})
publish e s = (ok tt, record s { events = s.events ++ e ∷ [] })

-- `InTx`: the callback works on a copy, which replaces the state if it succeeds.
unfoldable pub in_tx : Action State Order → Action State Order
in_tx fn s = let (r, staged) = fn s in elim r [ ok a ↦ (ok a, staged) | err e ↦ (err e, s) ]

-- The store as the ports of the service.
abbrev pub ports : ⦃k : TokenCodec⦄ → Ports State
ports = record {
  create = create;
  get = get;
  list = list;
  update = update;
  publish = publish;
  in_tx = in_tx;
}
