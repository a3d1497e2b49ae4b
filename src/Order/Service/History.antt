-- ===== src/Order/Service/History.antt =====
-- Any sequence of requests: what is stored is what the outbox tells.
use boilerplate_go_grpc_micr.Common.{◌≡◌, refl, ap, sym, ◌∙◌, some, List, [], ◌∷◌, ◌++◌, arith, All}
use boilerplate_go_grpc_micr.Common.Text.{Text}
use boilerplate_go_grpc_micr.Order.Errors.{Result, ok, err}
use boilerplate_go_grpc_micr.Order.Money.{Casing}
use boilerplate_go_grpc_micr.Order.Aggregate.{Order, Time, validate_order}
use boilerplate_go_grpc_micr.Order.Aggregate.Orders.{cancel-validate}
use boilerplate_go_grpc_micr.Order.Cursor.{TokenCodec, ListFilter}
use boilerplate_go_grpc_micr.Order.Ports.{Event, EventType}
use boilerplate_go_grpc_micr.Order.Memory
use boilerplate_go_grpc_micr.Order.Memory.{State, Entries, key, lookup, insert, ports}
use boilerplate_go_grpc_micr.Order.Memory.Map.{NoNul, key-injective, All-insert, lookup-All}
use boilerplate_go_grpc_micr.Order.Service
use boilerplate_go_grpc_micr.Order.Service.{CreateCommand}
use boilerplate_go_grpc_micr.Order.Service.Creating.{Creates, create-Creates, recorded}
use boilerplate_go_grpc_micr.Order.Service.Cancelling.{CancelsOrder, cancel_order-CancelsOrder}
use mathlib.Core.Path.{subst}

-- The calls of the service, with the id and the instant that each is given.
pub data Request : Type 0 where
  create_order : CreateCommand → Result Text → Time → Request
  cancel_order : Text → Text → Time → Request
  get_order : Text → Text → Request
  list_orders : Text → ListFilter → Request

module _ ⦃c : Casing⦄ ⦃k : TokenCodec⦄ where
  -- The state that a request leaves.
  abbrev pub serve : Request → State → State
  serve (Request.create_order cmd id now) s = (Service.create ports cmd id now s).1
  serve (Request.cancel_order tenant id now) s = (Service.cancel_order ports tenant id now s).1
  serve (Request.get_order tenant id) s = (Service.get ports tenant id s).1
  serve (Request.list_orders tenant f) s = (Service.list ports tenant f s).1

  abbrev pub serve_all : List Request → State → State
  serve_all [] s = s
  serve_all (r ∷ rs) s = serve_all rs (serve r s)

-- The map that the snapshots of the events build, each written under its order's key.
abbrev pub replay_onto : Entries → List Event → Entries
replay_onto d [] = d
replay_onto d (e ∷ es) = replay_onto (insert (key e.tenant_id e.aggregate_id) e.order d) es

abbrev pub IsEntry : ⦃c : Casing⦄ → Text × Order → Type 0
IsEntry (k, o) = (k ≡ key o.tenant_id o.id) × (validate_order o ≡ ok tt)

-- The outbox tells the store, and every entry is a valid order under its own key.
pub record IsAccounted ⦃c : Casing⦄ (s : State) : Type 0 where
  pub told : replay_onto [] s.events ≡ s.orders
  pub entries : All IsEntry s.orders

replay_onto-append :
    (d : Entries) (es : List Event) (e : Event)
    → replay_onto d (es ++ e ∷ [])
      ≡ insert (key e.tenant_id e.aggregate_id) e.order (replay_onto d es)
replay_onto-append d [] e = refl
replay_onto-append d (x ∷ es) e =
    replay_onto-append (insert (key x.tenant_id x.aggregate_id) x.order d) es e

recorded-IsAccounted :
    ⦃c : Casing⦄ (kind : EventType) (now : Time) (o : Order) (s : State)
    → validate_order o ≡ ok tt
    → IsAccounted s
    → IsAccounted (recorded kind now o s)
recorded-IsAccounted kind now o s v a = record {
  told = replay_onto-append [] s.events _ ∙ ap (insert (key o.tenant_id o.id) o) a.told;
  entries = All-insert IsEntry (key o.tenant_id o.id) o s.orders (refl, v) a.entries;
}

create-IsAccounted :
    ⦃c : Casing⦄ ⦃k : TokenCodec⦄ (cmd : CreateCommand) (id : Result Text) (now : Time) (s : State)
    → IsAccounted s
    → IsAccounted (Service.create ports cmd id now s).1
create-IsAccounted cmd id now s a =
    go (Service.create ports cmd id now s) (create-Creates cmd id now s)
  where
    go : (r : _) → Creates cmd id now s r → IsAccounted (r.1)
    go (err e, s') h = subst IsAccounted (sym h) a
    go (ok o, s') (h, _, _, _, _, _, _, v) =
        subst IsAccounted (sym h) (recorded-IsAccounted EventType.order_created now o s v a)

cancel-IsAccounted :
    ⦃c : Casing⦄ ⦃k : TokenCodec⦄ (tenant id : Text) (now : Time) (s : State)
    → IsAccounted s
    → IsAccounted (Service.cancel_order ports tenant id now s).1
cancel-IsAccounted tenant id now s a =
    go (Service.cancel_order ports tenant id now s) (cancel_order-CancelsOrder tenant id now s)
  where
    go : (r : _) → CancelsOrder tenant id now s r → IsAccounted (r.1)
    go (err e, s') h = subst IsAccounted (sym h) a
    go (ok o', s') (o, h, g, e, _) = subst IsAccounted (sym e) (
        recorded-IsAccounted EventType.order_cancelled now o' s
          (cancel-validate o now ((lookup-All IsEntry (key tenant id) s.orders o a.entries h).1) g)
          a)

pub get-state :
    ⦃k : TokenCodec⦄ (tenant id : Text) (s : State) → (Service.get ports tenant id s).1 ≡ s
unfolding Service.get Memory.get
get-state tenant id s = ground arith

get_found :
    ⦃k : TokenCodec⦄ (tenant id : Text) (s : State) {o : Order}
    → (Service.get ports tenant id s).0 ≡ ok o
    → lookup (key tenant id) s.orders ≡ some o
unfolding Service.get Memory.get
get_found tenant id s e = ground arith

pub list-state :
    ⦃k : TokenCodec⦄ (tenant : Text) (f : ListFilter) (s : State)
    → (Service.list ports tenant f s).1 ≡ s
unfolding Service.list Memory.list
list-state tenant f s = ground arith

serve-IsAccounted :
    ⦃c : Casing⦄ ⦃k : TokenCodec⦄ (r : Request) (s : State)
    → IsAccounted s
    → IsAccounted (serve r s)
serve-IsAccounted (Request.create_order cmd id now) s a = create-IsAccounted cmd id now s a
serve-IsAccounted (Request.cancel_order tenant id now) s a = cancel-IsAccounted tenant id now s a
serve-IsAccounted (Request.get_order tenant id) s a =
    subst IsAccounted (sym (get-state tenant id s)) a
serve-IsAccounted (Request.list_orders tenant f) s a =
    subst IsAccounted (sym (list-state tenant f s)) a

serve_all_from :
    ⦃c : Casing⦄ ⦃k : TokenCodec⦄ (rs : List Request) (s : State)
    → IsAccounted s
    → IsAccounted (serve_all rs s)
serve_all_from [] s a = a
serve_all_from (r ∷ rs) s a = serve_all_from rs (serve r s) (serve-IsAccounted r s a)

-- After any sequence of requests to an empty store, writing the snapshots of the outbox's events in
-- their order into an empty map gives exactly the stored orders, and every stored order passes
-- `Order.Validate` and stands under its own key.
pub serve_all-IsAccounted :
    ⦃c : Casing⦄ ⦃k : TokenCodec⦄ (rs : List Request) → IsAccounted (serve_all rs Memory.new)
unfolding Memory.new
serve_all-IsAccounted rs = serve_all_from rs Memory.new (record { told = refl; entries = tt })

-- If no tenant's name holds a NUL byte, whatever `Get` returns after any sequence of requests
-- belongs to the tenant who asks and has the id asked for, and it passes validation.
pub get_own :
    ⦃c : Casing⦄ ⦃k : TokenCodec⦄ (rs : List Request) (tenant id : Text) {o : Order}
    → NoNul tenant
    → All (λ e. NoNul (e.1).tenant_id) (serve_all rs Memory.new).orders
    → (Service.get ports tenant id (serve_all rs Memory.new)).0 ≡ ok o
    → (o.tenant_id ≡ tenant) × (o.id ≡ id) × (validate_order o ≡ ok tt)
get_own rs tenant id {o} plain plains e =
    let s = serve_all rs Memory.new in
    let h = get_found tenant id s e in
    let (at, valid) =
      lookup-All IsEntry (key tenant id) s.orders o (IsAccounted.entries (serve_all-IsAccounted rs))
        h in
    let (t, i) =
      key-injective tenant o.tenant_id id o.id plain
        (lookup-All (λ e. NoNul (e.1).tenant_id) (key tenant id) s.orders o plains h) at in
    (sym t, sym i, valid)
