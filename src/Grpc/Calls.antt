-- ===== src/Grpc/Calls.antt =====
-- What a client of the order service sees, over the in-memory store.
use boilerplate_go_grpc_micr.Common.{
  ◌≡◌, refl, sym, ◌⊎◌, inl, inr, false, Option, none, some, List, [], ◌∷◌, Bool-cases, Option-cases,
  contrary,
}
use mathlib.Core.Path.{subst}
use boilerplate_go_grpc_micr.Common.Text.{Text, is_empty}
use boilerplate_go_grpc_micr.Failures.{Kind, Reason, domain_error_kind, reason_for}
use boilerplate_go_grpc_micr.Failures.Blame.{
  IsBlame, Blames, returns, fails, blame_rules, validate-Blames, domain_error_kind-IsBlame,
}
use boilerplate_go_grpc_micr.Auth.{Context, tenant_from}
use boilerplate_go_grpc_micr.Order.Errors.{Sentinel, Err, Result, ok, err}
use boilerplate_go_grpc_micr.Order.Money.{Casing}
use boilerplate_go_grpc_micr.Order.Aggregate.{Item, Order, Time}
use boilerplate_go_grpc_micr.Order.Cursor.{TokenCodec}
use boilerplate_go_grpc_micr.Order.Memory
use boilerplate_go_grpc_micr.Order.Memory.{State, ports, key, lookup, is_some}
use boilerplate_go_grpc_micr.Order.Service
use boilerplate_go_grpc_micr.Order.Service.{CreateCommand}
use boilerplate_go_grpc_micr.Order.Service.Creating.{
  create_lem, create_tx_taken, create_tx_free, Creates, create-Creates,
}
use boilerplate_go_grpc_micr.Grpc.{
  Timestamps, WireMoney, WireItem, WireOrder, from_proto_money, from_proto_item, from_proto_items,
  to_proto_order,
}
use boilerplate_go_grpc_micr.Grpc.Server.{
  Reply, replied, refused, Refusal, domain, as_app_error, tenant_of, respond, with_tenant,
  CreateOrderRequest, create_converted, create_order, get_order, no_principal,
}

tenant_of-some :
    (ctx : Context) (tenant : Text) → tenant_from ctx ≡ some tenant → tenant_of ctx ≡ replied tenant
unfolding tenant_of
tenant_of-some ctx tenant h = rw (tenant_of, h)

tenant_of-none : (ctx : Context) → tenant_from ctx ≡ none → tenant_of ctx ≡ refused no_principal
unfolding tenant_of
tenant_of-none ctx h = rw (tenant_of, h)

tenant_nonempty :
    (ctx : Context) (tenant : Text) → tenant_from ctx ≡ some tenant → is_empty tenant ≡ false
unfolding tenant_from
tenant_nonempty none tenant h = cc
tenant_nonempty (some p) tenant h = elim (Bool-cases (is_empty p.tenant_id)) [
  | inl e ↦ let no = rw e at h in absurd cc
  | inr e ↦ let same = rw e at h in let one : p.tenant_id ≡ tenant = cc in rw (← one) e
]

from_proto_money-Blames : (m : Option WireMoney) → Blames (from_proto_money m)
unfolding from_proto_money
from_proto_money-Blames none = fails _ (refl, tt)
from_proto_money-Blames (some m) = search (blame_rules, validate-Blames)

from_proto_item-Blames : (i : Option WireItem) → Blames (from_proto_item i)
unfolding from_proto_item
from_proto_item-Blames none = fails _ (refl, tt)
from_proto_item-Blames (some i) = search (blame_rules, from_proto_money-Blames)

from_proto_items-Blames : (is : List (Option WireItem)) → Blames (from_proto_items is)
unfolding from_proto_items
from_proto_items-Blames [] = returns []
from_proto_items-Blames (i ∷ is) =
    let rest = from_proto_items-Blames is in search (blame_rules, from_proto_item-Blames)

-- The two ways in which a request to create an order is refused.
abbrev pub IsFair : Refusal → Type 0
IsFair r =
    ((reason : Reason) × (r ≡ domain Kind.invalid_argument reason))
    ⊎ (r ≡ domain Kind.already_exists Reason.order_already_exists)

-- A refusal is fair and changes nothing.
abbrev Refuses : {A : Type 0} → State → Reply A × State → Type 0
Refuses s m = (r : Refusal) → m.0 ≡ refused r → IsFair r × (m.1 ≡ s)

IsBlame-IsFair : (e : Err) → IsBlame e → IsFair (as_app_error e)
unfolding as_app_error
IsBlame-IsFair e h = inl (reason_for e, rw (domain_error_kind-IsBlame e h))

refused_same : {A : Type 0} {q r : Refusal} → ◌≡◌ {A = Reply A} (refused q) (refused r) → q ≡ r
refused_same h = cc

replied_same : {A : Type 0} {a b : A} → ◌≡◌ {A = Reply A} (replied a) (replied b) → a ≡ b
replied_same h = cc

replied_refused : {A : Type 0} {a : A} {r : Refusal} → ◌≡◌ {A = Reply A} (replied a) (refused r) → ⊥
replied_refused h = cc

duplicate-IsFair : IsFair (as_app_error (Sentinel.duplicate ∷ []))
unfolding as_app_error domain_error_kind reason_for
duplicate-IsFair = inr refl

ok_not_err : {A : Type 0} {a : A} {e : Err} → ok a ≡ err e → ⊥
ok_not_err h = cc

module _ ⦃c : Casing⦄ ⦃k : TokenCodec⦄ ⦃t : Timestamps⦄ where
  respond_fails :
      (s : State) (e : Err)
      → IsFair (as_app_error e)
      → Refuses s (respond to_proto_order (err e, s))
  unfolding respond
  respond_fails s e fair r h = (subst IsFair (refused_same h) fair, refl)

  respond_ok : (s s' : State) (o : Order) → Refuses s (respond to_proto_order (ok o, s'))
  unfolding respond
  respond_ok s s' o r h = absurd (replied_refused h)

  create_Refuses :
      (cmd : CreateCommand) (id : Text) (now : Time) (s : State)
      → is_empty cmd.tenant_id ≡ false
      → Refuses s (respond to_proto_order (Service.create ports cmd (ok id) now s))
  create_Refuses cmd id now s given =
      create_lem cmd (ok id) now s (λ m. Refuses s (respond to_proto_order m))
        (λ e cause. elim cause [
          | inl (inl lacking) ↦ absurd (contrary lacking given)
          | inl (inr given_up) ↦ absurd (ok_not_err given_up)
          | inr b ↦ respond_fails s e (IsBlame-IsFair e b)
        ])
        (λ o full _ _ _ _ _. elim (Bool-cases (is_some (lookup (key o.tenant_id o.id) s.orders))) [
          | inl taken ↦
              subst (λ m. Refuses s (respond to_proto_order m))
                (sym (create_tx_taken o now s full taken))
                (respond_fails s (Sentinel.duplicate ∷ []) duplicate-IsFair)
          | inr free ↦
              subst (λ m. Refuses s (respond to_proto_order m))
                (sym (create_tx_free o now s full free)) (respond_ok s _ o)
        ])

  create_converted-Refuses :
      (ctx : Context) (req : CreateOrderRequest) (id : Text) (now : Time) (tenant : Text)
      (items : Result (List Item)) (s : State)
      → is_empty tenant ≡ false
      → Blames items
      → Refuses s (create_converted ports ctx req (ok id) now tenant items s)
  unfolding create_converted
  create_converted-Refuses ctx req id now tenant (ok items) s given b =
      create_Refuses (record { tenant_id = tenant; customer_id = req.customer_id; items = items })
        id now s given
  create_converted-Refuses ctx req id now tenant (err e) s given (fails _ b) =
      λ r h. (subst IsFair (refused_same h) (IsBlame-IsFair e b), refl)

  create_order_known :
      (ctx : Context) (tenant : Text) (req : CreateOrderRequest) (id : Result Text) (now : Time)
      (s : State)
      → tenant_from ctx ≡ some tenant
      → create_order ports ctx req id now s
        ≡ create_converted ports ctx req id now tenant (from_proto_items req.items) s
  unfolding create_order with_tenant
  create_order_known ctx tenant req id now s known = rw (tenant_of-some ctx tenant known)

  -- Over the in-memory store, a request to create an order that comes with a tenant, when the
  -- generator gives an id, is refused only as an invalid argument, or as an order that exists
  -- already, never as an internal error; and a refusal leaves the store as it was.
  pub create_order-IsFair :
      (ctx : Context) (tenant : Text) (req : CreateOrderRequest) (id : Text) (now : Time)
      (s : State) (r : Refusal)
      → tenant_from ctx ≡ some tenant
      → (create_order ports ctx req (ok id) now s).0 ≡ refused r
      → IsFair r × ((create_order ports ctx req (ok id) now s).1 ≡ s)
  create_order-IsFair ctx tenant req id now s r known =
      subst (Refuses s) (sym (create_order_known ctx tenant req (ok id) now s known))
        (create_converted-Refuses ctx req id now tenant (from_proto_items req.items) s
          (tenant_nonempty ctx tenant known) (from_proto_items-Blames req.items))
        r

  service_get :
      (tenant id : Text) (s : State) (o : Order)
      → is_empty tenant ≡ false
      → lookup (key tenant id) s.orders ≡ some o
      → Service.get ports tenant id s ≡ (ok o, s)
  unfolding Service.get Memory.get lookup
  service_get tenant id s o full found = rw (full, found)

  -- The reply to a creation is what a request to get the order is answered with.
  Shows : Context → Reply WireOrder × State → Type 0
  Shows ctx m =
      (w : WireOrder) → m.0 ≡ replied w → get_order ports ctx w.order_id m.1 ≡ (replied w, m.1)

  respond-Shows :
      (ctx : Context) (cmd : CreateCommand) (id : Result Text) (now : Time) (s : State)
      (m : Result Order × State)
      → tenant_from ctx ≡ some cmd.tenant_id
      → Creates cmd id now s m
      → Shows ctx (respond to_proto_order m)
  unfolding respond Shows with_tenant get_order to_proto_order
  respond-Shows ctx cmd id now s (err e, s') known made w h = absurd (replied_refused (sym h))
  respond-Shows ctx cmd id now s (ok o, s') known (_, _, found, _, _, tenant, _, _) w h =
      let same : to_proto_order o ≡ w = replied_same h in
      let full = tenant_nonempty ctx cmd.tenant_id known in
      subst (λ v. get_order ports ctx v.order_id s' ≡ (replied v, s')) same
        (rw
          (
            get_order,
            tenant_of-some ctx cmd.tenant_id known,
            to_proto_order,
            service_get cmd.tenant_id o.id s' o full (rw (← tenant) found),
          )
          refl)

  create_converted-Shows :
      (ctx : Context) (req : CreateOrderRequest) (id : Result Text) (now : Time) (tenant : Text)
      (items : Result (List Item)) (s : State)
      → tenant_from ctx ≡ some tenant
      → Shows ctx (create_converted ports ctx req id now tenant items s)
  unfolding create_converted Shows
  create_converted-Shows ctx req id now tenant (err e) s known =
      λ w h. absurd (replied_refused (sym h))
  create_converted-Shows ctx req id now tenant (ok items) s known =
      let cmd : CreateCommand = record {
        tenant_id = tenant;
        customer_id = req.customer_id;
        items = items;
      } in
      respond-Shows ctx cmd id now s (Service.create ports cmd id now s) known
        (create-Creates cmd id now s)

  create_order-Shows :
      (ctx : Context) (req : CreateOrderRequest) (id : Result Text) (now : Time) (s : State)
      → tenant_from ctx ≡ none
      → Shows ctx (create_order ports ctx req id now s)
  unfolding create_order with_tenant Shows
  create_order-Shows ctx req id now s lacking =
      rw (tenant_of-none ctx lacking) (λ w h. absurd (replied_refused (sym h)))

  -- Over the in-memory store, whoever gets a created order in reply finds it under its id, the same
  -- message: a request of that tenant to get it, in the state that the creation left, is answered
  -- with it.
  pub get_order-create_order :
      (ctx : Context) (req : CreateOrderRequest) (new_id : Result Text) (now : Time) (s : State)
      (w : WireOrder)
      → (create_order ports ctx req new_id now s).0 ≡ replied w
      → let s' = (create_order ports ctx req new_id now s).1 in
        get_order ports ctx w.order_id s' ≡ (replied w, s')
  unfolding Shows
  get_order-create_order ctx req new_id now s w = elim (Option-cases (tenant_from ctx)) [
    | inl lacking ↦ create_order-Shows ctx req new_id now s lacking w
    | inr (tenant, known) ↦
        subst (Shows ctx) (sym (create_order_known ctx tenant req new_id now s known))
          (create_converted-Shows ctx req new_id now tenant (from_proto_items req.items) s known) w
  ]
