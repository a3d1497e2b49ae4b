-- ===== src/Order/Service/Creating.antt =====
-- What `Create` does to the in-memory store: it is done whole, or not at all.
use boilerplate_go_grpc_micr.Common.{
  ◌≡◌, refl, ap, sym, inl, inr, true, false, Option, none, some, [], ◌∷◌, ◌++◌, arith, Bool-cases,
  ◌⊎◌,
}
use boilerplate_go_grpc_micr.Common.Text.{Text, is_empty, text_eq_self}
use boilerplate_go_grpc_micr.Order.Errors.{Sentinel, Err, Result, ok, err, Result-cases}
use boilerplate_go_grpc_micr.Order.Money.{Casing}
use boilerplate_go_grpc_micr.Order.Status.{pending}
use boilerplate_go_grpc_micr.Order.Aggregate.{Order, Time, compute_total, validate_order, no_items}
use boilerplate_go_grpc_micr.Order.Cursor.{TokenCodec}
use boilerplate_go_grpc_micr.Order.Ports.{EventType, ◌>>◌, pure}
use mathlib.Core.Path.{subst}
use boilerplate_go_grpc_micr.Order.Memory
use boilerplate_go_grpc_micr.Order.Memory.{State, key, lookup, insert, in_tx, ports, is_some}
use boilerplate_go_grpc_micr.Order.Memory.Map.{lookup-insert}
use boilerplate_go_grpc_micr.Order.Service.{CreateCommand, event_of, create, create_tx}
use boilerplate_go_grpc_micr.Failures.Blame.{
  IsBlame, blamed, compute_total-Blames, validate_order-Blames,
}

-- The state after an order is written and its event appended.
abbrev pub recorded : EventType → Time → Order → State → State
recorded kind now o s = record {
  orders = insert (key o.tenant_id o.id) o s.orders;
  events = s.events ++ event_of kind now o ∷ [];
}

-- What a call of `Create` leaves, by how it ends.
abbrev pub Creates :
    ⦃c : Casing⦄ → CreateCommand → Result Text → Time → State → Result Order × State → Type 0
Creates cmd id now s (err e, s') = s' ≡ s
Creates cmd id now s (ok o, s') =
    (s' ≡ recorded EventType.order_created now o s)
    × (lookup (key o.tenant_id o.id) s.orders ≡ none)
    × (lookup (key o.tenant_id o.id) s'.orders ≡ some o)
    × (o.status ≡ pending)
    × (o.items ≡ cmd.items)
    × (o.tenant_id ≡ cmd.tenant_id)
    × (id ≡ ok o.id)
    × (validate_order o ≡ ok tt)

is_some-eq-false : (m : Option Order) → is_some m ≡ false → m ≡ none
is_some-eq-false none h = refl
is_some-eq-false (some o) h = cc

-- What was just stored is found.
pub stored : (k : Text) (o : Order) (d : Memory.Entries) → lookup k (insert k o d) ≡ some o
stored k o d = ground (arith, lookup-insert k k o d, text_eq_self k)

-- What the transaction of `Create` leaves.
module _ ⦃k : TokenCodec⦄ (o : Order) (now : Time) (s : State)
    (given : is_empty o.tenant_id ≡ false) where
  pub create_tx_taken :
      is_some (lookup (key o.tenant_id o.id) s.orders) ≡ true
      → in_tx (create_tx ports o now) s ≡ (err (Sentinel.duplicate ∷ []), s)
  unfolding in_tx create_tx Memory.create Memory.publish lookup
  create_tx_taken h = rw (given, h)

  created :
      is_some (lookup (key o.tenant_id o.id) s.orders) ≡ false
      → Memory.create o s ≡ (ok tt, record s { orders = insert (key o.tenant_id o.id) o s.orders })
  unfolding Memory.create lookup
  created h = rw (given, h)

  pub create_tx_free :
      is_some (lookup (key o.tenant_id o.id) s.orders) ≡ false
      → in_tx (create_tx ports o now) s ≡ (ok o, recorded EventType.order_created now o s)
  unfolding in_tx create_tx Memory.publish
  create_tx_free h =
      ap
        (λ x.
          in_tx
            (λ _. elim x.0 [
              | ok a ↦ (Memory.publish (event_of EventType.order_created now o) >> pure o) x.1
              | err y ↦ (err y, x.1)
            ])
            s)
        (created h)

-- Why a request fails before the transaction: it has no tenant, the generator fails, or the
-- client is to blame.
abbrev pub IsCause : CreateCommand → Result Text → Err → Type 0
IsCause cmd id e = ((is_empty cmd.tenant_id ≡ true) ⊎ (id ≡ err e)) ⊎ IsBlame e

module _ ⦃c : Casing⦄ ⦃k : TokenCodec⦄ (cmd : CreateCommand) (id : Result Text) (now : Time)
    (s : State) (P : Result Order × State → Type 0) where
  pub create_lem :
      ((e : Err) → IsCause cmd id e → P (err e, s))
      → ((o : Order)
          → is_empty o.tenant_id ≡ false
          → id ≡ ok o.id
          → o.tenant_id ≡ cmd.tenant_id
          → o.items ≡ cmd.items
          → o.status ≡ pending
          → validate_order o ≡ ok tt
          → P (in_tx (create_tx ports o now) s))
      → P (create ports cmd id now s)
  unfolding create
  create_lem fails goes = elim (Bool-cases (is_empty cmd.tenant_id)) [
    | inl t ↦ rw t (fails _ (inl (inl t)))
    | inr t ↦ elim (Bool-cases (no_items cmd.items)) [
      | inl n ↦ rw (t, n) (fails _ (inr (refl, tt)))
      | inr n ↦ elim (Result-cases (compute_total cmd.items)) [
        | inl (e, h) ↦ rw (t, n, h) (fails e (inr (blamed _ e (compute_total-Blames cmd.items) h)))
        | inr (total, h) ↦ elim (Result-cases id) [
          | inl (e, g) ↦ rw (t, n, h, g) (fails e (inl (inr g)))
          | inr (i, g) ↦
              let o : Order = record {
                id = i;
                tenant_id = cmd.tenant_id;
                customer_id = cmd.customer_id;
                status = pending;
                items = cmd.items;
                total = total;
                created_at = now;
                updated_at = now;
              } in
              elim (Result-cases (validate_order o)) [
                | inl (e, v) ↦
                    rw (t, n, h, g, v)
                      (fails e (inr (blamed _ e (validate_order-Blames o t refl h) v)))
                | inr (_, v) ↦ rw (t, n, h, g, v) (goes o t g refl refl refl v)
              ]
        ]
      ]
    ]
  ]

-- Over the in-memory store, `Create` either fails and leaves the store as it was, or returns a
-- pending order that passes `Order.Validate`, with the tenant and the items of the request and the
-- generated id. Its key was free; the order is then found under that key, and the only changes to
-- the store are this entry and one created event with the order at the end of the outbox.
pub create-Creates :
    ⦃c : Casing⦄ ⦃k : TokenCodec⦄ (cmd : CreateCommand) (id : Result Text) (now : Time) (s : State)
    → Creates cmd id now s (create ports cmd id now s)
create-Creates cmd id now s =
    create_lem cmd id now s (Creates cmd id now s) (λ _ _. refl)
      (λ o given i tenant items status valid.
        elim (Bool-cases (is_some (lookup (key o.tenant_id o.id) s.orders))) [
          | inl taken ↦
              subst (Creates cmd id now s) (sym (create_tx_taken o now s given taken)) refl
          | inr free ↦ subst (Creates cmd id now s) (sym (create_tx_free o now s given free)) (
            refl,
            is_some-eq-false _ free,
            stored (key o.tenant_id o.id) o s.orders,
            status,
            items,
            tenant,
            i,
            valid,
          )
        ])
