-- ===== src/Order/Service/Cancelling.antt =====
-- What `Cancel` does to the in-memory store: it is done whole, or not at all.
use boilerplate_go_grpc_micr.Common.{
  ◌≡◌, refl, ap, sym, ◌∙◌, inl, inr, false, none, some, [], ◌∷◌, Bool-cases, Option-cases,
}
use boilerplate_go_grpc_micr.Common.Text.{Text, is_empty}
use boilerplate_go_grpc_micr.Order.Errors.{Sentinel, Err, Result, ok, err, Result-cases}
use boilerplate_go_grpc_micr.Order.Aggregate.{Order, Time, cancel}
use boilerplate_go_grpc_micr.Order.Cursor.{TokenCodec}
use boilerplate_go_grpc_micr.Order.Ports.{EventType, ◌>>=◌, ◌>>◌, pure, lift}
use mathlib.Core.Path.{subst}
use boilerplate_go_grpc_micr.Order.Memory
use boilerplate_go_grpc_micr.Order.Memory.{State, key, lookup, insert, in_tx, ports, is_some}
use boilerplate_go_grpc_micr.Order.Service.{event_of, cancel_order, cancel_tx}
use boilerplate_go_grpc_micr.Order.Service.Creating.{recorded, stored}

-- What a call of `Cancel` leaves, by how it ends.
abbrev pub CancelsOrder : Text → Text → Time → State → Result Order × State → Type 0
CancelsOrder tenant id now s (err e, s') = s' ≡ s
CancelsOrder tenant id now s (ok o', s') =
    (o : Order) × (lookup (key tenant id) s.orders ≡ some o)
    × (cancel o now ≡ ok o')
    × (s' ≡ recorded EventType.order_cancelled now o' s)
    × (lookup (key o'.tenant_id o'.id) s'.orders ≡ some o')

-- The transaction of `Cancel` after the write.
finish : Order → Time → State → Result (Unit {0}) × State → Result Order × State
finish o now s m =
    in_tx
      (λ _. elim m.0 [
        | ok _ ↦ (Memory.publish (event_of EventType.order_cancelled now o) >> pure o) m.1
        | err e ↦ (err e, m.1)
      ])
      s

-- `Update` fails, or writes the order.
update_lem :
    (P : Result (Unit {0}) × State → Type 0) (o : Order) (s : State)
    → ((e : Err) → P (err e, s))
    → P (ok tt, record s { orders = insert (key o.tenant_id o.id) o s.orders })
    → P (Memory.update o s)
unfolding Memory.update lookup
update_lem P o s fails goes = elim (Bool-cases (is_empty o.tenant_id)) [
  | inl t ↦ rw t (fails _)
  | inr t ↦ elim (Bool-cases (is_some (lookup (key o.tenant_id o.id) s.orders))) [
    | inl v ↦ rw (t, v) goes
    | inr v ↦ rw (t, v) (fails _)
  ]
]

-- The transaction of `Cancel` after the read.
decide : Order → Time → State → Result Order × State → Result Order × State
decide o now s m =
    in_tx
      (λ _. elim m.0 [
        | ok o' ↦
            (do
              Memory.update o'
              Memory.publish (event_of EventType.order_cancelled now o')
              pure o')
              m.1
        | err e ↦ (err e, m.1)
      ])
      s

begin : Time → State → Result Order × State → Result Order × State
begin now s m =
    in_tx
      (λ _. elim m.0 [
        | ok o ↦
            (do
              o' ← lift (cancel o now)
              Memory.update o'
              Memory.publish (event_of EventType.order_cancelled now o')
              pure o')
              m.1
        | err e ↦ (err e, m.1)
      ])
      s

module _ ⦃k : TokenCodec⦄ (tenant id : Text) (now : Time) (s : State)
    (given : is_empty tenant ≡ false) where
  begins : cancel_order ports tenant id now s ≡ begin now s (Memory.get tenant id s)
  unfolding cancel_order cancel_tx begin in_tx
  begins = rw given

  got_none :
      lookup (key tenant id) s.orders ≡ none
      → Memory.get tenant id s ≡ (err (Sentinel.not_found ∷ []), s)
  unfolding Memory.get lookup
  got_none h = rw (given, h)

  got_some :
      (o : Order) → lookup (key tenant id) s.orders ≡ some o → Memory.get tenant id s ≡ (ok o, s)
  unfolding Memory.get lookup
  got_some o h = rw (given, h)

  decides :
      (o : Order)
      → lookup (key tenant id) s.orders ≡ some o
      → cancel_order ports tenant id now s ≡ decide o now s (cancel o now, s)
  unfolding begin decide
  decides o h = begins ∙ ap (begin now s) (got_some o h)

  finishes :
      (o o' : Order)
      → lookup (key tenant id) s.orders ≡ some o
      → cancel o now ≡ ok o'
      → cancel_order ports tenant id now s ≡ finish o' now s (Memory.update o' s)
  unfolding decide finish
  finishes o o' h g = decides o h ∙ ap (λ r. decide o now s (r, s)) g

  none_to_cancel :
      lookup (key tenant id) s.orders ≡ none
      → cancel_order ports tenant id now s ≡ (err (Sentinel.not_found ∷ []), s)
  unfolding begin in_tx
  none_to_cancel h = begins ∙ ap (begin now s) (got_none h)

  refused :
      (o : Order) (e : Err)
      → lookup (key tenant id) s.orders ≡ some o
      → cancel o now ≡ err e
      → cancel_order ports tenant id now s ≡ (err e, s)
  unfolding decide in_tx
  refused o e h g = decides o h ∙ ap (λ r. decide o now s (r, s)) g

-- Over the in-memory store, `Cancel` either fails and leaves the store as it was, or returns what
-- `Order.Cancel` makes of the order found under the tenant and the id. The result is then found
-- under its own key, and the only changes to the store are this entry and one cancelled event with
-- the result at the end of the outbox.
pub cancel_order-CancelsOrder :
    ⦃k : TokenCodec⦄ (tenant id : Text) (now : Time) (s : State)
    → CancelsOrder tenant id now s (cancel_order ports tenant id now s)
unfolding cancel_order finish in_tx Memory.publish
cancel_order-CancelsOrder tenant id now s =
    let P = CancelsOrder tenant id now s in
    elim (Bool-cases (is_empty tenant)) [
      | inl t ↦ rw t refl
      | inr t ↦ elim (Option-cases (lookup (key tenant id) s.orders)) [
        | inl n ↦ subst P (sym (none_to_cancel tenant id now s t n)) refl
        | inr (o, h) ↦ elim (Result-cases (cancel o now)) [
          | inl (e, g) ↦ subst P (sym (refused tenant id now s t o e h g)) refl
          | inr (o', g) ↦ subst P (sym (finishes tenant id now s t o o' h g)) (
              update_lem (λ m. P (finish o' now s m)) o' s (λ _. refl)
                (o, h, g, refl, stored (key o'.tenant_id o'.id) o' s.orders))
        ]
      ]
    ]
