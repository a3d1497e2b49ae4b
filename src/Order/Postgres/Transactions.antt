-- ===== src/Order/Postgres/Transactions.antt =====
-- Steps and transactions that keep the tables and the in-memory store alike.
use boilerplate_go_grpc_micr.Common.{◌≡◌, refl, sym, inl, inr, true, false, Bool-cases}
use boilerplate_go_grpc_micr.Common.Text.{Text, is_empty}
use boilerplate_go_grpc_micr.Order.Errors.{Err, Result, ok, err, Result-cases}
use boilerplate_go_grpc_micr.Order.Money.{Casing}
use boilerplate_go_grpc_micr.Order.Status.{pending, cancelled, can_transition_to}
use boilerplate_go_grpc_micr.Order.Aggregate.{
  Order, Time, compute_total, validate_order, no_items, cancel,
}
use boilerplate_go_grpc_micr.Order.Cursor.{TokenCodec}
use boilerplate_go_grpc_micr.Order.Ports.{EventType, Action, Ports, ◌>>◌, pure}
use boilerplate_go_grpc_micr.Order.Memory
use boilerplate_go_grpc_micr.Order.Memory.{State, key, lookup}
use boilerplate_go_grpc_micr.Order.Service
use boilerplate_go_grpc_micr.Order.Service.{CreateCommand, create_tx, cancel_tx, event_of}
use boilerplate_go_grpc_micr.Order.Rows.{Storage}
use boilerplate_go_grpc_micr.Order.Postgres
use boilerplate_go_grpc_micr.Order.Postgres.{Tables, transaction, has_row}
use boilerplate_go_grpc_micr.Order.Postgres.Agreement.{IsStorable, Agree, Alike}
use boilerplate_go_grpc_micr.Order.Postgres.Inserting.{publish-Alike}

-- `Create` over any two stores fails alike before its transaction, or enters it with one order.
module _ {S T : Type 0} (p : Ports S) (q : Ports T) ⦃c : Casing⦄ (cmd : CreateCommand)
    (id : Result Text) (now : Time) (m : S) (d : T)
    (P : Result Order × S → Result Order × T → Type 0) where
  pub create_both :
      ((e : Err) → P (err e, m) (err e, d))
      → ((o : Order)
          → is_empty o.tenant_id ≡ false
          → id ≡ ok o.id
          → o.tenant_id ≡ cmd.tenant_id
          → o.customer_id ≡ cmd.customer_id
          → o.items ≡ cmd.items
          → o.created_at ≡ now
          → o.updated_at ≡ now
          → validate_order o ≡ ok tt
          → P (p.in_tx (create_tx p o now) m) (q.in_tx (create_tx q o now) d))
      → P (Service.create p cmd id now m) (Service.create q cmd id now d)
  unfolding Service.create
  create_both fails goes = elim (Bool-cases (is_empty cmd.tenant_id)) [
    | inl t ↦ rw t (fails _)
    | inr t ↦ elim (Bool-cases (no_items cmd.items)) [
      | inl n ↦ rw (t, n) (fails _)
      | inr n ↦ elim (Result-cases (compute_total cmd.items)) [
        | inl (e, h) ↦ rw (t, n, h) (fails e)
        | inr (total, h) ↦ elim (Result-cases id) [
          | inl (e, g) ↦ rw (t, n, h, g) (fails e)
          | inr (i, g) ↦
              let o : Order = record {
                id = i;
                tenant_id = cmd.tenant_id;
                customer_id = cmd.customer_id;
                status = pending;
                items = cmd.items;
                total = total;
                created_at = now;
                updated_at = now;
              } in
              elim (Result-cases (validate_order o)) [
                | inl (e, v) ↦ rw (t, n, h, g, v) (fails e)
                | inr (_, v) ↦ rw (t, n, h, g, v) (goes o t g refl refl refl refl refl v)
              ]
        ]
      ]
    ]
  ]

-- What `Order.Cancel` makes of an order.
pub cancel-same :
    (o : Order) (now : Time) {o' : Order}
    → cancel o now ≡ ok o'
    → o' ≡ record o { status = cancelled; updated_at = now }
unfolding cancel
cancel-same o now e = elim (Bool-cases (can_transition_to o.status cancelled)) [
  | inl t ↦ made (sym (rw t at e))
  | inr t ↦ absurd (not_made (rw t at e))
]
  where
    made : {x y : Order} → ok x ≡ ok y → x ≡ y
    made e = cc

    not_made : {x : Err} {y : Order} → err x ≡ ok y → ⊥
    not_made e = cc

module _ ⦃c : Casing⦄ ⦃k : TokenCodec⦄ ⦃s : Storage⦄ where
  -- Actions that keep the stores alike, from two that agree.
  abbrev AlikeOn : {A : Type 0} → State → Tables → Action State A → Action Tables A → Type 0
  AlikeOn m d f g = Alike (f m) (g d)

  pub bind-Alike :
      {A B : Type 0} (x : Result A × State) (y : Result A × Tables) (f : A → Action State B)
      (g : A → Action Tables B)
      → Alike {A = A} x y
      → ((a : A) → x.0 ≡ ok a → Agree x.1 y.1 → Alike {A = B} (f a x.1) (g a y.1))
      → Alike {A = B}
          (elim x.0 [ ok a ↦ f a x.1 | err e ↦ (err e, x.1) ])
          (elim y.0 [ ok a ↦ g a y.1 | err e ↦ (err e, y.1) ])
  bind-Alike (ok a, m) (r, d) f g (same, agree) next = rw (← same) (next a refl agree)
  bind-Alike (err e, m) (r, d) f g (same, agree) next = rw (← same) (refl, agree)

  Agree-next_id : (m : State) (d : Tables) (n : _) → Agree m d → Agree m (record d { next_id = n })
  Agree-next_id m d n a = record {
    entries = a.entries;
    apart = a.apart;
    same_rows = a.same_rows;
    lines = a.lines;
    no_others = a.no_others;
    events = a.events;
  }

  -- The transaction of either store.
  pub tx-Alike :
      (f : Action State Order) (g : Action Tables Order) (m : State) (d : Tables)
      → Agree m d
      → Alike {A = Order} (f m) (g d)
      → Alike {A = Order} (Memory.in_tx f m) (transaction g d)
  unfolding Memory.in_tx transaction
  tx-Alike f g m d a h = go (f m) (g d) h
    where
      go :
          (x : Result Order × State) (y : Result Order × Tables)
          → Alike {A = Order} x y
          → Alike {A = Order}
              (elim x.0 [ ok o ↦ (ok o, x.1) | err e ↦ (err e, m) ])
              (elim y.0 [
                | ok o ↦ (ok o, y.1)
                | err e ↦ (err e, record d { next_id = y.1.next_id })
              ])
      go (ok o, m') (r, d') (same, agree) = rw (← same) (refl, agree)
      go (err e, m') (r, d') (same, agree) = rw (← same) (refl, Agree-next_id m d d'.next_id a)

  -- An instant that the database stores as it is, and JSON too.
  abbrev pub IsStoredTime : Time → Type 0
  IsStoredTime t = (s.stored t ≡ t) × (s.in_json_years t ≡ true)

  -- The event of a transaction, and its answer.
  pub recorded-Alike :
      (trace : Text) (kind : EventType) (now : Time) (o : Order) (m : State) (d : Tables)
      → IsStorable o
      → s.takes trace ≡ true
      → Agree m d
      → Alike {A = Order}
          ((Memory.publish (event_of kind now o) >> pure o) m)
          ((Postgres.publish trace (event_of kind now o) >> pure o) d)
  recorded-Alike trace kind now o m d h traced a =
      let e = event_of kind now o in
      bind-Alike (Memory.publish e m) (Postgres.publish trace e d) (λ _. pure o) (λ _. pure o)
        (publish-Alike trace e m d h h.known (h.taken.0) traced a) λ _ _ a'. (refl, a')
