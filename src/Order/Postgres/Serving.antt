-- ===== src/Order/Postgres/Serving.antt =====
-- The service over the tables and over the in-memory store: the same answers.
use boilerplate_go_grpc_micr.Common.{
  ◌≡◌, refl, ap, sym, ◌∙◌, inl, inr, true, false, Option, some, Bool-cases, arith, All, ◌||◌,
}
use mathlib.Core.Path.{subst}
use boilerplate_go_grpc_micr.Common.Text.{Text, is_empty}
use boilerplate_go_grpc_micr.Order.Errors.{Result, ok}
use boilerplate_go_grpc_micr.Order.Money.{Casing}
use boilerplate_go_grpc_micr.Order.Aggregate.{Order, Time, cancel}
use boilerplate_go_grpc_micr.Order.Aggregate.Orders.{HasInt32, cancel-validate}
use boilerplate_go_grpc_micr.Common.Int.{pos}
use boilerplate_go_grpc_micr.Order.Postgres.Selecting.{IsStoredPlace}
use boilerplate_go_grpc_micr.Order.Postgres.Pages.{list-Alike}
use boilerplate_go_grpc_micr.Order.Cursor.{
  TokenCodec, ListFilter, Page, clamp_page_size, decode_page_token, filter_hash,
}
use boilerplate_go_grpc_micr.Order.Ports.{EventType, Action, Ports, ◌>>=◌, ◌>>◌, pure, lift}
use boilerplate_go_grpc_micr.Order.Memory
use boilerplate_go_grpc_micr.Order.Memory.{State, key, lookup}
use boilerplate_go_grpc_micr.Order.Memory.Map.{NoNul, lookup-All}
use boilerplate_go_grpc_micr.Order.Service
use boilerplate_go_grpc_micr.Order.Service.{CreateCommand, create_tx, cancel_tx, event_of}
use boilerplate_go_grpc_micr.Order.Rows.{Storage, AreTexts, fits}
use boilerplate_go_grpc_micr.Order.Rows.RoundTrip.{HasStored}
use boilerplate_go_grpc_micr.Order.Postgres
use boilerplate_go_grpc_micr.Order.Postgres.{Tables, transaction, has_row}
use boilerplate_go_grpc_micr.Order.Postgres.Listing
use boilerplate_go_grpc_micr.Order.Postgres.Statements.{rows}
use boilerplate_go_grpc_micr.Order.Postgres.Agreement.{IsStorable, IsEntry, Agree, Alike, get-Alike}
use boilerplate_go_grpc_micr.Order.Postgres.Inserting.{create-Alike}
use boilerplate_go_grpc_micr.Order.Postgres.Updating.{update-Alike}
use boilerplate_go_grpc_micr.Order.Postgres.Transactions.{
  create_both, cancel-same, bind-Alike, tx-Alike, IsStoredTime, recorded-Alike,
}

-- The last part of `Cancel`'s transaction: the write, then the event.
abbrev write_cancelled : {S : Type 0} → Ports S → Time → Order → Action S Order
write_cancelled p now o = do
  p.update o
  p.publish (event_of EventType.order_cancelled now o)
  pure o

module _ ⦃c : Casing⦄ ⦃k : TokenCodec⦄ ⦃s : Storage⦄ where
  -- PostgreSQL takes the texts of an order that a caller chooses.
  abbrev pub AreTaken : CreateCommand → Type 0
  AreTaken cmd =
      (s.takes cmd.tenant_id ≡ true)
      × (s.takes cmd.customer_id ≡ true)
      × All (λ i. s.takes i.sku ≡ true) cmd.items

  -- `Create` over both stores.
  pub created-Alike :
      (trace : Text) (cmd : CreateCommand) (id : Result Text) (now : Time) (m : State) (d : Tables)
      → NoNul cmd.tenant_id
      → HasInt32 cmd.items
      → AreTaken cmd
      → fits cmd.items ≡ true
      → s.takes trace ≡ true
      → IsStoredTime now
      → ((i : Text) → id ≡ ok i → (has_row i (rows m.orders) ≡ false) × (s.canonical i ≡ some i))
      → Agree m d
      → Alike {A = Order}
          (Service.create Memory.ports cmd id now m)
          (Service.create (Listing.ports trace) cmd id now d)
  unfolding create_tx
  created-Alike trace cmd id now m d plain range taken few traced kept free a =
      create_both Memory.ports (Listing.ports trace) cmd id now m d (Alike {A = Order})
        (λ e. (refl, a))
        λ o given drawn tenant customer items created updated valid.
          let h : IsStorable o = record {
            plain = subst NoNul (sym tenant) plain;
            valid = valid;
            int32 = subst HasInt32 (sym items) range;
            stored = (
              ap s.stored created ∙ kept.0 ∙ sym created,
              ap s.stored updated ∙ kept.0 ∙ sym updated,
            );
            dated = (ap s.in_json_years created ∙ kept.1, ap s.in_json_years updated ∙ kept.1);
            known = (free o.id drawn).1;
            taken = (
              ap s.takes tenant ∙ taken.0,
              ap s.takes customer ∙ taken.1,
              subst (All (λ i. s.takes i.sku ≡ true)) (sym items) (taken.2),
            );
            few = ap fits items ∙ few;
          } in
          let e = event_of EventType.order_created now o in
          tx-Alike (create_tx Memory.ports o now) (create_tx (Listing.ports trace) o now) m d a (
            bind-Alike (Memory.create o m) (Postgres.create o d) (λ _. Memory.publish e >> pure o)
              (λ _. Postgres.publish trace e >> pure o) (create-Alike o m d h (free o.id drawn).0 a)
              λ _ _ a'. recorded-Alike trace EventType.order_created now o _ _ h traced a')

  get_found :
      (tenant id : Text) (m : State) (o : Order)
      → (Memory.get tenant id m).0 ≡ ok o
      → lookup (key tenant id) (Memory.get tenant id m).1.orders ≡ some o
  unfolding Memory.get
  get_found tenant id m o e = ground arith

  -- The transition, the write and the event, on an order that is stored.
  cancelled-Alike :
      (trace tenant id : Text) (now : Time) (o : Order) (m : State) (d : Tables)
      → IsStoredTime now
      → s.takes trace ≡ true
      → lookup (key tenant id) m.orders ≡ some o
      → Agree m d
      → Alike {A = Order}
          ((do
            o' ← lift (cancel o now)
            Memory.update o'
            Memory.publish (event_of EventType.order_cancelled now o')
            pure o')
            m)
          ((do
            o' ← lift (cancel o now)
            Postgres.update o'
            Postgres.publish trace (event_of EventType.order_cancelled now o')
            pure o')
            d)
  cancelled-Alike trace tenant id now o m d kept traced found a =
      bind-Alike (cancel o now, m) (cancel o now, d) (write_cancelled Memory.ports now)
        (write_cancelled (Listing.ports trace) now) (refl, a)
        λ o' done _.
          let (at, h) = lookup-All IsEntry (key tenant id) m.orders o a.entries found in
          let same = cancel-same o now done in
          let h' : IsStorable o' = record {
            plain = subst (λ (p : Order). NoNul p.tenant_id) (sym same) h.plain;
            valid = cancel-validate o now h.valid done;
            int32 = subst (λ (p : Order). HasInt32 p.items) (sym same) h.int32;
            stored = subst HasStored (sym same) (h.stored.0, kept.0);
            dated =
                subst
                  (λ (p : Order).
                    (s.in_json_years p.created_at ≡ true) × (s.in_json_years p.updated_at ≡ true))
                  (sym same) (h.dated.0, kept.1);
            known = subst (λ (p : Order). s.canonical p.id ≡ some p.id) (sym same) h.known;
            taken = subst (AreTexts s.takes) (sym same) h.taken;
            few = subst (λ (p : Order). fits p.items ≡ true) (sym same) h.few;
          } in
          let e = event_of EventType.order_cancelled now o' in
          bind-Alike (Memory.update o' m) (Postgres.update o' d) (λ _. Memory.publish e >> pure o')
            (λ _. Postgres.publish trace e >> pure o')
            (update-Alike o o' (sym (ap (λ (p : Order). p.id) same))
              (sym (ap (λ (p : Order). p.tenant_id) same))
              (sym (ap (λ (p : Order). p.created_at) same)) h'.plain m d h'
              (ap (λ (p : Order). lookup (key p.tenant_id p.id) m.orders) same
                ∙ ap (λ k. lookup k m.orders) (sym at)
                ∙ found)
              a)
            λ _ _ a''. recorded-Alike trace EventType.order_cancelled now o' _ _ h' traced a''

  -- `Cancel` over both stores.
  pub cancel_order-Alike :
      (trace tenant id : Text) (now : Time) (m : State) (d : Tables)
      → NoNul tenant
      → s.canonical id ≡ some id
      → s.takes tenant ≡ true
      → s.takes trace ≡ true
      → IsStoredTime now
      → Agree m d
      → Alike {A = Order}
          (Service.cancel_order Memory.ports tenant id now m)
          (Service.cancel_order (Listing.ports trace) tenant id now d)
  unfolding Service.cancel_order cancel_tx
  cancel_order-Alike trace tenant id now m d plain known taken traced kept a =
      elim (Bool-cases (is_empty tenant)) [
        | inl t ↦ rw t (refl, a)
        | inr t ↦ rw t (
            tx-Alike (cancel_tx Memory.ports tenant id now)
              (cancel_tx (Listing.ports trace) tenant id now) m d a
              (bind-Alike (Memory.get tenant id m) (Postgres.get tenant id d)
                (λ o. lift (cancel o now) >>= write_cancelled Memory.ports now)
                (λ o. lift (cancel o now) >>= write_cancelled (Listing.ports trace) now)
                (get-Alike tenant id m d plain known taken a)
                λ o e a'.
                  cancelled-Alike trace tenant id now o _ _ kept traced (get_found tenant id m o e)
                    a'))
      ]

  -- `Get` over both stores.
  pub got-Alike :
      (trace tenant id : Text) (m : State) (d : Tables)
      → NoNul tenant
      → s.canonical id ≡ some id
      → s.takes tenant ≡ true
      → Agree m d
      → Alike {A = Order}
          (Service.get Memory.ports tenant id m)
          (Service.get (Listing.ports trace) tenant id d)
  unfolding Service.get
  got-Alike trace tenant id m d plain known taken a = elim (Bool-cases (is_empty tenant)) [
    | inl t ↦ rw t (refl, a)
    | inr t ↦ rw t (get-Alike tenant id m d plain known taken a)
  ]

  page_size-decode :
      (tenant : Text) (f : ListFilter) (n : _)
      → decode_page_token tenant (record f { page_size = n }) ≡ decode_page_token tenant f
  unfolding decode_page_token filter_hash
  page_size-decode tenant f n = refl

  -- `List` over both stores.
  pub listed-Alike :
      (trace tenant : Text) (f : ListFilter) (m : State) (d : Tables)
      → ((cursor : Option (Time × Text))
          → decode_page_token tenant f ≡ ok cursor
          → IsStoredPlace cursor)
      → s.takes tenant ≡ true
      → (is_empty f.customer_id || s.takes f.customer_id) ≡ true
      → Agree m d
      → Alike {A = Page}
          (Service.list Memory.ports tenant f m)
          (Service.list (Listing.ports trace) tenant f d)
  unfolding Service.list
  listed-Alike trace tenant f m d place tenant_taken customer_taken a =
      elim (Bool-cases (is_empty tenant)) [
        | inl t ↦ rw t (refl, a)
        | inr t ↦
            let n = pos (clamp_page_size f.page_size) in
            rw t (
              list-Alike tenant (record f { page_size = n }) m d
                (λ cursor e. place cursor (sym (page_size-decode tenant f n) ∙ e)) tenant_taken
                customer_taken a)
      ]
