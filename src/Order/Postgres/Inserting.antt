-- ===== src/Order/Postgres/Inserting.antt =====
-- What an insert and an event do to both stores.
use boilerplate_go_grpc_micr.Common.{
  ℕ, suc, ◌≡◌, refl, ap, sym, ◌∙◌, inl, inr, Bool, true, false, ◌&&◌, ◌||◌, Option, none, some,
  List, [], ◌∷◌, ◌++◌, map, keep-append, All, All-append, All-mono, All-both, Bool-cases, contrary,
  append-nil, arith, leb, ◌*◌, length,
}
use boilerplate_go_grpc_micr.Common.Int.{ltb_ℤ, pos, negsuc}
use boilerplate_go_grpc_micr.Common.Text.{Text, is_empty, text_eq, text_eq→eq, eq→text_eq}
use boilerplate_go_grpc_micr.Order.Errors.{Result, ok, err}
use boilerplate_go_grpc_micr.Order.Money.{Casing, Money}
use boilerplate_go_grpc_micr.Order.Money.Bounds.{IsAmount}
use boilerplate_go_grpc_micr.Order.Aggregate.{Item, Order}
use boilerplate_go_grpc_micr.Order.Aggregate.Orders.{
  validate_order_iff, validate_order-total, total_valid,
}
use boilerplate_go_grpc_micr.Order.Aggregate.Items.{IsItem}
use boilerplate_go_grpc_micr.Order.Ports.{Event, Action, ◌>>=◌}
use boilerplate_go_grpc_micr.Order.Memory
use boilerplate_go_grpc_micr.Order.Memory.{State, Entries, key, lookup, insert, is_some}
use boilerplate_go_grpc_micr.Order.Rows.{
  OrderRow, ItemRow, Storage, item_rows, order_row, item_row, HasCodes, fits,
}
use boilerplate_go_grpc_micr.Order.Postgres
use boilerplate_go_grpc_micr.Order.Postgres.{
  Tables, lines_of, has_row, passes_checks, insert_order, insert_items, insert_given, transaction,
  with_id, under, insert_rows, insert_event, outbox_row, event_name, all_taken, with_texts,
}
use boilerplate_go_grpc_micr.Order.Postgres.Statements.{
  rows, lookup-has_row, has_row-append, insert-new, rows-append,
}
use boilerplate_go_grpc_micr.Order.Postgres.Lines.{
  lines_of-own, lines_of-other, any_taken-none, all_pass-item_rows,
}
use boilerplate_go_grpc_micr.Order.Postgres.Agreement.{
  IsStorable, IsEntry, AreApart, HasLines, Agree, Alike, Told, told, told_of, keyed,
}
use boilerplate_go_grpc_micr.Order.Money.Construct.{validate_iff}

pub text_eq_swap : (t u : Text) → text_eq t u ≡ false → text_eq u t ≡ false
text_eq_swap t u h = elim (Bool-cases (text_eq u t)) [
  | inl e ↦ absurd (contrary (eq→text_eq t u (sym (text_eq→eq u t e))) h)
  | inr e ↦ e
]

map-append {ℓ κ} :
    {A : Type ℓ} {B : Type κ} (f : A → B) (xs ys : List A) → map f (xs ++ ys) ≡ map f xs ++ map f ys
map-append f [] ys = refl
map-append f (x ∷ xs) ys = ap (λ zs. f x ∷ zs) (map-append f xs ys)

pub both_false : (a b : Bool) → (a || b) ≡ false → (a ≡ false) × (b ≡ false)
both_false true b h = cc
both_false false b h = (refl, h)

under-item_rows :
    (id : Text) (n : ℕ) (items : List Item) → under id (item_rows id n items) ≡ item_rows id n items
unfolding under item_rows item_row
under-item_rows id n [] = refl
under-item_rows id n (i ∷ items) =
    ap (λ (rs : List ItemRow). item_row id n i ∷ rs) (under-item_rows id (suc n) items)

all_taken-item_rows :
    ⦃s : Storage⦄ (id : Text) (n : ℕ) (items : List Item)
    → All (λ i. s.takes i.sku ≡ true) items
    → all_taken (item_rows id n items) ≡ true
unfolding all_taken item_rows item_row
all_taken-item_rows id n [] h = refl
all_taken-item_rows id n (i ∷ items) (h, hs) = rw (h, all_taken-item_rows id (suc n) items hs) refl

length-item_rows :
    (id : Text) (n : ℕ) (items : List Item) → length (item_rows id n items) ≡ length items
unfolding item_rows
length-item_rows id n [] = refl
length-item_rows id n (i ∷ items) = ap suc (length-item_rows id (suc n) items)

fits-item_rows : (id : Text) (n : ℕ) (items : List Item) → fits (item_rows id n items) ≡ fits items
unfolding fits
fits-item_rows id n items = ap (λ k. leb (7 * k) 65535) (length-item_rows id n items)

pub insert_given-items :
    ⦃s : Storage⦄ (id : Text) (items : List Item) (d : Tables)
    → s.canonical id ≡ some id
    → All (λ i. s.takes i.sku ≡ true) items
    → fits items ≡ true
    → All IsItem items
    → lines_of id d.items ≡ []
    → insert_given id (item_rows id 0 items) d
      ≡ (ok tt, record d { items = d.items ++ item_rows id 0 items })
unfolding insert_items insert_rows with_id with_texts item_rows
insert_given-items id [] d known taken few v free =
    ap (λ (rs : List ItemRow). (ok tt, record d { items = rs })) (sym (append-nil d.items))
insert_given-items id (i ∷ items) d known taken few v free =
    rw
      (
        fits-item_rows id 0 (i ∷ items) ∙ few,
        all_taken-item_rows id 0 (i ∷ items) taken,
        known,
        under-item_rows id 0 (i ∷ items),
        all_pass-item_rows id 0 (i ∷ items) v,
        any_taken-none id 0 (i ∷ items) d.items free,
      )
      refl

nanos_pass :
    (m : Money)
    → IsAmount m
    → (ltb_ℤ (negsuc 999999999) m.nanos && ltb_ℤ m.nanos (pos 1000000000)) ≡ true
nanos_pass m v = ground arith

pub bind-ok :
    {S A B : Type 0} (m : Action S A) (f : A → Action S B) (s : S) {a : A} {s' : S}
    → m s ≡ (ok a, s')
    → (m >>= f) s ≡ f a s'
bind-ok {S} {A} {B} m f s e =
    ap (λ (x : Result A × S). elim x.0 [ ok a ↦ f a x.1 | err y ↦ (err y, x.1) ]) e

pub transaction-ok :
    {A : Type 0} (fn : Action Tables A) (d : Tables) {a : A} {d' : Tables}
    → fn d ≡ (ok a, d')
    → transaction fn d ≡ (ok a, d')
unfolding transaction
transaction-ok {A} fn d e =
    ap
      (λ (x : Result A × Tables). elim x.0 [
        | ok a ↦ (ok a, x.1)
        | err y ↦ (err y, record d { next_id = x.1.next_id })
      ])
      e

module _ ⦃c : Casing⦄ ⦃s : Storage⦄ where
  IsStorable-HasCodes : (o : Order) → IsStorable o → HasCodes o
  IsStorable-HasCodes o h = (
    ((validate_iff o.total).0 (total_valid o h.int32 h.valid)).0,
    All-mono IsItem _ (λ i x. x.currency_valid) o.items
        (((validate_order_iff o).0 h.valid).items_valid),
  )

  pub order_row-passes : (o : Order) → IsStorable o → passes_checks (order_row o) ≡ true
  unfolding order_row
  order_row-passes o h =
      let v = (validate_order_iff o).0 h.valid in
      let (_, _, amount) = validate_order-total o h.int32 h.valid in
      rw (v.tenant_given, nanos_pass o.total amount) refl

  -- The tables behind an insert.
  inserted : Order → Tables → Tables
  inserted o d = record d {
    orders = d.orders ++ order_row o ∷ [];
    items = d.items ++ item_rows o.id 0 o.items;
  }

  insert_order-new :
      (o : Order) (d : Tables)
      → IsStorable o
      → has_row o.id d.orders ≡ false
      → insert_order (order_row o) d ≡ (ok tt, record d { orders = d.orders ++ order_row o ∷ [] })
  unfolding insert_order with_id with_texts order_row
  insert_order-new o d h free = rw (h.taken.0, h.taken.1, h.known, order_row-passes o h, free) refl

  create-inserted :
      (o : Order) (d : Tables)
      → IsStorable o
      → has_row o.id d.orders ≡ false
      → lines_of o.id d.items ≡ []
      → Postgres.create o d ≡ (ok tt, inserted o d)
  unfolding Postgres.create inserted
  create-inserted o d h free no_lines =
      let v = (validate_order_iff o).0 h.valid in
      let d' : Tables = record d { orders = d.orders ++ order_row o ∷ [] } in
      let placed =
        bind-ok (insert_order (order_row o)) (λ _. insert_given o.id (item_rows o.id 0 o.items)) d
          (insert_order-new o d h free) in
      let filled =
        insert_given-items o.id o.items d' h.known (h.taken.2) h.few v.items_valid no_lines in
      rw v.tenant_given (transaction-ok _ d (placed ∙ filled))

  pub has_row-others :
      (id : Text) (es : Entries)
      → has_row id (rows es) ≡ false
      → All (λ e. text_eq (e.1).id id ≡ false) es
  unfolding has_row order_row
  has_row-others id [] h = tt
  has_row-others id ((k, o) ∷ es) h =
      let (head, tail) = both_false _ _ h in (head, has_row-others id es tail)

  AreApart-append :
      (es : Entries) (k : Text) (o : Order)
      → AreApart es
      → has_row o.id (rows es) ≡ false
      → AreApart (es ++ (k, o) ∷ [])
  unfolding has_row order_row
  AreApart-append [] k o h free = (refl, tt)
  AreApart-append ((j, p) ∷ es) k o (h, hs) free =
      let (head, tail) = both_false _ _ free in
      (
        ap (has_row p.id) (rows-append es ((k, o) ∷ []))
            ∙ has_row-append p.id (rows es) (order_row o)
            ∙ rw (h, text_eq_swap p.id o.id head) refl,
        AreApart-append es k o hs tail,
      )

  -- The state with a new order.
  extended : Order → State → State
  extended o m = record m { orders = m.orders ++ (key o.tenant_id o.id, o) ∷ [] }

  Agree-extended :
      (o : Order) (m : State) (d : Tables)
      → IsStorable o
      → has_row o.id (rows m.orders) ≡ false
      → Agree m d
      → Agree (extended o m) (inserted o d)
  unfolding extended inserted order_row
  Agree-extended o m d h free a =
      let k = key o.tenant_id o.id in
      let new = item_rows o.id 0 o.items in
      let no_lines = a.no_others o.id free in
      record {
        entries = All-append IsEntry m.orders ((k, o) ∷ []) a.entries ((refl, h), tt);
        apart = AreApart-append m.orders k o a.apart free;
        same_rows =
            ap (λ (rs : List OrderRow). rs ++ order_row o ∷ []) a.same_rows
            ∙ sym (rows-append m.orders ((k, o) ∷ []));
        lines =
            All-append (HasLines (inserted o d)) m.orders ((k, o) ∷ [])
              (All-mono _ (HasLines (inserted o d)) kept m.orders
                (All-both _ (HasLines d) m.orders (has_row-others o.id m.orders free) a.lines))
              (
                keep-append (λ r. text_eq r.order_id o.id) d.items new
                    ∙ rw (no_lines, lines_of-own o.id 0 o.items) refl,
                tt,
              );
        no_others = λ id other.
            let (old, own) = both_false _ _ (
              sym (
                ap (has_row id) (rows-append m.orders ((k, o) ∷ []))
                ∙ has_row-append id (rows m.orders) (order_row o))
              ∙ other) in
            keep-append (λ r. text_eq r.order_id id) d.items new
            ∙ rw (a.no_others id old, lines_of-other o.id id 0 o.items own) refl;
        events = a.events;
      }
    where
      kept :
          (e : Text × Order)
          → (text_eq (e.1).id o.id ≡ false) × HasLines d e
          → HasLines (inserted o d) e
      kept (j, p) (other, own) =
          keep-append (λ r. text_eq r.order_id p.id) d.items (item_rows o.id 0 o.items)
          ∙ rw (own, lines_of-other o.id p.id 0 o.items (text_eq_swap p.id o.id other))
              (append-nil (item_rows p.id 0 p.items))

  create-extended :
      (o : Order) (m : State)
      → is_empty o.tenant_id ≡ false
      → lookup (key o.tenant_id o.id) m.orders ≡ none
      → Memory.create o m ≡ (ok tt, extended o m)
  unfolding Memory.create extended
  create-extended o m given free =
      rw (given, free)
        (ap (λ (es : Entries). (ok tt, record m { orders = es }))
          (insert-new (key o.tenant_id o.id) o m.orders free))

  -- Both stores take an order whose id no order has.
  pub create-Alike :
      (o : Order) (m : State) (d : Tables)
      → IsStorable o
      → has_row o.id (rows m.orders) ≡ false
      → Agree m d
      → Alike {A = Unit {0}} (Memory.create o m) (Postgres.create o d)
  create-Alike o m d h free a =
      let v = (validate_order_iff o).0 h.valid in
      let same =
        create-extended o m v.tenant_given
          (lookup-has_row o.tenant_id o.id m.orders h.plain (keyed m.orders a.entries) free) in
      let same' =
        create-inserted o d h (ap (has_row o.id) a.same_rows ∙ free) (a.no_others o.id free) in
      rw (same, same') (refl, Agree-extended o m d h free a)

  -- Both stores take an event.
  pub publish-Alike :
      (trace : Text) (e : Event) (m : State) (d : Tables)
      → IsStorable e.order
      → s.canonical e.aggregate_id ≡ some e.aggregate_id
      → s.takes e.tenant_id ≡ true
      → s.takes trace ≡ true
      → Agree m d
      → Alike {A = Unit {0}} (Memory.publish e m) (Postgres.publish trace e d)
  unfolding Memory.publish Postgres.publish insert_event with_id with_texts outbox_row
  publish-Alike trace e m d h known tenant_taken trace_taken a =
      let (payload, json) =
        s.marshal-some e.order h.dated.0 h.dated.1 h.known h.taken
          (IsStorable-HasCodes e.order h) in
      rw (json, tenant_taken, trace_taken, known)
        (
          refl,
          record {
            entries = a.entries;
            apart = a.apart;
            same_rows = a.same_rows;
            lines = a.lines;
            no_others = a.no_others;
            events =
                map-append told d.outbox _
                ∙ ap (λ xs. xs ++ told_as (some payload) ∷ []) a.events
                ∙ ap (λ p. map told_of m.events ++ told_as p ∷ []) (sym json)
                ∙ sym (map-append told_of m.events (e ∷ []));
          },
        )
    where
      told_as : Option Text → Told
      told_as p =
          (event_name e.event_type, (e.aggregate_id, (e.tenant_id, (p, s.stored e.occurred_at))))
