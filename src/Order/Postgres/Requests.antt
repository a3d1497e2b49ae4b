-- ===== src/Order/Postgres/Requests.antt =====
-- Any sequence of requests: the answers over the tables are those over the in-memory store.
use boilerplate_go_grpc_micr.Common.{
  ℕ, ◌≡◌, refl, ap, sym, ◌∙◌, inl, inr, false, Option, List, [], ◌∷◌, ◌++◌, map, All, All-both,
  All-mono, Bool-cases, some, true, ◌||◌,
}
use mathlib.Core.Path.{subst}
use boilerplate_go_grpc_micr.Common.Text.{Text, text_eq, is_empty}
use boilerplate_go_grpc_micr.Order.Errors.{Result, ok, err}
use boilerplate_go_grpc_micr.Order.Money.{Casing}
use boilerplate_go_grpc_micr.Order.Aggregate.{Order, Time}
use boilerplate_go_grpc_micr.Order.Aggregate.Orders.{HasInt32}
use boilerplate_go_grpc_micr.Order.Cursor.{TokenCodec, Page, decode_page_token}
use boilerplate_go_grpc_micr.Order.Ports.{Ports}
use boilerplate_go_grpc_micr.Order.Memory
use boilerplate_go_grpc_micr.Order.Memory.{State, Entries, key, lookup, insert}
use boilerplate_go_grpc_micr.Order.Memory.Map.{NoNul, lookup-All}
use boilerplate_go_grpc_micr.Order.Service
use boilerplate_go_grpc_micr.Order.Service.{CreateCommand}
use boilerplate_go_grpc_micr.Order.Service.Creating.{Creates, create-Creates}
use boilerplate_go_grpc_micr.Order.Service.Cancelling.{CancelsOrder, cancel_order-CancelsOrder}
use boilerplate_go_grpc_micr.Order.Service.History.{Request, get-state, list-state}
use boilerplate_go_grpc_micr.Order.Rows.{Storage, order_row, fits}
use boilerplate_go_grpc_micr.Order.Postgres.{Tables, has_row}
use boilerplate_go_grpc_micr.Order.Postgres.Listing
use boilerplate_go_grpc_micr.Order.Postgres.Statements.{rows}
use boilerplate_go_grpc_micr.Order.Postgres.Agreement.{Agree, told, told_of}
use boilerplate_go_grpc_micr.Order.Postgres.Inserting.{has_row-others, both_false}
use boilerplate_go_grpc_micr.Order.Postgres.Selecting.{IsStoredPlace}
use boilerplate_go_grpc_micr.Order.Postgres.Transactions.{cancel-same, IsStoredTime}
use boilerplate_go_grpc_micr.Order.Postgres.Serving.{
  created-Alike, cancel_order-Alike, got-Alike, listed-Alike, AreTaken,
}

-- What a caller is told.
pub data Answer : Type 0 where
  order_answer : Result Order → Answer
  page_answer : Result Page → Answer

-- The answer to a request, and the state behind it.
module _ ⦃c : Casing⦄ {S : Type 0} where
  abbrev answer_to : Ports S → Request → S → Answer × S
  answer_to p (Request.create_order cmd id now) s =
      let r = Service.create p cmd id now s in (Answer.order_answer (r.0), r.1)
  answer_to p (Request.cancel_order tenant id now) s =
      let r = Service.cancel_order p tenant id now s in (Answer.order_answer (r.0), r.1)
  answer_to p (Request.get_order tenant id) s =
      let r = Service.get p tenant id s in (Answer.order_answer (r.0), r.1)
  answer_to p (Request.list_orders tenant f) s =
      let r = Service.list p tenant f s in (Answer.page_answer (r.0), r.1)

  -- The answers to requests, each with its trace, one after another, and the last state.
  abbrev pub run : (Text → Ports S) → List (Text × Request) → S → List Answer × S
  run p [] s = ([], s)
  run p ((trace, r) ∷ rs) s =
      let a = answer_to (p trace) r s in let rest = run p rs (a.1) in (a.0 ∷ rest.0, rest.1)

-- The ids that requests draw.
abbrev drawn : Result Text → List Text
drawn (ok i) = i ∷ []
drawn (err e) = []

abbrev ids_of : Request → List Text
ids_of (Request.create_order cmd id now) = drawn id
ids_of (Request.cancel_order tenant id now) = []
ids_of (Request.get_order tenant id) = []
ids_of (Request.list_orders tenant f) = []

abbrev ids : List (Text × Request) → List Text
ids [] = []
ids ((_, r) ∷ rs) = ids_of r ++ ids rs

-- No id is drawn again.
abbrev pub AreFresh : List (Text × Request) → Type 0
AreFresh [] = Unit
AreFresh ((_, r) ∷ rs) = All (λ j. All (λ i. text_eq i j ≡ false) (ids_of r)) (ids rs) × AreFresh rs

All-split {ℓ κ} :
    {A : Type ℓ} (P : A → Type κ) (xs ys : List A) → All P (xs ++ ys) → All P xs × All P ys
All-split P [] ys h = (tt, h)
All-split P (x ∷ xs) ys (h, hs) = let (l, r) = All-split P xs ys hs in ((h, l), r)

-- The tables as the migrations make them, and the sequence anywhere.
abbrev pub no_rows : ℕ → Tables
no_rows n = record { orders = []; items = []; outbox = []; next_id = n }

module _ ⦃c : Casing⦄ ⦃k : TokenCodec⦄ ⦃s : Storage⦄ where
  -- An id that the database stores as it is.
  abbrev pub IsUuid : Text → Type 0
  IsUuid i = s.canonical i ≡ some i

  -- A request whose data the database stores as they are: ids, instants, int32 quantities, tenants
  -- without a NUL byte, items that one INSERT holds, and texts, its trace among them, that PostgreSQL takes.
  abbrev pub IsPlain : Text × Request → Type 0
  IsPlain (trace, Request.create_order cmd id now) =
      NoNul cmd.tenant_id
      × HasInt32 cmd.items
      × AreTaken cmd
      × (fits cmd.items ≡ true)
      × (s.takes trace ≡ true)
      × All IsUuid (drawn id)
      × IsStoredTime now
  IsPlain (trace, Request.cancel_order tenant id now) =
      NoNul tenant × IsUuid id × (s.takes tenant ≡ true) × (s.takes trace ≡ true) × IsStoredTime now
  IsPlain (_, Request.get_order tenant id) = NoNul tenant × IsUuid id × (s.takes tenant ≡ true)
  IsPlain (_, Request.list_orders tenant f) =
      ((cursor : Option (Time × Text))
        → decode_page_token tenant f ≡ ok cursor
        → IsStoredPlace cursor)
      × (s.takes tenant ≡ true)
      × ((is_empty f.customer_id || s.takes f.customer_id) ≡ true)

  has_row-insert_other :
      (i at : Text) (o : Order) (es : Entries)
      → has_row i (rows es) ≡ false
      → text_eq o.id i ≡ false
      → has_row i (rows (insert at o es)) ≡ false
  unfolding has_row insert order_row
  has_row-insert_other i at o [] h other = rw other refl
  has_row-insert_other i at o ((j, p) ∷ es) h other =
      let (head, tail) = both_false (text_eq p.id i) (has_row i (rows es)) h in
      elim (Bool-cases (text_eq j at)) [
        | inl b ↦ rw (b, other) tail
        | inr b ↦ rw (b, head) (has_row-insert_other i at o es tail other)
      ]

  -- A request leaves an id free that it does not draw.
  create-IsFree :
      (i : Text) (cmd : CreateCommand) (id : Result Text) (now : Time) (m : State)
      → has_row i (rows m.orders) ≡ false
      → All (λ j. text_eq j i ≡ false) (drawn id)
      → has_row i (rows (Service.create Memory.ports cmd id now m).1.orders) ≡ false
  create-IsFree i cmd id now m free other =
      go (Service.create Memory.ports cmd id now m) (create-Creates cmd id now m)
    where
      go : (r : _) → Creates cmd id now m r → has_row i (rows r.1.orders) ≡ false
      go (err e, m') h = subst (λ (x : State). has_row i (rows x.orders) ≡ false) (sym h) free
      go (ok o, m') (h, _, _, _, _, _, same, _) =
          subst (λ (x : State). has_row i (rows x.orders) ≡ false) (sym h)
            (has_row-insert_other i (key o.tenant_id o.id) o m.orders free
              ((subst (λ x. All (λ j. text_eq j i ≡ false) (drawn x)) same other).0))

  cancel-IsFree :
      (i tenant id : Text) (now : Time) (m : State)
      → has_row i (rows m.orders) ≡ false
      → has_row i (rows (Service.cancel_order Memory.ports tenant id now m).1.orders) ≡ false
  cancel-IsFree i tenant id now m free =
      go (Service.cancel_order Memory.ports tenant id now m)
        (cancel_order-CancelsOrder tenant id now m)
    where
      go : (r : _) → CancelsOrder tenant id now m r → has_row i (rows r.1.orders) ≡ false
      go (err e, m') h = subst (λ (x : State). has_row i (rows x.orders) ≡ false) (sym h) free
      go (ok o', m') (o, found, done, h, _) =
          subst (λ (x : State). has_row i (rows x.orders) ≡ false) (sym h)
            (has_row-insert_other i (key o'.tenant_id o'.id) o' m.orders free (
              ap (λ (p : Order). text_eq p.id i) (cancel-same o now done)
              ∙ lookup-All (λ e. text_eq (e.1).id i ≡ false) (key tenant id) m.orders o
                  (has_row-others i m.orders free) found))

  abbrev IsFree : State → Text → Type 0
  IsFree m i = has_row i (rows m.orders) ≡ false

  request-IsFree :
      (i : Text) (r : Request) (m : State)
      → IsFree m i
      → All (λ j. text_eq j i ≡ false) (ids_of r)
      → IsFree (answer_to Memory.ports r m).1 i
  unfolding Service.get Memory.get Service.list Memory.list
  request-IsFree i (Request.create_order cmd id now) m free other =
      create-IsFree i cmd id now m free other
  request-IsFree i (Request.cancel_order tenant id now) m free other =
      cancel-IsFree i tenant id now m free
  request-IsFree i (Request.get_order tenant id) m free other =
      subst (λ x. IsFree x i) (sym (get-state tenant id m)) free
  request-IsFree i (Request.list_orders tenant f) m free other =
      subst (λ x. IsFree x i) (sym (list-state tenant f m)) free

  -- One request over both stores.
  request-Alike :
      (trace : Text) (r : Request) (m : State) (d : Tables)
      → IsPlain (trace, r)
      → All (IsFree m) (ids_of r)
      → Agree m d
      → ((answer_to Memory.ports r m).0 ≡ (answer_to (Listing.ports trace) r d).0)
        × Agree (answer_to Memory.ports r m).1 (answer_to (Listing.ports trace) r d).1
  request-Alike trace (Request.create_order cmd id now) m d
        (plain, range, taken, few, traced, uuid, kept) free a =
      let (same, a') =
        created-Alike trace cmd id now m d plain range taken few traced kept
          (λ j e. (
            (subst (λ x. All (IsFree m) (drawn x)) e free).0,
            (subst (λ x. All IsUuid (drawn x)) e uuid).0,
          ))
          a in
      (ap Answer.order_answer same, a')
  request-Alike trace (Request.cancel_order tenant id now) m d (plain, known, taken, traced, kept)
        free a =
      let (same, a') = cancel_order-Alike trace tenant id now m d plain known taken traced kept a in
      (ap Answer.order_answer same, a')
  request-Alike trace (Request.get_order tenant id) m d (plain, known, taken) free a =
      let (same, a') = got-Alike trace tenant id m d plain known taken a in
      (ap Answer.order_answer same, a')
  request-Alike trace (Request.list_orders tenant f) m d (place, tenant_taken, customer_taken) free
        a =
      let (same, a') = listed-Alike trace tenant f m d place tenant_taken customer_taken a in
      (ap Answer.page_answer same, a')

  -- From stores that agree, and ids that are free.
  run-Alike :
      (rs : List (Text × Request)) (m : State) (d : Tables)
      → All IsPlain rs
      → AreFresh rs
      → All (IsFree m) (ids rs)
      → Agree m d
      → ((run (λ _. Memory.ports) rs m).0 ≡ (run Listing.ports rs d).0)
        × Agree (run (λ _. Memory.ports) rs m).1 (run Listing.ports rs d).1
  run-Alike [] m d h fresh free a = (refl, a)
  run-Alike ((trace, r) ∷ rs) m d (h, hs) (other, fresh) free a =
      let (own, later) = All-split (IsFree m) (ids_of r) (ids rs) free in
      let (same, a') = request-Alike trace r m d h own a in
      let m' = (answer_to Memory.ports r m).1 in
      let d' = (answer_to (Listing.ports trace) r d).1 in
      let later' =
        All-mono (λ i. IsFree m i × All (λ j. text_eq j i ≡ false) (ids_of r)) (IsFree m')
          (λ i (x, y). request-IsFree i r m x y) (ids rs) (All-both _ _ (ids rs) later other) in
      let (sames, a'') = run-Alike rs m' d' hs fresh later' a' in (cons_eq same sames, a'')
    where
      cons_eq : {x y : Answer} {xs ys : List Answer} → x ≡ y → xs ≡ ys → x ∷ xs ≡ y ∷ ys
      cons_eq h k = rw (h, k) refl

  all-IsFree : (is : List Text) → All (IsFree Memory.new) is
  unfolding has_row Memory.new
  all-IsFree [] = tt
  all-IsFree (i ∷ is) = (refl, all-IsFree is)

  -- For any sequence of requests, each with its trace, if no id is drawn twice, the tenants of the
  -- creates, cancels and reads hold no NUL byte, PostgreSQL takes the tenant of each request, the
  -- customer of each create and of each filter that has one, the SKUs of each create and the traces
  -- of the creates and cancels, the items of a create fit into one INSERT, the quantities are int32, the instants of the clock have a JSON
  -- form, and the database stores these instants, the ids and the places in the page tokens as they
  -- are, then the service answers each request over PostgreSQL's empty tables, with no statement
  -- that fails by a cause outside the data, exactly as it does over an empty in-memory store. In the
  -- end the rows of the outbox tell the events of the in-memory store, in their order.
  pub run-ports :
      (rs : List (Text × Request)) (n : ℕ)
      → All IsPlain rs
      → AreFresh rs
      → ((run (λ _. Memory.ports) rs Memory.new).0 ≡ (run Listing.ports rs (no_rows n)).0)
        × (map told (run Listing.ports rs (no_rows n)).1.outbox
            ≡ map told_of (run (λ _. Memory.ports) rs Memory.new).1.events)
  unfolding Memory.new has_row
  run-ports rs n h fresh =
      let (same, a) = run-Alike rs Memory.new (no_rows n) h fresh (all-IsFree (ids rs)) (record {
        entries = tt;
        apart = tt;
        same_rows = refl;
        lines = tt;
        no_others = λ id e. refl;
        events = refl;
      }) in
      (same, a.events)
