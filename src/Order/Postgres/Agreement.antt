-- ===== src/Order/Postgres/Agreement.antt =====
-- The in-memory store and the tables hold the same orders and events: what each operation keeps.
use boilerplate_go_grpc_micr.Common.{
  ◌≡◌, refl, ap, sym, ◌∙◌, inl, inr, true, false, Option, none, some, [], ◌∷◌, map, All, All-both,
  Bool-cases,
}
use mathlib.Core.Path.{subst}
use boilerplate_go_grpc_micr.Common.Text.{Text, is_empty, text_eq}
use boilerplate_go_grpc_micr.Order.Errors.{Sentinel, Result, ok, err}
use boilerplate_go_grpc_micr.Order.Money.{Casing}
use boilerplate_go_grpc_micr.Order.Aggregate.{Order, Time, validate_order}
use boilerplate_go_grpc_micr.Order.Aggregate.Orders.{HasInt32}
use boilerplate_go_grpc_micr.Order.Ports.{Event}
use boilerplate_go_grpc_micr.Order.Memory
use boilerplate_go_grpc_micr.Order.Memory.{State, Entries, key, lookup, insert}
use boilerplate_go_grpc_micr.Order.Memory.Map.{NoNul}
use boilerplate_go_grpc_micr.Order.Rows.{Storage, item_rows, order_row, to_domain, AreTexts, fits}
use boilerplate_go_grpc_micr.Order.Rows.RoundTrip.{HasStored, to_domain-order_row}
use boilerplate_go_grpc_micr.Outbox.{Row}
use boilerplate_go_grpc_micr.Order.Postgres
use boilerplate_go_grpc_micr.Order.Postgres.{
  Tables, lines_of, sort_lines, row_of, has_row, event_name, set_columns, with_id, with_texts,
}
use boilerplate_go_grpc_micr.Order.Postgres.Statements.{IsKeyed, rows, row_if, row_of-rows}
use boilerplate_go_grpc_micr.Order.Postgres.Lines.{sort_lines-item_rows}

module _ ⦃c : Casing⦄ ⦃s : Storage⦄ where
  -- An order that the tables can hold.
  pub record IsStorable (o : Order) : Type 0 where
    pub plain : NoNul o.tenant_id
    pub valid : validate_order o ≡ ok tt
    pub int32 : HasInt32 o.items
    pub stored : HasStored o
    pub dated : (s.in_json_years o.created_at ≡ true) × (s.in_json_years o.updated_at ≡ true)
    pub known : s.canonical o.id ≡ some o.id
    pub taken : AreTexts s.takes o
    pub few : fits o.items ≡ true

  abbrev pub IsEntry : Text × Order → Type 0
  IsEntry (k, o) = (k ≡ key o.tenant_id o.id) × IsStorable o

  -- No two entries have one id.
  abbrev pub AreApart : Entries → Type 0
  AreApart [] = Unit
  AreApart (e ∷ es) = (has_row (e.1).id (rows es) ≡ false) × AreApart es

  -- The lines of the entry's order are its items.
  abbrev pub HasLines : Tables → Text × Order → Type 0
  HasLines d (k, o) = lines_of o.id d.items ≡ item_rows o.id 0 o.items

  -- What an outbox row tells of its event.
  abbrev pub Told : Type 0
  Told = Text × (Text × (Text × (Option Text × Time)))

  abbrev pub told : Row → Told
  told r = (r.event_type, (r.aggregate_id, (r.tenant_id, (some r.payload, r.occurred_at))))

  abbrev pub told_of : Event → Told
  told_of e = (
    event_name e.event_type,
    (e.aggregate_id, (e.tenant_id, (s.marshal e.order, s.stored e.occurred_at))),
  )

  -- The store and the tables agree.
  pub record Agree (m : State) (d : Tables) : Type 0 where
    pub entries : All IsEntry m.orders
    pub apart : AreApart m.orders
    pub same_rows : d.orders ≡ rows m.orders
    pub lines : All (HasLines d) m.orders
    pub no_others : (id : Text) → has_row id (rows m.orders) ≡ false → lines_of id d.items ≡ []
    pub events : map told d.outbox ≡ map told_of m.events

  pub keyed : (es : Entries) → All IsEntry es → All IsKeyed es
  keyed [] h = tt
  keyed (e ∷ es) ((at, storable), hs) = ((at, storable.plain), keyed es hs)

  -- Two calls end alike: the same answer, and stores that agree.
  abbrev pub Alike : {A : Type 0} → Result A × State → Result A × Tables → Type 0
  Alike a b = (a.0 ≡ b.0) × Agree a.1 b.1

  -- What is found has its lines, and is an entry.
  lookup-both {κ} :
      (P : Text × Order → Type κ) (k : Text) (es : Entries) (o : Order)
      → All P es
      → lookup k es ≡ some o
      → (j : Text) × P (j, o)
  unfolding lookup
  lookup-both P k [] o h e = cc
  lookup-both P k ((j, p) ∷ es) o h e = elim (Bool-cases (text_eq j k)) [
    | inl b ↦ (j, subst (λ q. P (j, q)) (found (rw b at e)) h.0)
    | inr b ↦ lookup-both P k es o h.1 (rw b at e)
  ]
    where
      found : {p o : Order} → some p ≡ some o → p ≡ o
      found e = cc

  -- A stored order is read back from the tables.
  pub read_back :
      (d : Tables) (e : Text × Order)
      → IsEntry e × HasLines d e
      → to_domain (order_row (e.1)) (sort_lines (lines_of (e.1).id d.items)) ≡ ok (e.1)
  read_back d (j, o) ((_, storable), own) =
      let sorted = ap sort_lines own ∙ sort_lines-item_rows o.id 0 o.items in
      ap (to_domain (order_row o)) sorted
      ∙ to_domain-order_row o storable.int32 storable.stored storable.valid

  -- Both stores read the same.
  pub get-Alike :
      (tenant id : Text) (m : State) (d : Tables)
      → NoNul tenant
      → s.canonical id ≡ some id
      → s.takes tenant ≡ true
      → Agree m d
      → Alike (Memory.get tenant id m) (Postgres.get tenant id d)
  unfolding Memory.get Postgres.get with_id with_texts order_row lookup row_of
  get-Alike tenant id m d plain known taken h = elim (Bool-cases (is_empty tenant)) [
    | inl t ↦ rw t (refl, h)
    | inr t ↦
        let same =
          ap (row_of tenant id) h.same_rows
          ∙ row_of-rows tenant id m.orders plain (keyed m.orders h.entries) in
        rw (t, taken, known, same) (go (lookup (key tenant id) m.orders) refl)
  ]
    where
      go :
          (r : Option Order)
          → lookup (key tenant id) m.orders ≡ r
          → Alike {A = Order}
              (elim r [ none ↦ (err (Sentinel.not_found ∷ []), m) | some o ↦ (ok o, m) ])
              (elim (row_if r) [
                | none ↦ (err (Sentinel.not_found ∷ []), d)
                | some x ↦ (to_domain x (sort_lines (lines_of x.id d.items)), d)
              ])
      go none e = (refl, h)
      go (some o) e =
          let (j, h') =
            lookup-both (λ e. IsEntry e × HasLines d e) (key tenant id) m.orders o
              (All-both IsEntry (HasLines d) m.orders h.entries h.lines) e in
          (sym (read_back d (j, o) h'), h)
