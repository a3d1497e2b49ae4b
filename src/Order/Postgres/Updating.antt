-- ===== src/Order/Postgres/Updating.antt =====
-- What a write to a stored order does to both stores.
use boilerplate_go_grpc_micr.Common.{
  ◌≡◌, refl, ap, sym, ◌∙◌, inl, inr, Bool, true, false, not, ◌&&◌, ◌||◌, some, List, [], ◌∷◌, ◌++◌,
  keep, keep-append, All, All-mono, All-both, Bool-cases, contrary, append-nil,
}
use mathlib.Core.Path.{subst}
use boilerplate_go_grpc_micr.Common.Text.{Text, text_eq, text_eq→eq, eq→text_eq}
use boilerplate_go_grpc_micr.Order.Errors.{ok}
use boilerplate_go_grpc_micr.Order.Money.{Casing}
use boilerplate_go_grpc_micr.Order.Ports.{◌>>◌}
use boilerplate_go_grpc_micr.Order.Aggregate.{Order}
use boilerplate_go_grpc_micr.Order.Aggregate.Orders.{validate_order_iff}
use boilerplate_go_grpc_micr.Order.Memory
use boilerplate_go_grpc_micr.Order.Memory.{State, Entries, key, lookup, insert, is_some}
use boilerplate_go_grpc_micr.Order.Memory.Map.{NoNul, All-insert}
use boilerplate_go_grpc_micr.Order.Rows.{OrderRow, Storage, item_rows, order_row}
use boilerplate_go_grpc_micr.Order.Postgres
use boilerplate_go_grpc_micr.Order.Postgres.{
  Tables, lines_of, has_row, row_of, set_columns, update_row, write_row, delete_items, insert_given,
  with_id, with_texts,
}
use boilerplate_go_grpc_micr.Order.Postgres.Statements.{rows, row_if, row_of-rows, key_test}
use boilerplate_go_grpc_micr.Order.Postgres.Lines.{
  lines_of-own, lines_of-other, lines_of-deleted, lines_of-spared,
}
use boilerplate_go_grpc_micr.Order.Postgres.Agreement.{
  IsStorable, IsEntry, AreApart, HasLines, Agree, Alike, keyed,
}
use boilerplate_go_grpc_micr.Order.Postgres.Inserting.{
  text_eq_swap, both_false, insert_given-items, order_row-passes, has_row-others, bind-ok,
  transaction-ok,
}

same_order : {p o : Order} → some p ≡ some o → p ≡ o
same_order e = cc

module _ ⦃c : Casing⦄ ⦃s : Storage⦄ where
  set_columns-free :
      (tenant id : Text) (new : OrderRow) (rs : List OrderRow)
      → has_row id rs ≡ false
      → set_columns tenant id new rs ≡ rs
  unfolding set_columns has_row
  set_columns-free tenant id new [] h = refl
  set_columns-free tenant id new (r ∷ rs) h =
      let (head, tail) = both_false (text_eq r.id id) (has_row id rs) h in
      rw (head, and_false (text_eq r.tenant_id tenant))
        (ap (λ (qs : List OrderRow). r ∷ qs) (set_columns-free tenant id new rs tail))
    where
      and_false : (a : Bool) → (a && false) ≡ false
      and_false true = refl
      and_false false = refl

  -- The new columns over the old row make the row of the new order.
  merged :
      (p o : Order)
      → p.id ≡ o.id
      → p.tenant_id ≡ o.tenant_id
      → s.stored p.created_at ≡ s.stored o.created_at
      → record (order_row p) {
        customer_id = (order_row o).customer_id;
        status = (order_row o).status;
        currency_code = (order_row o).currency_code;
        total_units = (order_row o).total_units;
        total_nanos = (order_row o).total_nanos;
        updated_at = (order_row o).updated_at;
      }
        ≡ order_row o
  unfolding order_row
  merged p o i t at = rw (i, t, at) refl

  -- An order, its place in the entries, and the order that is written over it.
  module _ (o new : Order) (same_id : o.id ≡ new.id) (same_tenant : o.tenant_id ≡ new.tenant_id)
      (same_time : o.created_at ≡ new.created_at) (plain : NoNul new.tenant_id) where
    at : Text
    at = key new.tenant_id new.id

    set_columns-rows :
        (es : Entries)
        → All IsEntry es
        → AreApart es
        → lookup at es ≡ some o
        → set_columns new.tenant_id new.id (order_row new) (rows es) ≡ rows (insert at new es)
    unfolding set_columns lookup insert at order_row
    set_columns-rows [] h a e = cc
    set_columns-rows ((j, p) ∷ es) ((at_p, storable), hs) (apart, aparts) e =
        let test =
          ap (λ x. text_eq x at) at_p
          ∙ key_test p.tenant_id new.tenant_id p.id new.id storable.plain plain in
        elim (Bool-cases (text_eq j at)) [
          | inl b ↦
              let p_is_o = same_order (rw b at e) in
              let both = sym test ∙ b in
              let i = ap (λ (q : Order). q.id) p_is_o ∙ same_id in
              rw (both, b)
                (cons_eq
                  (merged p new i (ap (λ (q : Order). q.tenant_id) p_is_o ∙ same_tenant)
                    (ap (λ (q : Order). s.stored q.created_at) p_is_o ∙ ap s.stored same_time))
                  (set_columns-free new.tenant_id new.id (order_row new) (rows es)
                    (subst (λ x. has_row x (rows es) ≡ false) i apart)))
          | inr b ↦
              let both = sym test ∙ b in
              rw (both, b)
                (ap (λ (rs : List OrderRow). order_row p ∷ rs)
                  (set_columns-rows es hs aparts (rw b at e)))
        ]
      where
        cons_eq : {x y : OrderRow} {xs ys : List OrderRow} → x ≡ y → xs ≡ ys → x ∷ xs ≡ y ∷ ys
        cons_eq h k = rw (h, k) refl

    has_row-insert :
        (id : Text) (es : Entries)
        → lookup at es ≡ some o
        → has_row id (rows (insert at new es)) ≡ has_row id (rows es)
    unfolding lookup insert has_row order_row
    has_row-insert id [] e = cc
    has_row-insert id ((j, p) ∷ es) e = elim (Bool-cases (text_eq j at)) [
      | inl b ↦
          let i = ap (λ (q : Order). q.id) (same_order (rw b at e)) ∙ same_id in rw (b, i) refl
      | inr b ↦ rw b (ap (λ x. text_eq p.id id || x) (has_row-insert id es (rw b at e)))
    ]

    has_row-found : (es : Entries) → lookup at es ≡ some o → has_row new.id (rows es) ≡ true
    unfolding lookup has_row order_row
    has_row-found [] e = cc
    has_row-found ((j, p) ∷ es) e = elim (Bool-cases (text_eq j at)) [
      | inl b ↦
          let i = ap (λ (q : Order). q.id) (same_order (rw b at e)) ∙ same_id in
          rw (eq→text_eq _ _ i) refl
      | inr b ↦ rw (has_row-found es (rw b at e)) (or_true (text_eq p.id new.id))
    ]
      where
        or_true : (a : Bool) → (a || true) ≡ true
        or_true true = refl
        or_true false = refl

    AreApart-insert :
        (es : Entries) → AreApart es → lookup at es ≡ some o → AreApart (insert at new es)
    unfolding lookup insert
    AreApart-insert [] a e = cc
    AreApart-insert ((j, p) ∷ es) (apart, aparts) e = elim (Bool-cases (text_eq j at)) [
      | inl b ↦
          let i = ap (λ (q : Order). q.id) (same_order (rw b at e)) ∙ same_id in
          rw b (subst (λ x. has_row x (rows es) ≡ false) i apart, aparts)
      | inr b ↦
          rw b (has_row-insert p.id es (rw b at e) ∙ apart, AreApart-insert es aparts (rw b at e))
    ]

    -- The tables behind the write.
    rewritten : Tables → Tables
    rewritten d = record d {
      orders = set_columns new.tenant_id new.id (order_row new) d.orders;
      items = keep (λ r. not (text_eq r.order_id new.id)) d.items ++ item_rows new.id 0 new.items;
    }

    lines_kept :
        (d : Tables) (e : Text × Order)
        → (text_eq (e.1).id new.id ≡ false) × HasLines d e
        → HasLines (rewritten d) e
    unfolding rewritten
    lines_kept d (j, p) (other, own) =
        keep-append (λ r. text_eq r.order_id p.id)
          (keep (λ r. not (text_eq r.order_id new.id)) d.items) (item_rows new.id 0 new.items)
        ∙ rw
            (
              lines_of-spared new.id p.id d.items other,
              own,
              lines_of-other new.id p.id 0 new.items (text_eq_swap p.id new.id other),
            )
            (append-nil (item_rows p.id 0 p.items))

    lines_written : (d : Tables) → HasLines (rewritten d) (at, new)
    unfolding rewritten
    lines_written d =
        keep-append (λ r. text_eq r.order_id new.id)
          (keep (λ r. not (text_eq r.order_id new.id)) d.items) (item_rows new.id 0 new.items)
        ∙ rw (lines_of-deleted new.id d.items, lines_of-own new.id 0 new.items) refl

    lines_after :
        (d : Tables) (es : Entries)
        → AreApart es
        → All (HasLines d) es
        → lookup at es ≡ some o
        → All (HasLines (rewritten d)) (insert at new es)
    unfolding lookup insert
    lines_after d [] a h e = cc
    lines_after d ((j, p) ∷ es) (apart, aparts) (h, hs) e = elim (Bool-cases (text_eq j at)) [
      | inl b ↦
          let i = ap (λ (q : Order). q.id) (same_order (rw b at e)) ∙ same_id in
          let free = subst (λ x. has_row x (rows es) ≡ false) i apart in
          rw b (
            lines_written d,
            All-mono _ (HasLines (rewritten d)) (lines_kept d) es
                (All-both _ (HasLines d) es (has_row-others new.id es free) hs),
          )
      | inr b ↦
          let there = has_row-found es (rw b at e) in
          rw b (
            lines_kept d (j, p) (apart_id p.id (rows es) there apart, h),
            lines_after d es aparts hs (rw b at e),
          )
    ]
      where
        apart_id :
            (id : Text) (rs : List OrderRow)
            → has_row new.id rs ≡ true
            → has_row id rs ≡ false
            → text_eq id new.id ≡ false
        apart_id id rs there free = elim (Bool-cases (text_eq id new.id)) [
          | inl t ↦
              absurd (contrary there (subst (λ x. has_row x rs ≡ false) (text_eq→eq _ _ t) free))
          | inr t ↦ t
        ]

    none_after :
        (d : Tables) (es : Entries)
        → ((id : Text) → has_row id (rows es) ≡ false → lines_of id d.items ≡ [])
        → lookup at es ≡ some o
        → (id : Text) → has_row id (rows (insert at new es)) ≡ false
        → lines_of id (rewritten d).items ≡ []
    unfolding rewritten
    none_after d es h e id free =
        let old = sym (has_row-insert id es e) ∙ free in
        let other : text_eq id new.id ≡ false = elim (Bool-cases (text_eq id new.id)) [
          | inl t ↦ absurd (
              contrary (has_row-found es e)
                (subst (λ x. has_row x (rows es) ≡ false) (text_eq→eq _ _ t) old))
          | inr t ↦ t
        ] in
        keep-append (λ r. text_eq r.order_id id)
          (keep (λ r. not (text_eq r.order_id new.id)) d.items) (item_rows new.id 0 new.items)
        ∙ rw
            (
              lines_of-spared new.id id d.items other,
              h id old,
              lines_of-other new.id id 0 new.items (text_eq_swap id new.id other),
            )
            refl

    Agree-rewritten :
        (m : State) (d : Tables)
        → IsStorable new
        → lookup at m.orders ≡ some o
        → Agree m d
        → Agree (record m { orders = insert at new m.orders }) (rewritten d)
    unfolding rewritten at
    Agree-rewritten m d h e a = record {
      entries = All-insert IsEntry at new m.orders (refl, h) a.entries;
      apart = AreApart-insert m.orders a.apart e;
      same_rows =
          ap (set_columns new.tenant_id new.id (order_row new)) a.same_rows
          ∙ set_columns-rows m.orders a.entries a.apart e;
      lines = lines_after d m.orders a.apart a.lines e;
      no_others = none_after d m.orders a.no_others e;
      events = a.events;
    }

    update_row-found :
        (m : State) (d : Tables)
        → IsStorable new
        → lookup at m.orders ≡ some o
        → Agree m d
        → update_row new.tenant_id new.id (order_row new) d
          ≡ (ok tt, record d { orders = set_columns new.tenant_id new.id (order_row new) d.orders })
    unfolding update_row with_id with_texts write_row at order_row
    update_row-found m d h e a =
        let found =
          ap (row_of new.tenant_id new.id) a.same_rows
          ∙ row_of-rows new.tenant_id new.id m.orders plain (keyed m.orders a.entries)
          ∙ ap row_if e in
        rw (h.taken.0, h.taken.1, h.known)
          (ap (λ r. write_row r new.tenant_id new.id (order_row new) d) found
            ∙ rw (order_row-passes new h) refl)

    delete_items-known :
        (d : Tables)
        → s.canonical new.id ≡ some new.id
        → delete_items new.id d
          ≡ (ok tt, record d { items = keep (λ r. not (text_eq r.order_id new.id)) d.items })
    unfolding delete_items with_id
    delete_items-known d known = rw known refl

    update-rewritten :
        (m : State) (d : Tables)
        → IsStorable new
        → lookup at m.orders ≡ some o
        → Agree m d
        → Postgres.update new d ≡ (ok tt, rewritten d)
    unfolding Postgres.update delete_items with_id rewritten
    update-rewritten m d h e a =
        let v = (validate_order_iff new).0 h.valid in
        let d1 : Tables = record d {
          orders = set_columns new.tenant_id new.id (order_row new) d.orders;
        } in
        let d' : Tables = record d {
          orders = set_columns new.tenant_id new.id (order_row new) d.orders;
          items = keep (λ r. not (text_eq r.order_id new.id)) d.items;
        } in
        let set =
          bind-ok (update_row new.tenant_id new.id (order_row new))
            (λ _. delete_items new.id >> insert_given new.id (item_rows new.id 0 new.items)) d
            (update_row-found m d h e a) in
        let filled =
          insert_given-items new.id new.items d' h.known (h.taken.2) h.few v.items_valid
            (lines_of-deleted new.id d.items) in
        let cleared =
          bind-ok (delete_items new.id) (λ _. insert_given new.id (item_rows new.id 0 new.items)) d1
            (delete_items-known d1 h.known) in
        rw v.tenant_given (transaction-ok _ d (set ∙ cleared ∙ filled))

    -- Both stores take an order over one with its id, tenant and time of creation.
    pub update-Alike :
        (m : State) (d : Tables)
        → IsStorable new
        → lookup (key new.tenant_id new.id) m.orders ≡ some o
        → Agree m d
        → Alike {A = Unit {0}} (Memory.update new m) (Postgres.update new d)
    unfolding Memory.update at
    update-Alike m d h e a =
        let v = (validate_order_iff new).0 h.valid in
        rw (v.tenant_given, e, update-rewritten m d h e a) (refl, Agree-rewritten m d h e a)
