-- ===== src/Order/Postgres/Selecting.antt =====
-- The rows that a listing selects, and their order, against the orders of the in-memory store.
use boilerplate_go_grpc_micr.Common.{
  ◌≡◌, refl, ap, sym, ◌∙◌, inl, inr, Bool, true, Option, none, some, List, [], ◌∷◌, map, keep, All,
  Bool-cases, if◌then◌else◌, arith,
}
use boilerplate_go_grpc_micr.Common.Text.{Text, text_eq, text_lt_trans}
use boilerplate_go_grpc_micr.Order.Status.{
  Status, status_string, status_valid, same_status, unspecified, pending, confirmed, shipped,
  cancelled, undeclared,
}
use boilerplate_go_grpc_micr.Order.Aggregate.{Order, Time}
use boilerplate_go_grpc_micr.Order.Cursor.{ListFilter, Page}
use boilerplate_go_grpc_micr.Order.Memory.{
  matches, less, insert_sorted, sorted, is_after, skip_until, resume,
}
use boilerplate_go_grpc_micr.Order.Memory.Sorting.{Comparable, AreComparable, sorted-All}
use boilerplate_go_grpc_micr.Order.Rows.{OrderRow, Storage, order_row}
use boilerplate_go_grpc_micr.Order.Rows.RoundTrip.{HasStored}
use boilerplate_go_grpc_micr.Order.Postgres.Listing.{
  is_selected, is_behind, row_less, insert_row, sort_rows, with_place,
}
use boilerplate_go_grpc_micr.Order.Postgres.{with_id, Tables}
use boilerplate_go_grpc_micr.Order.Ports.{Action}

-- The test for a status, on names and on numbers.
same_name :
    (a b : Status)
    → status_valid a ≡ true
    → text_eq (status_string a) (status_string b) ≡ same_status a b
unfolding status_string status_valid text_eq
same_name pending b h = ground arith
same_name confirmed b h = ground arith
same_name shipped b h = ground arith
same_name cancelled b h = ground arith
same_name unspecified b h = cc
same_name (undeclared n) b h = cc

-- What comes behind an order that is behind the cursor is behind it too.
is_after-less_lem :
    (c : Time × Text) (a b : Order) → less a b ≡ true → is_after c a ≡ true → is_after c b ≡ true
unfolding is_after less
is_after-less_lem (t, i) a b h k = ground (arith, text_lt_trans i a.id b.id)

skip_until-insert_sorted :
    (c : Time × Text) (o : Order) (ps : List Order)
    → All (Comparable o) ps
    → skip_until c (insert_sorted o ps)
      ≡ (if is_after c o then insert_sorted o (skip_until c ps) else skip_until c ps)
unfolding skip_until insert_sorted
skip_until-insert_sorted c o [] h = ground arith
skip_until-insert_sorted c o (p ∷ ps) (h, hs) =
    let rest = skip_until-insert_sorted c o ps hs in
    let up = is_after-less_lem c o p in
    let down = is_after-less_lem c p o in ground (arith, rest, up, down, h)

-- The loop to the cursor leaves what is behind it.
skip_until-sorted :
    (c : Time × Text) (os : List Order)
    → AreComparable os
    → skip_until c (sorted os) ≡ sorted (keep (is_after c) os)
unfolding skip_until sorted
skip_until-sorted c [] h = refl
skip_until-sorted c (o ∷ os) (h, hs) =
    skip_until-insert_sorted c o (sorted os) (sorted-All _ os h)
    ∙ elim (Bool-cases (is_after c o)) [
      | inl b ↦ rw b (ap (insert_sorted o) (skip_until-sorted c os hs))
      | inr b ↦ rw b (skip_until-sorted c os hs)
    ]

module _ ⦃s : Storage⦄ where
  row_less-order_row :
      (a b : Order)
      → s.stored a.created_at ≡ a.created_at
      → s.stored b.created_at ≡ b.created_at
      → row_less (order_row a) (order_row b) ≡ less a b
  unfolding row_less less order_row
  row_less-order_row a b h k = rw (h, k) refl

  insert_row-map :
      (o : Order) (os : List Order)
      → HasStored o
      → All HasStored os
      → insert_row (order_row o) (map order_row os) ≡ map order_row (insert_sorted o os)
  unfolding insert_row insert_sorted
  insert_row-map o [] h hs = refl
  insert_row-map o (p ∷ os) h (k, hs) =
      let test = row_less-order_row o p h.0 k.0 in
      elim (Bool-cases (less o p)) [
        | inl b ↦ rw (test, b) refl
        | inr b ↦
            rw (test, b) (ap (λ (rs : List OrderRow). order_row p ∷ rs) (insert_row-map o os h hs))
      ]

  -- The rows in the order of the statement are those of the sorted orders.
  pub sort_rows-map :
      (os : List Order)
      → All HasStored os
      → sort_rows (map order_row os) ≡ map order_row (sorted os)
  unfolding sort_rows sorted
  sort_rows-map [] h = refl
  sort_rows-map (o ∷ os) (h, hs) =
      ap (insert_row (order_row o)) (sort_rows-map os hs)
      ∙ insert_row-map o (sorted os) h (sorted-All _ os hs)

  pub keep-map :
      (f : OrderRow → Bool) (g : Order → Bool) (os : List Order)
      → All (λ o. f (order_row o) ≡ g o) os
      → keep f (map order_row os) ≡ map order_row (keep g os)
  keep-map f g [] h = refl
  keep-map f g (o ∷ os) (h, hs) = elim (Bool-cases (g o)) [
    | inl b ↦ rw (h, b) (ap (λ (rs : List OrderRow). order_row o ∷ rs) (keep-map f g os hs))
    | inr b ↦ rw (h, b) (keep-map f g os hs)
  ]

  pub is_selected-order_row :
      (tenant : Text) (f : ListFilter) (o : Order)
      → status_valid o.status ≡ true
      → is_selected tenant f (order_row o) ≡ matches tenant f o
  unfolding is_selected matches order_row
  is_selected-order_row tenant f o h = rw (same_name o.status f.status h) refl

  -- Behind a cursor, if there is one.
  abbrev pub behind : Option (Time × Text) → Order → Bool
  behind none o = true
  behind (some c) o = is_after c o

  -- A place that the database takes as it is.
  abbrev pub IsStoredPlace : Option (Time × Text) → Type 0
  IsStoredPlace none = Unit
  IsStoredPlace (some (at, id)) = (s.stored at ≡ at) × (s.canonical id ≡ some id)

  pub is_behind-order_row :
      (c : Option (Time × Text)) (o : Order) → HasStored o → is_behind c (order_row o) ≡ behind c o
  unfolding is_behind is_after order_row
  is_behind-order_row none o h = refl
  is_behind-order_row (some (at, id)) o h = rw (h.0) refl

  pub with_place-stored :
      (c : Option (Time × Text)) (f : Option (Time × Text) → Action Tables Page) (d : Tables)
      → IsStoredPlace c
      → with_place c f d ≡ f c d
  unfolding with_place with_id
  with_place-stored none f d h = refl
  with_place-stored (some (at, id)) f d (h, known) = rw (known, h) refl

  keep-true : (os : List Order) → keep (λ _. true) os ≡ os
  keep-true [] = refl
  keep-true (o ∷ os) = ap (λ (ps : List Order). o ∷ ps) (keep-true os)

  pub resume-sorted :
      (c : Option (Time × Text)) (os : List Order)
      → AreComparable os
      → resume c (sorted os) ≡ sorted (keep (behind c) os)
  resume-sorted none os h = ap sorted (sym (keep-true os))
  resume-sorted (some c) os h = skip_until-sorted c os h
