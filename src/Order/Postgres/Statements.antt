-- ===== src/Order/Postgres/Statements.antt =====
-- The statements over the tables and the operations of the map, on the same entries.
use boilerplate_go_grpc_micr.Common.{
  ◌≡◌, refl, ap, ◌∙◌, inl, inr, Bool, true, false, ◌&&◌, ◌||◌, Option, none, some, List, [], ◌∷◌,
  ◌++◌, map, All, arith, Bool-cases, contrary,
}
use boilerplate_go_grpc_micr.Common.Text.{Text, text_eq, text_eq→eq, eq→text_eq}
use boilerplate_go_grpc_micr.Order.Aggregate.{Order}
use boilerplate_go_grpc_micr.Order.Memory.{Entries, key, lookup, insert}
use boilerplate_go_grpc_micr.Order.Memory.Map.{NoNul, key-injective}
use boilerplate_go_grpc_micr.Order.Rows.{OrderRow, Storage, order_row}
use boilerplate_go_grpc_micr.Order.Postgres.{row_of, has_row}

-- Each entry stands under the key of its order, whose tenant has no NUL byte.
abbrev pub IsKeyed : Text × Order → Type 0
IsKeyed (k, o) = (k ≡ key o.tenant_id o.id) × NoNul o.tenant_id

-- The two tests for an order agree.
pub key_test :
    (tenant tenant' id id' : Text)
    → NoNul tenant
    → NoNul tenant'
    → text_eq (key tenant id) (key tenant' id') ≡ (text_eq tenant tenant' && text_eq id id')
key_test tenant tenant' id id' h h' =
    elim (Bool-cases (text_eq (key tenant id) (key tenant' id'))) [
      | inl e ↦
          let (same, same_id) = key-injective tenant tenant' id id' h h' (text_eq→eq _ _ e) in
          rw (e, eq→text_eq _ _ same, eq→text_eq _ _ same_id) refl
      | inr e ↦ elim (Bool-cases (text_eq tenant tenant')) [
        | inl t ↦ elim (Bool-cases (text_eq id id')) [
          | inl i ↦
              absurd (contrary (eq→text_eq _ _ (both (text_eq→eq _ _ t) (text_eq→eq _ _ i))) e)
          | inr i ↦ rw (e, t, i) refl
        ]
        | inr t ↦ rw (e, t) refl
      ]
    ]
  where
    both : tenant ≡ tenant' → id ≡ id' → key tenant id ≡ key tenant' id'
    both t i = rw (t, i) refl

module _ ⦃s : Storage⦄ where
  -- The rows of the entries.
  abbrev pub rows : Entries → List OrderRow
  rows es = map (λ e. order_row (e.1)) es

  abbrev pub row_if : Option Order → Option OrderRow
  row_if none = none
  row_if (some o) = some (order_row o)

  pub row_of-rows :
      (tenant id : Text) (es : Entries)
      → NoNul tenant
      → All IsKeyed es
      → row_of tenant id (rows es) ≡ row_if (lookup (key tenant id) es)
  unfolding row_of lookup order_row
  row_of-rows tenant id [] h k = refl
  row_of-rows tenant id ((j, o) ∷ es) h ((at, plain), ks) =
      let rest = row_of-rows tenant id es h ks in
      elim (Bool-cases (text_eq o.tenant_id tenant && text_eq o.id id)) [
        | inl b ↦
            let t : text_eq j (key tenant id) ≡ true =
              ap (λ x. text_eq x (key tenant id)) at ∙ key_test _ _ _ _ plain h ∙ b in
            rw (b, t) refl
        | inr b ↦
            let t : text_eq j (key tenant id) ≡ false =
              ap (λ x. text_eq x (key tenant id)) at ∙ key_test _ _ _ _ plain h ∙ b in
            rw (b, t) rest
      ]

  -- An id that no row has is under no key.
  pub lookup-has_row :
      (tenant id : Text) (es : Entries)
      → NoNul tenant
      → All IsKeyed es
      → has_row id (rows es) ≡ false
      → lookup (key tenant id) es ≡ none
  unfolding has_row lookup order_row
  lookup-has_row tenant id [] h k free = refl
  lookup-has_row tenant id ((j, o) ∷ es) h ((at, plain), ks) free =
      elim (Bool-cases (text_eq o.id id)) [
        | inl b ↦ absurd (contrary (rw b refl) free)
        | inr b ↦
            let t : text_eq j (key tenant id) ≡ false =
              ap (λ x. text_eq x (key tenant id)) at
              ∙ key_test _ _ _ _ plain h
              ∙ rw b (and_false (text_eq o.tenant_id tenant)) in
            rw t (lookup-has_row tenant id es h ks (rw b at free))
      ]
    where
      and_false : (a : Bool) → (a && false) ≡ false
      and_false true = refl
      and_false false = refl

  pub has_row-append :
      (id : Text) (xs : List OrderRow) (r : OrderRow)
      → has_row id (xs ++ r ∷ []) ≡ (has_row id xs || text_eq r.id id)
  unfolding has_row
  has_row-append id [] r = ground arith
  has_row-append id (x ∷ xs) r = ground (arith, has_row-append id xs r)

  -- A free key is written at the end.
  pub insert-new :
      (k : Text) (o : Order) (es : Entries) → lookup k es ≡ none → insert k o es ≡ es ++ (k, o) ∷ []
  unfolding insert lookup
  insert-new k o [] h = refl
  insert-new k o ((j, p) ∷ es) h = elim (Bool-cases (text_eq j k)) [
    | inl b ↦ absurd (no_order (rw b at h))
    | inr b ↦ rw b (ap (λ (d : Entries). (j, p) ∷ d) (insert-new k o es (rw b at h)))
  ]
    where
      no_order : {p : Order} → some p ≡ none → ⊥
      no_order e = cc

  pub rows-append : (xs ys : Entries) → rows (xs ++ ys) ≡ rows xs ++ rows ys
  rows-append [] ys = refl
  rows-append (x ∷ xs) ys = ap (λ (rs : List OrderRow). order_row (x.1) ∷ rs) (rows-append xs ys)
