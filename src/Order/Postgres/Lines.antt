-- ===== src/Order/Postgres/Lines.antt =====
-- The rows of an order's items among those of others.
use boilerplate_go_grpc_micr.Common.{
  ℕ, suc, ◌≡◌, refl, ap, sym, ◌∙◌, inl, inr, true, false, not, List, [], ◌∷◌, keep, All, arith,
  Bool-cases, contrary, ltb,
}
use boilerplate_go_grpc_micr.Common.Text.{Text, text_eq, text_eq→eq, eq→text_eq, text_eq_self}
use boilerplate_go_grpc_micr.Order.Aggregate.{Item}
use boilerplate_go_grpc_micr.Order.Aggregate.Items.{IsItem, positive_iff}
use boilerplate_go_grpc_micr.Order.Rows.{ItemRow, item_row, item_rows}
use boilerplate_go_grpc_micr.Order.Postgres.{
  lines_of, sort_lines, insert_line, has_line, any_taken, all_pass,
}

pub lines_of-own :
    (id : Text) (n : ℕ) (items : List Item)
    → lines_of id (item_rows id n items) ≡ item_rows id n items
unfolding item_rows item_row
lines_of-own id n [] = refl
lines_of-own id n (i ∷ items) =
    rw (text_eq_self id)
      (ap (λ (rs : List ItemRow). item_row id n i ∷ rs) (lines_of-own id (suc n) items))

pub lines_of-other :
    (id id' : Text) (n : ℕ) (items : List Item)
    → text_eq id id' ≡ false
    → lines_of id' (item_rows id n items) ≡ []
unfolding item_rows item_row
lines_of-other id id' n [] h = refl
lines_of-other id id' n (i ∷ items) h = rw h (lines_of-other id id' (suc n) items h)

below_next : (n : ℕ) → ltb n (suc n) ≡ true
below_next n = ground arith

pub sort_lines-item_rows :
    (id : Text) (n : ℕ) (items : List Item)
    → sort_lines (item_rows id n items) ≡ item_rows id n items
unfolding sort_lines item_rows item_row
sort_lines-item_rows id n [] = refl
sort_lines-item_rows id n (i ∷ items) =
    ap (insert_line (item_row id n i)) (sort_lines-item_rows id (suc n) items) ∙ first items
  where
    first :
        (items : List Item)
        → insert_line (item_row id n i) (item_rows id (suc n) items)
          ≡ item_row id n i ∷ item_rows id (suc n) items
    first [] = refl
    first (j ∷ items) = rw (below_next n) refl

-- An id without lines takes none.
has_line-none :
    (id : Text) (n : ℕ) (i : Item) (items : List ItemRow)
    → lines_of id items ≡ []
    → has_line (item_row id n i) items ≡ false
unfolding has_line item_row
has_line-none id n i [] h = refl
has_line-none id n i (q ∷ qs) h = elim (Bool-cases (text_eq q.order_id id)) [
  | inl b ↦ absurd (no_line (rw b at h))
  | inr b ↦ rw b (has_line-none id n i qs (rw b at h))
]
  where
    no_line : {q : ItemRow} {qs : List ItemRow} → q ∷ qs ≡ [] → ⊥
    no_line e = cc

pub any_taken-none :
    (id : Text) (n : ℕ) (new : List Item) (items : List ItemRow)
    → lines_of id items ≡ []
    → any_taken (item_rows id n new) items ≡ false
unfolding any_taken item_rows
any_taken-none id n [] items h = refl
any_taken-none id n (i ∷ new) items h =
    rw (has_line-none id n i items h) (any_taken-none id (suc n) new items h)

pub all_pass-item_rows :
    (id : Text) (n : ℕ) (items : List Item)
    → All IsItem items
    → all_pass (item_rows id n items) ≡ true
unfolding all_pass item_rows item_row
all_pass-item_rows id n [] h = refl
all_pass-item_rows id n (i ∷ items) h =
    rw ((positive_iff i.quantity).1 ((h.0).quantity_positive))
      (all_pass-item_rows id (suc n) items h.1)

-- What a deletion leaves.
pub lines_of-deleted :
    (id : Text) (items : List ItemRow)
    → lines_of id (keep (λ r. not (text_eq r.order_id id)) items) ≡ []
lines_of-deleted id [] = refl
lines_of-deleted id (q ∷ qs) = elim (Bool-cases (text_eq q.order_id id)) [
  | inl b ↦ rw b (lines_of-deleted id qs)
  | inr b ↦ rw (b, b) (lines_of-deleted id qs)
]

not_both : (t u v : Text) → text_eq t v ≡ true → text_eq u v ≡ false → text_eq t u ≡ false
not_both t u v b h = elim (Bool-cases (text_eq t u)) [
  | inl e ↦ absurd (contrary (eq→text_eq u v (sym (text_eq→eq t u e) ∙ text_eq→eq t v b)) h)
  | inr e ↦ e
]

pub lines_of-spared :
    (id id' : Text) (items : List ItemRow)
    → text_eq id' id ≡ false
    → lines_of id' (keep (λ r. not (text_eq r.order_id id)) items) ≡ lines_of id' items
lines_of-spared id id' [] h = refl
lines_of-spared id id' (q ∷ qs) h = elim (Bool-cases (text_eq q.order_id id)) [
  | inl b ↦
      let other = not_both q.order_id id' id b h in rw (b, other) (lines_of-spared id id' qs h)
  | inr b ↦ elim (Bool-cases (text_eq q.order_id id')) [
    | inl e ↦ rw (b, e) (ap (λ (rs : List ItemRow). q ∷ rs) (lines_of-spared id id' qs h))
    | inr e ↦ rw (b, e) (lines_of-spared id id' qs h)
  ]
]
