-- ===== src/Order/Postgres/Cuts.antt =====
-- Pages of rows and of orders: what is taken, kept and counted.
use boilerplate_go_grpc_micr.Common.{
  ℕ, zero, suc, ◌<◌, ◌≡◌, refl, ap, inl, inr, Bool, false, List, [], ◌∷◌, map, keep, take, length,
  ltb, All, All-mono, Bool-cases, arith,
}
use boilerplate_go_grpc_micr.Common.Text.{Text, text_eq, text_eq_self}
use boilerplate_go_grpc_micr.Order.Money.{Casing}
use boilerplate_go_grpc_micr.Order.Aggregate.{Order}
use boilerplate_go_grpc_micr.Order.Cursor.{clamp_page_size}
use boilerplate_go_grpc_micr.Order.Memory.{Entries}
use boilerplate_go_grpc_micr.Order.Memory.Sorting.{Comparable, AreComparable, Comparable-of_ne}
use boilerplate_go_grpc_micr.Order.Rows.{OrderRow, Storage, order_row}
use boilerplate_go_grpc_micr.Order.Postgres.Statements.{rows}
use boilerplate_go_grpc_micr.Order.Postgres.Agreement.{AreApart}
use boilerplate_go_grpc_micr.Order.Postgres.Inserting.{has_row-others}

pub clamp-pos : (n : _) → 0 < clamp_page_size n
unfolding clamp_page_size
clamp-pos n = ground arith

-- One row more than fits tells that there are more.
pub take-take : (n : ℕ) (xs : List Order) → take n (take (suc n) xs) ≡ take n xs
take-take zero xs = refl
take-take (suc n) [] = refl
take-take (suc n) (x ∷ xs) = ap (λ (ys : List Order). x ∷ ys) (take-take n xs)

pub ltb-take : (n : ℕ) (xs : List Order) → ltb n (length (take (suc n) xs)) ≡ ltb n (length xs)
ltb-take zero [] = refl
ltb-take zero (x ∷ xs) = ground arith
ltb-take (suc n) [] = refl
ltb-take (suc n) (x ∷ xs) = ground (arith, ltb-take n xs)

pub take_all : (n : ℕ) (xs : List Order) → ltb n (length xs) ≡ false → take n xs ≡ xs
take_all zero [] h = refl
take_all zero (x ∷ xs) h = absurd (ground arith)
take_all (suc n) [] h = refl
take_all (suc n) (x ∷ xs) h = ap (λ (ys : List Order). x ∷ ys) (take_all n xs (ground arith))

pub length-take : (n : ℕ) (xs : List Order) → n < length xs → length (take n xs) ≡ n
length-take zero xs h = refl
length-take (suc n) [] h = absurd (ground arith)
length-take (suc n) (x ∷ xs) h = ap suc (length-take n xs (omega arith))

pub All-keep {ℓ} :
    (P : Order → Type ℓ) (p : Order → Bool) (os : List Order) → All P os → All P (keep p os)
All-keep P p [] h = tt
All-keep P p (o ∷ os) (h, hs) = elim (Bool-cases (p o)) [
  | inl b ↦ rw b (h, All-keep P p os hs)
  | inr b ↦ rw b (All-keep P p os hs)
]

pub All-take {ℓ} : (P : Order → Type ℓ) (n : ℕ) (os : List Order) → All P os → All P (take n os)
All-take P zero os h = tt
All-take P (suc n) [] h = tt
All-take P (suc n) (o ∷ os) (h, hs) = (h, All-take P n os hs)

pub AreComparable-keep :
    (p : Order → Bool) (os : List Order) → AreComparable os → AreComparable (keep p os)
AreComparable-keep p [] h = tt
AreComparable-keep p (o ∷ os) (h, hs) = elim (Bool-cases (p o)) [
  | inl b ↦ rw b (All-keep (Comparable o) p os h, AreComparable-keep p os hs)
  | inr b ↦ rw b (AreComparable-keep p os hs)
]

abbrev pub orders_of : Entries → List Order
orders_of es = map (λ e. e.1) es

pub All-orders_of {ℓ} :
    (P : Order → Type ℓ) (es : Entries) → All (λ e. P (e.1)) es → All P (orders_of es)
All-orders_of P [] h = tt
All-orders_of P (e ∷ es) (h, hs) = (h, All-orders_of P es hs)

module _ ⦃c : Casing⦄ ⦃s : Storage⦄ where
  pub take-map : (n : ℕ) (os : List Order) → take n (map order_row os) ≡ map order_row (take n os)
  take-map zero os = refl
  take-map (suc n) [] = refl
  take-map (suc n) (o ∷ os) = ap (λ (rs : List OrderRow). order_row o ∷ rs) (take-map n os)

  pub length-map : (os : List Order) → length (map order_row os) ≡ length os
  length-map [] = refl
  length-map (o ∷ os) = ap suc (length-map os)

  pub rows-orders_of : (es : Entries) → rows es ≡ map order_row (orders_of es)
  rows-orders_of [] = refl
  rows-orders_of (e ∷ es) = ap (λ (rs : List OrderRow). order_row (e.1) ∷ rs) (rows-orders_of es)

  -- Orders of different ids have different places.
  pub AreApart-Comparable : (es : Entries) → AreApart es → AreComparable (orders_of es)
  AreApart-Comparable [] h = tt
  AreApart-Comparable ((j, o) ∷ es) (h, hs) = (
    All-orders_of (Comparable o) es
        (All-mono _ (λ e. Comparable o (e.1)) apart es (has_row-others o.id es h)),
    AreApart-Comparable es hs,
  )
    where
      apart : (e : Text × Order) → text_eq (e.1).id o.id ≡ false → Comparable o (e.1)
      apart (j, p) h = Comparable-of_ne o p λ same. ground (arith, h, same, text_eq_self o.id)
