-- ===== src/Order/Memory/Pages.antt =====
-- Where one page ends and the next begins.
use boilerplate_go_grpc_micr.Common.{
  ℕ, zero, suc, ◌-◌, ◌<◌, ◌≡◌, refl, ap, some, List, [], ◌∷◌, ◌++◌, arith, All, length, take, drop,
  get_elem?,
}
use boilerplate_go_grpc_micr.Order.Aggregate.{Order}
use mathlib.Core.Path.{subst}

-- The last element of a proper prefix splits the list.
split_at :
    (n : ℕ) (xs : List Order)
    → n < length xs
    → (l : Order) × (get_elem? (take (suc n) xs) n ≡ some l)
      × (xs ≡ take n xs ++ l ∷ drop (suc n) xs)
      × (take (suc n) xs ≡ take n xs ++ l ∷ [])
split_at n [] h = elim h [ ]
split_at zero (x ∷ xs) h = (x, refl, refl, refl)
split_at (suc n) (x ∷ xs) h =
    let (l, e, s, t) = split_at n xs (omega arith) in
    (l, e, ap (λ (r : List Order). x ∷ r) s, ap (λ (r : List Order). x ∷ r) t)

pub split_page :
    (n : ℕ) (xs : List Order)
    → 0 < n
    → n < length xs
    → (l : Order) × (get_elem? (take n xs) (n - 1) ≡ some l)
      × (xs ≡ take (n - 1) xs ++ l ∷ drop n xs)
      × (take n xs ≡ take (n - 1) xs ++ l ∷ [])
split_page zero xs h k = elim h [ ]
split_page (suc n) xs h k =
    subst
      (λ m.
        (l : Order) × (get_elem? (take (suc n) xs) m ≡ some l)
        × (xs ≡ take m xs ++ l ∷ drop (suc n) xs)
        × (take (suc n) xs ≡ take m xs ++ l ∷ []))
      (omega arith) (split_at n xs (omega arith))

length-drop : (n : ℕ) (xs : List Order) → length (drop n xs) ≡ length xs - n
length-drop zero xs = omega arith
length-drop (suc n) [] = omega arith
length-drop (suc n) (x ∷ xs) = omega (arith, length-drop n xs)

pub length-drop-lt :
    (n : ℕ) (xs : List Order) → 0 < n → n < length xs → length (drop n xs) < length xs
length-drop-lt n xs h k = omega (arith, length-drop n xs)

pub take-append-drop : (n : ℕ) (xs : List Order) → take n xs ++ drop n xs ≡ xs
take-append-drop zero xs = refl
take-append-drop (suc n) [] = refl
take-append-drop (suc n) (x ∷ xs) = rw (take-append-drop n xs)

pub All-drop {κ} : (P : Order → Type κ) (n : ℕ) (xs : List Order) → All P xs → All P (drop n xs)
All-drop P zero xs h = h
All-drop P (suc n) [] h = tt
All-drop P (suc n) (x ∷ xs) h = All-drop P n xs h.1
