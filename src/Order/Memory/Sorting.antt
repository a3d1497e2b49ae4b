-- ===== src/Order/Memory/Sorting.antt =====
-- The listing is sorted: `less` is a strict order on the orders of one tenant.
use boilerplate_go_grpc_micr.Common.{
  ◌≡◌, ◌≢◌, refl, ◌⊎◌, inl, inr, true, false, List, [], ◌∷◌, ◌++◌, arith, All, Bool-cases,
}
use boilerplate_go_grpc_micr.Common.Text.{text_lt_irrefl, text_lt_trans, text_lt_total}
use boilerplate_go_grpc_micr.Order.Aggregate.{Order}
use boilerplate_go_grpc_micr.Order.Memory.{less, is_after, sorted, insert_sorted, skip_until}

-- One of the two comes before the other.
abbrev pub Comparable : Order → Order → Type 0
Comparable a b = (less a b ≡ true) ⊎ (less b a ≡ true)

pub less_irrefl : (a : Order) → less a a ≡ false
unfolding less
less_irrefl a = ground (arith, text_lt_irrefl a.id)

pub less_trans : (a b c : Order) → less a b ≡ true → less b c ≡ true → less a c ≡ true
unfolding less
less_trans a b c h k = ground (arith, text_lt_trans a.id b.id c.id)

pub less_asymm : (a b : Order) → less a b ≡ true → less b a ≡ false
less_asymm a b h = ground (arith, less_trans a b a, less_irrefl a)

-- Orders of different ids are comparable.
pub Comparable-of_ne : (a b : Order) → a.id ≢ b.id → Comparable a b
unfolding less
Comparable-of_ne a b h = ground (arith, text_lt_total a.id b.id)

-- The test of the cursor is the order of the listing.
pub is_after-less : (a o : Order) → is_after (a.created_at, a.id) o ≡ less a o
unfolding is_after less
is_after-less a o = ground arith

-- Every element comes before those behind it.
abbrev pub IsSorted : List Order → Type 0
IsSorted [] = Unit
IsSorted (o ∷ os) = All (λ p. less o p ≡ true) os × IsSorted os

-- Any two elements are comparable.
abbrev pub AreComparable : List Order → Type 0
AreComparable [] = Unit
AreComparable (o ∷ os) = All (Comparable o) os × AreComparable os

All-less :
    (o p : Order) (ps : List Order)
    → less o p ≡ true
    → All (λ q. less p q ≡ true) ps
    → All (λ q. less o q ≡ true) ps
All-less o p [] h k = tt
All-less o p (q ∷ ps) h k = (less_trans o p q h k.0, All-less o p ps h k.1)

insert_sorted-All {κ} :
    (P : Order → Type κ) (o : Order) (ps : List Order) → P o → All P ps → All P (insert_sorted o ps)
unfolding insert_sorted
insert_sorted-All P o [] h k = (h, tt)
insert_sorted-All P o (p ∷ ps) h k = elim (Bool-cases (less o p)) [
  | inl e ↦ rw e (h, k)
  | inr e ↦ rw e (k.0, insert_sorted-All P o ps h k.1)
]

insert_sorted-IsSorted :
    (o : Order) (ps : List Order)
    → All (Comparable o) ps
    → IsSorted ps
    → IsSorted (insert_sorted o ps)
unfolding insert_sorted
insert_sorted-IsSorted o [] h k = (tt, tt)
insert_sorted-IsSorted o (p ∷ ps) h k = elim (Bool-cases (less o p)) [
  | inl e ↦ rw e ((e, All-less o p ps e k.0), k)
  | inr e ↦ rw e (insert_sorted-All _ o ps (ground arith) k.0, insert_sorted-IsSorted o ps h.1 k.1)
]

pub sorted-All {κ} : (P : Order → Type κ) (os : List Order) → All P os → All P (sorted os)
unfolding sorted
sorted-All P [] h = tt
sorted-All P (o ∷ os) h = insert_sorted-All P o (sorted os) h.0 (sorted-All P os h.1)

pub sorted-IsSorted : (os : List Order) → AreComparable os → IsSorted (sorted os)
unfolding sorted
sorted-IsSorted [] h = tt
sorted-IsSorted (o ∷ os) h =
    insert_sorted-IsSorted o (sorted os) (sorted-All _ os h.0) (sorted-IsSorted os h.1)

skip_until_after :
    (l : Order) (post : List Order)
    → All (λ p. less l p ≡ true) post
    → skip_until (l.created_at, l.id) post ≡ post
unfolding skip_until
skip_until_after l [] h = refl
skip_until_after l (p ∷ post) h = rw (is_after-less l p, h.0)

pub All-middle {κ} :
    (P : Order → Type κ) (pre : List Order) (l : Order) (post : List Order)
    → All P (pre ++ l ∷ post)
    → P l
All-middle P [] l post h = h.0
All-middle P (p ∷ pre) l post h = All-middle P pre l post h.1

-- Skipping to a cursor that stands at an element leaves what comes behind that element.
pub skip_until_lem :
    (pre : List Order) (l : Order) (post : List Order)
    → IsSorted (pre ++ l ∷ post)
    → skip_until (l.created_at, l.id) (pre ++ l ∷ post) ≡ post
unfolding skip_until
skip_until_lem [] l post h = rw (is_after-less l l, less_irrefl l) (skip_until_after l post h.0)
skip_until_lem (p ∷ pre) l post h =
    rw (is_after-less l p, less_asymm p l (All-middle _ pre l post h.0))
      (skip_until_lem pre l post h.1)
