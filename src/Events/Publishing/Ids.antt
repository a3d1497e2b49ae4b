-- ===== src/Events/Publishing/Ids.antt =====
-- Message ids are unique across the services of a stream.
use boilerplate_go_grpc_micr.Common.{
  ℕ, zero, suc, ◌+◌, ◌*◌, ◌-◌, ◌≡◌, ◌<◌, refl, ap, sym, ◌∙◌, false, [], ◌∷◌, ◌++◌, All, Bool-cases,
  inl, inr, arith, ltb,
}
use Prim.Native.Nat.{◌/◌, ◌%◌}
use mathlib.Core.Path.{subst}
use boilerplate_go_grpc_micr.Common.Text.{Text}
use boilerplate_go_grpc_micr.Events.Publishing.{digits, decimal, message_id}

-- The number that digits denote, behind those that denote `acc`.
unfoldable value : ℕ → Text → ℕ
value acc [] = acc
value acc (b ∷ bs) = value (acc * 10 + (b - b'0')) bs

value-append : (acc b : ℕ) (s : Text) → value acc (s ++ b ∷ []) ≡ value acc s * 10 + (b - b'0')
unfolding value
value-append acc b [] = refl
value-append acc b (c ∷ s) = value-append (acc * 10 + (c - b'0')) b s

digits-last : (n : ℕ) → n / 10 * 10 + (b'0' + n % 10 - b'0') ≡ n
digits-last n = omega arith

digit-value : (n : ℕ) → 0 + (b'0' + n - b'0') ≡ n
digit-value n = omega arith

front_below : (fuel n : ℕ) → ltb n 10 ≡ false → n < suc fuel → n / 10 < fuel
front_below fuel n b h = ground arith

value-digits : (fuel n : ℕ) → n < fuel → value 0 (digits fuel n) ≡ n
unfolding digits value
value-digits zero n h = absurd (omega arith)
value-digits (suc fuel) n h = elim (Bool-cases (ltb n 10)) [
  | inl b ↦ rw b (digit-value n)
  | inr b ↦ rw b (
      value-append 0 (b'0' + n % 10) (digits fuel (n / 10))
      ∙ rw (value-digits fuel (n / 10) (front_below fuel n b h)) (digits-last n))
]

decimal-injective : (n m : ℕ) → decimal n ≡ decimal m → n ≡ m
unfolding decimal
decimal-injective n m h =
    sym (value-digits (suc n) n (omega arith))
    ∙ ap (value 0) h
    ∙ value-digits (suc m) m (omega arith)

-- No byte is a dash.
abbrev NoDash : Text → Type 0
NoDash s = All (λ b. b'-' < b) s

All-append : (s u : Text) → NoDash s → NoDash u → NoDash (s ++ u)
All-append [] u h k = k
All-append (c ∷ s) u (h, hs) k = (h, All-append s u hs k)

digits-NoDash : (fuel n : ℕ) → NoDash (digits fuel n)
unfolding digits
digits-NoDash zero n = tt
digits-NoDash (suc fuel) n = elim (Bool-cases (ltb n 10)) [
  | inl b ↦ rw b (omega arith, tt)
  | inr b ↦
      rw b (All-append (digits fuel (n / 10)) _ (digits-NoDash fuel (n / 10)) (omega arith, tt))
]

dash_in : (s u : Text) → NoDash (s ++ b'-' ∷ u) → ⊥
dash_in [] u h = absurd (omega arith)
dash_in (c ∷ s) u h = dash_in s u h.1

-- A text without a dash behind the last dash, and what stands before it.
last_dash :
    (s s' u u' : Text)
    → NoDash u
    → NoDash u'
    → s ++ b'-' ∷ u ≡ s' ++ b'-' ∷ u'
    → (s ≡ s') × (u ≡ u')
last_dash [] [] u u' h k e = (refl, cc)
last_dash [] (c ∷ s') u u' h k e =
    let rest : u ≡ s' ++ b'-' ∷ u' = cc in absurd (dash_in s' u' (subst NoDash rest h))
last_dash (c ∷ s) [] u u' h k e =
    let rest : u' ≡ s ++ b'-' ∷ u = cc in absurd (dash_in s u (subst NoDash rest k))
last_dash (c ∷ s) (d ∷ s') u u' h k e =
    let rest : s ++ b'-' ∷ u ≡ s' ++ b'-' ∷ u' = cc in
    let head : c ≡ d = cc in
    let (front, back) = last_dash s s' u u' h k rest in (rw (head, front) refl, back)

-- Messages of different services, or of different rows of one service, have different ids.
pub message_id-injective :
    (service service' : Text) (id id' : ℕ)
    → message_id service id ≡ message_id service' id'
    → (service ≡ service') × (id ≡ id')
unfolding message_id decimal
message_id-injective service service' id id' e =
    let (same, back) =
      last_dash service service' (decimal id) (decimal id') (digits-NoDash (suc id) id)
        (digits-NoDash (suc id') id') e in
    (same, decimal-injective id id' back)
