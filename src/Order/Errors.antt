-- ===== src/Order/Errors.antt =====
-- internal/order/errors.go and the sentinels of internal/order/money.go. An error is the list
-- of the sentinels that `errors.Is` finds in it: `fmt.Errorf("%w: ...", E)` has one, a wrap of
-- a wrap has both, and an error that wraps none is the empty list. Messages are left out.
use boilerplate_go_grpc_micr.Common.{
  Bool, true, false, ◌||◌, List, [], ◌∷◌, ◌≡◌, refl, ◌⊎◌, inl, inr,
}

pub data Sentinel : Type 0 where
  not_found duplicate invalid_transition no_items invalid_item : Sentinel
  missing_tenant invalid_page_token : Sentinel
  currency_mismatch money_overflow invalid_currency_code invalid_money : Sentinel

abbrev pub Err : Type 0
Err = List Sentinel

abbrev pub same_sentinel : Sentinel → Sentinel → Bool
same_sentinel Sentinel.not_found Sentinel.not_found = true
same_sentinel Sentinel.duplicate Sentinel.duplicate = true
same_sentinel Sentinel.invalid_transition Sentinel.invalid_transition = true
same_sentinel Sentinel.no_items Sentinel.no_items = true
same_sentinel Sentinel.invalid_item Sentinel.invalid_item = true
same_sentinel Sentinel.missing_tenant Sentinel.missing_tenant = true
same_sentinel Sentinel.invalid_page_token Sentinel.invalid_page_token = true
same_sentinel Sentinel.currency_mismatch Sentinel.currency_mismatch = true
same_sentinel Sentinel.money_overflow Sentinel.money_overflow = true
same_sentinel Sentinel.invalid_currency_code Sentinel.invalid_currency_code = true
same_sentinel Sentinel.invalid_money Sentinel.invalid_money = true
same_sentinel _ _ = false

-- `errors.Is(err, s)`
abbrev pub errors_is : Err → Sentinel → Bool
errors_is [] s = false
errors_is (e ∷ es) s = same_sentinel e s || errors_is es s

pub data Result {ℓ} (X : Type ℓ) : Type ℓ where
  ok : X → Result X
  err : Err → Result X

-- `if c { return e }`
abbrev pub fail_if : Bool → Err → Result (Unit {0})
fail_if true e = err e
fail_if false e = ok tt

-- `if err != nil { return err }` between two calls.
infixl 5 ◌>>=◌ ◌>>◌
abbrev pub ◌>>=◌ {ℓ κ} : {X : Type ℓ} {Y : Type κ} → Result X → (X → Result Y) → Result Y
err failure >>= next = err failure
ok x >>= next = next x

abbrev pub ◌>>◌ {κ} : {Y : Type κ} → Result (Unit {0}) → Result Y → Result Y
step >> next = step >>= λ _. next

-- `fmt.Errorf("%w: ...: %w", s, err)`
abbrev pub wrap_err {ℓ} : {A : Type ℓ} → Sentinel → Result A → Result A
wrap_err s (ok a) = ok a
wrap_err s (err e) = err (s ∷ e)

-- Inversion of a successful bind.
pub >>=-eq-ok {ℓ κ} :
    {X : Type ℓ} {Y : Type κ} (r : Result X) (next : X → Result Y) {y : Y}
    → (r >>= next) ≡ ok y
    → (x : X) × (r ≡ ok x) × (next x ≡ ok y)
>>=-eq-ok (err failure) next h = cc
>>=-eq-ok (ok x) next h = (x, refl, h)

pub fail_if-eq-ok : (b : Bool) (e : Err) {u : Unit {0}} → fail_if b e ≡ ok u → b ≡ false
fail_if-eq-ok true e h = cc
fail_if-eq-ok false e h = refl

pub Result-cases {ℓ} :
    {A : Type ℓ} (r : Result A) → ((e : Err) × (r ≡ err e)) ⊎ ((a : A) × (r ≡ ok a))
Result-cases (ok a) = inr (a, refl)
Result-cases (err e) = inl (e, refl)
