-- ===== src/Order/Money.antt =====
-- internal/order/money.go: exact decimal amounts. `int64` and `int32` fields are integers that
-- the theorems hold in range; every int64 operation wraps as Go's does.
pub mod Bounds
pub mod Exact
pub mod Product
pub mod Construct
use boilerplate_go_grpc_micr.Common.{
  ℕ, ◌-◌, ◌/◌, ◌^◌, ◌≡◌, Bool, true, false, not, ◌&&◌, ◌||◌, [], ◌∷◌, ltb, leb, ◌==◌, if◌then◌else◌,
  length,
}
use boilerplate_go_grpc_micr.Common.Int.{
  ℤ, pos, negsuc, ◌+ℤ◌, ◌-ℤ◌, ◌*ℤ◌, ltb_ℤ, eqb_ℤ, wrap64, wrap32, tdiv, trem,
}
use boilerplate_go_grpc_micr.Common.Text.{Text, text_eq}
use boilerplate_go_grpc_micr.Order.Errors.{Sentinel, Result, ok, err, ◌>>=◌, ◌>>◌, fail_if}

abbrev pub nanos_per_unit : ℕ
nanos_per_unit = 1_000_000_000

abbrev pub max_units : ℕ
max_units = (2 ^ 63 - 1 - (nanos_per_unit - 1)) / nanos_per_unit

pub record Money : Type 0 where
  pub currency_code : Text
  pub units : ℤ
  pub nanos : ℤ

unfoldable pub all_upper : Text → Bool
all_upper [] = true
all_upper (r ∷ s) = if ltb r b'A' || ltb b'Z' r then false else all_upper s

unfoldable pub valid_currency_code : Text → Bool
unfolding all_upper
valid_currency_code s = if not (length s == 3) then false else all_upper s

-- `strings.ToUpper`, whose table covers all of Unicode. The code relies on one law: a code of
-- three letters A-Z is its own upper case.
pub record Casing : Type 0 where
  pub to_upper : Text → Text
  pub to_upper_fixed : (s : Text) → valid_currency_code s ≡ true → to_upper s ≡ s

-- `units > maxUnits || units < -maxUnits`
unfoldable pub beyond_max : ℤ → Bool
beyond_max u = ltb_ℤ (pos max_units) u || ltb_ℤ u (negsuc (max_units - 1))

-- `nanos <= -NanosPerUnit || nanos >= NanosPerUnit`
unfoldable pub nanos_out_of_range : ℤ → Bool
nanos_out_of_range n =
    not (ltb_ℤ (negsuc (nanos_per_unit - 1)) n) || not (ltb_ℤ n (pos nanos_per_unit))

-- `(units > 0 && nanos < 0) || (units < 0 && nanos > 0)`
unfoldable pub signs_disagree : ℤ → ℤ → Bool
signs_disagree u n = (ltb_ℤ (pos 0) u && ltb_ℤ n (pos 0)) || (ltb_ℤ u (pos 0) && ltb_ℤ (pos 0) n)

-- `Money.Validate`
unfoldable pub validate : Money → Result (Unit {0})
validate m = do
  fail_if (not (valid_currency_code m.currency_code)) (Sentinel.invalid_currency_code ∷ [])
  fail_if (nanos_out_of_range m.nanos) (Sentinel.invalid_money ∷ [])
  fail_if (signs_disagree m.units m.nanos) (Sentinel.invalid_money ∷ [])
  fail_if (beyond_max m.units) (Sentinel.money_overflow ∷ [])

-- `Zero`
unfoldable pub zero_money : ⦃c : Casing⦄ → Text → Money
zero_money ⦃c⦄ code = record { currency_code = c.to_upper code; units = pos 0; nanos = pos 0 }

-- The `switch` of `normalized`: units and nanos are made to agree in sign.
unfoldable pub agree : ℤ → ℤ → ℤ × ℤ
agree u n =
    if ltb_ℤ (pos 0) u && ltb_ℤ n (pos 0)
    then (wrap64 (u -ℤ pos 1), n +ℤ pos nanos_per_unit)
    else if ltb_ℤ u (pos 0) && ltb_ℤ (pos 0) n
    then (wrap64 (u +ℤ pos 1), n -ℤ pos nanos_per_unit)
    else (u, n)

unfoldable pub normalized : ⦃c : Casing⦄ → Money → Money
normalized ⦃c⦄ m =
    let (u, n) =
      agree (wrap64 (m.units +ℤ tdiv m.nanos (pos nanos_per_unit))) (trem m.nanos nanos_per_unit) in
    record { currency_code = c.to_upper m.currency_code; units = u; nanos = n }

unfoldable pub new_money : ⦃c : Casing⦄ → Text → ℤ → ℤ → Result Money
new_money code u n = do
  let m = normalized (record { currency_code = code; units = u; nanos = n })
  validate m
  ok m

unfoldable pub total_nanos : Money → Result ℤ
total_nanos m = do
  fail_if (beyond_max m.units) (Sentinel.money_overflow ∷ [])
  ok (wrap64 (wrap64 (m.units *ℤ pos nanos_per_unit) +ℤ m.nanos))

-- `int32(total % NanosPerUnit)` is below 10 ^ 9 in size, so the conversion keeps it.
unfoldable pub from_total_nanos : Text → ℤ → Result Money
from_total_nanos code total = do
  let u = tdiv total (pos nanos_per_unit)
  fail_if (beyond_max u) (Sentinel.money_overflow ∷ [])
  ok (record { currency_code = code; units = u; nanos = trem total nanos_per_unit })

unfoldable pub require_same_currency : Money → Money → Result (Unit {0})
require_same_currency m o =
    fail_if (not (text_eq m.currency_code o.currency_code)) (Sentinel.currency_mismatch ∷ [])

-- The overflow test of `combine`: the sign of the change is not that of the operand.
unfoldable pub sum_overflows : ℤ → ℤ → ℤ → Bool
sum_overflows a b sum = (ltb_ℤ (pos 0) b && ltb_ℤ sum a) || (ltb_ℤ b (pos 0) && ltb_ℤ a sum)

unfoldable pub combine : Money → Money → Bool → Result Money
unfolding require_same_currency
combine m o negate = do
  require_same_currency m o
  a ← total_nanos m
  b' ← total_nanos o
  let b = if negate then wrap64 (pos 0 -ℤ b') else b'
  let sum = wrap64 (a +ℤ b)
  fail_if (sum_overflows a b sum) (Sentinel.money_overflow ∷ [])
  from_total_nanos m.currency_code sum

unfoldable pub add : Money → Money → Result Money
add m o = combine m o false

unfoldable pub sub : Money → Money → Result Money
sub m o = combine m o true

-- The part of `Mul` behind `n != 0`.
unfoldable pub mul_total : Text → ℤ → ℤ → Result Money
mul_total code total n = do
  let product = wrap64 (total *ℤ n)
  fail_if (not (eqb_ℤ (wrap64 (tdiv product n)) total)) (Sentinel.money_overflow ∷ [])
  from_total_nanos code product

unfoldable pub mul : ⦃c : Casing⦄ → Money → ℤ → Result Money
mul m n = do
  total ← total_nanos m
  if eqb_ℤ n (pos 0) then ok (zero_money m.currency_code) else mul_total m.currency_code total n

unfoldable pub neg : Money → Money
neg m = record m { units = wrap64 (pos 0 -ℤ m.units); nanos = wrap32 (pos 0 -ℤ m.nanos) }

unfoldable pub is_zero : Money → Bool
is_zero m = eqb_ℤ m.units (pos 0) && eqb_ℤ m.nanos (pos 0)

unfoldable pub is_negative : Money → Bool
is_negative m = ltb_ℤ m.units (pos 0) || ltb_ℤ m.nanos (pos 0)

-- `Compare`
unfoldable pub compare_money : Money → Money → Result ℤ
unfolding require_same_currency
compare_money m o = do
  require_same_currency m o
  a ← total_nanos m
  b ← total_nanos o
  if ltb_ℤ a b then ok (negsuc 0) else if ltb_ℤ b a then ok (pos 1) else ok (pos 0)
