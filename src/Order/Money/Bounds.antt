-- ===== src/Order/Money/Bounds.antt =====
-- What a valid amount is, the number that it stands for, and that no valid amount wraps.
use boilerplate_go_grpc_micr.Common.{
  ℕ, ◌+◌, ◌*◌, ◌/◌, ◌%◌, ◌≤◌, ◌<◌, ◌≡◌, refl, ap, false, inl, inr, leb, ◌&&◌, Bool-cases, ◌⊎◌, true,
  [], ◌∷◌, arith,
}
use boilerplate_go_grpc_micr.Common.Int.{
  ℤ, pos, pos_part, neg_part, ◌+ℤ◌, ◌*ℤ◌, wrap64_exact, IsInt64, tdiv, trem, +ℤ_parts, eq_of_parts,
  one_part,
}
use boilerplate_go_grpc_micr.Common.Text.{Text}
use boilerplate_go_grpc_micr.Order.Errors.{Sentinel, Result, ok, err}
use boilerplate_go_grpc_micr.Order.Money.{
  Money, nanos_per_unit, max_units, beyond_max, total_nanos, from_total_nanos,
}

-- Nanos below one unit, units within the bound, and no two signs.
pub record IsAmount (m : Money) : Type 0 where
  pub nanos_small : (pos_part m.nanos < nanos_per_unit) × (neg_part m.nanos < nanos_per_unit)
  pub units_bounded : (pos_part m.units ≤ max_units) × (neg_part m.units ≤ max_units)
  pub pos_agrees : (neg_part m.nanos ≡ 0) ⊎ (pos_part m.units ≡ 0)
  pub neg_agrees : (pos_part m.nanos ≡ 0) ⊎ (neg_part m.units ≡ 0)

-- The exact number of nanos that an amount stands for.
unfoldable pub value : Money → ℤ
value m = m.units *ℤ pos nanos_per_unit +ℤ m.nanos

-- The numbers of nanos that some amount stands for.
abbrev pub Fits : ℤ → Type 0
Fits z =
    (pos_part z < (max_units + 1) * nanos_per_unit)
    × (neg_part z < (max_units + 1) * nanos_per_unit)

pub *ℤ_parts :
    (a : ℤ) (c : ℕ)
    → (pos_part (a *ℤ pos c) ≡ pos_part a * c) × (neg_part (a *ℤ pos c) ≡ neg_part a * c)
unfolding ◌*ℤ◌
*ℤ_parts a c = ground arith

pub value_parts :
    (m : Money)
    → pos_part (value m) + neg_part m.units * nanos_per_unit + neg_part m.nanos
      ≡ neg_part (value m) + pos_part m.units * nanos_per_unit + pos_part m.nanos
unfolding value
value_parts m =
    omega (arith, +ℤ_parts (m.units *ℤ pos nanos_per_unit) m.nanos, *ℤ_parts m.units nanos_per_unit)

pub tdiv_parts :
    (a : ℤ)
    → (pos_part (tdiv a (pos nanos_per_unit)) ≡ pos_part a / nanos_per_unit)
      × (neg_part (tdiv a (pos nanos_per_unit)) ≡ neg_part a / nanos_per_unit)
unfolding tdiv
tdiv_parts a = ground arith

pub trem_parts :
    (a : ℤ)
    → (pos_part (trem a nanos_per_unit) ≡ pos_part a % nanos_per_unit)
      × (neg_part (trem a nanos_per_unit) ≡ neg_part a % nanos_per_unit)
unfolding trem
trem_parts a = ground arith

-- A valid amount stands for a number in range.
pub value-Fits : (m : Money) → IsAmount m → Fits (value m)
value-Fits m v = omega (arith, value_parts m, one_part (value m))

-- Two valid amounts of one value have the same units and nanos: the form is canonical.
pub value-injective :
    (m o : Money)
    → IsAmount m
    → IsAmount o
    → value m ≡ value o
    → (m.units ≡ o.units) × (m.nanos ≡ o.nanos)
value-injective m o v w h =
    let parts = ap pos_part h in
    let parts' = ap neg_part h in
    (
      eq_of_parts m.units o.units (
          omega (
            arith,
            value_parts m,
            value_parts o,
            one_part m.units,
            one_part o.units,
            one_part m.nanos,
            one_part o.nanos,
          )),
      eq_of_parts m.nanos o.nanos (
          omega (
            arith,
            value_parts m,
            value_parts o,
            one_part m.units,
            one_part o.units,
            one_part m.nanos,
            one_part o.nanos,
          )),
    )

-- The numbers of units that an amount may have.
abbrev pub IsWithin : ℤ → Type 0
IsWithin u = (pos_part u ≤ max_units) × (neg_part u ≤ max_units)

pub beyond_max-cases :
    (u : ℤ) → ((beyond_max u ≡ true) × ¬ IsWithin u) ⊎ ((beyond_max u ≡ false) × IsWithin u)
unfolding beyond_max
beyond_max-cases u = elim (Bool-cases (leb (pos_part u) max_units && leb (neg_part u) max_units)) [
  | inl h ↦ inr (ground arith)
  | inr h ↦ inl (ground arith)
]

-- The bound on the units leaves room for the nanos: the total of a valid amount does not wrap.
pub total_nanos-eq-value : (m : Money) → IsAmount m → total_nanos m ≡ ok (value m)
unfolding total_nanos value
total_nanos-eq-value m v = elim (beyond_max-cases m.units) [
  | inl (_, out) ↦ absurd (out v.units_bounded)
  | inr (within, _) ↦
      let u = m.units *ℤ pos nanos_per_unit in
      let scaled : IsInt64 u = omega (arith, *ℤ_parts m.units nanos_per_unit) in
      let total : IsInt64 (u +ℤ m.nanos) =
        omega
          (arith, *ℤ_parts m.units nanos_per_unit, +ℤ_parts u m.nanos, one_part (u +ℤ m.nanos)) in
      rw (within, wrap64_exact _ scaled, wrap64_exact _ total)
]

-- How a computed amount must end, given the exact result `z`.
abbrev pub Exact : Text → ℤ → Result Money → Type 0
Exact code z (ok m) = (m.currency_code ≡ code) × (value m ≡ z) × IsAmount m
Exact code z (err e) = (e ≡ Sentinel.money_overflow ∷ []) × ¬ Fits z

-- An amount is rebuilt from its total, or the total is out of range.
pub from_total_nanos-Exact : (code : Text) (t : ℤ) → Exact code t (from_total_nanos code t)
unfolding from_total_nanos
from_total_nanos-Exact code t =
    let u = tdiv t (pos nanos_per_unit) in
    let r : Money = record { currency_code = code; units = u; nanos = trem t nanos_per_unit } in
    elim (beyond_max-cases u) [
      | inl (beyond, out) ↦ rw beyond (refl, λ fits. out (omega (arith, tdiv_parts t)))
      | inr (within, bounded) ↦ rw within (
        refl,
        eq_of_parts _ _ (omega (arith, value_parts r, tdiv_parts t, trem_parts t)),
        omega (arith, bounded, tdiv_parts t, trem_parts t, one_part t),
      )
    ]
