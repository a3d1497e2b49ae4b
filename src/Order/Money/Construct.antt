-- ===== src/Order/Money/Construct.antt =====
-- `Validate`, and `NewMoney` with its normalisation.
use boilerplate_go_grpc_micr.Common.{
  zero, suc, ltb, ◌+◌, ◌*◌, ◌<◌, ◌≡◌, refl, ap, ◌⊎◌, ◌↔◌, inl, inr, true, false, [], ◌∷◌, arith,
  Bool-cases, ◌&&◌,
}
use boilerplate_go_grpc_micr.Common.Int.{
  ℤ, pos, negsuc, pos_part, neg_part, ◌+ℤ◌, ◌-ℤ◌, ◌*ℤ◌, wrap64, wrap64_exact, wrap64-IsInt64,
  wrap64_far, IsInt64, IsInt32, tdiv, trem, IsInt64-cases, eq_of_parts, one_part, +ℤ_parts,
  -ℤ_parts, ltb_ℤ,
}
use boilerplate_go_grpc_micr.Common.Text.{Text}
use boilerplate_go_grpc_micr.Order.Errors.{Sentinel, ok, err}
use boilerplate_go_grpc_micr.Order.Money.{
  Money, Casing, nanos_per_unit, valid_currency_code, nanos_out_of_range, signs_disagree, validate,
  agree, normalized, new_money,
}
use boilerplate_go_grpc_micr.Order.Money.Bounds.{
  IsAmount, IsWithin, value_parts, Fits, Exact, beyond_max-cases, tdiv_parts, trem_parts, *ℤ_parts,
}

-- Nanos below one unit in size.
abbrev IsFraction : ℤ → Type 0
IsFraction n = (pos_part n < nanos_per_unit) × (neg_part n < nanos_per_unit)

-- No two signs.
abbrev Agrees : ℤ → ℤ → Type 0
Agrees u n = ((neg_part n ≡ 0) ⊎ (pos_part u ≡ 0)) × ((pos_part n ≡ 0) ⊎ (neg_part u ≡ 0))

IsFraction-cases :
    (n : ℤ)
    → ((nanos_out_of_range n ≡ true) × ¬ IsFraction n)
      ⊎ ((nanos_out_of_range n ≡ false) × IsFraction n)
unfolding nanos_out_of_range
IsFraction-cases (pos n) = elim (Bool-cases (ltb n nanos_per_unit)) [
  | inl h ↦ inr (ground arith)
  | inr h ↦ inl (ground arith)
]
IsFraction-cases (negsuc n) = elim (Bool-cases (ltb (suc n) nanos_per_unit)) [
  | inl h ↦ inr (ground arith)
  | inr h ↦ inl (ground arith)
]

signs-cases :
    (u n : ℤ)
    → ((signs_disagree u n ≡ true) × ¬ Agrees u n) ⊎ ((signs_disagree u n ≡ false) × Agrees u n)
unfolding signs_disagree
signs-cases (pos zero) n = inr (refl, (inr refl, inr refl))
signs-cases (pos (suc u)) (pos n) = inr (ground arith)
signs-cases (pos (suc u)) (negsuc n) = inl (ground arith)
signs-cases (negsuc u) (pos zero) = inr (ground arith)
signs-cases (negsuc u) (pos (suc n)) = inl (ground arith)
signs-cases (negsuc u) (negsuc n) = inr (ground arith)

-- Validation passes exactly for a valid currency code and a canonical amount in range.
pub validate_iff :
    (m : Money) → (validate m ≡ ok tt) ↔ ((valid_currency_code m.currency_code ≡ true) × IsAmount m)
unfolding validate
validate_iff m =
    ground (arith, IsFraction-cases m.nanos, signs-cases m.units m.nanos, beyond_max-cases m.units)

-- The total that units and nanos stand for, in parts.
abbrev SameTotal : ℤ → ℤ → ℤ → ℤ → Type 0
SameTotal u n u' n' =
    pos_part u' * nanos_per_unit + pos_part n' + neg_part u * nanos_per_unit + neg_part n
    ≡ neg_part u' * nanos_per_unit + neg_part n' + pos_part u * nanos_per_unit + pos_part n

-- `agree` gives the two one sign, and keeps the fraction small and the total unchanged.
agree_lem :
    (u n : ℤ)
    → IsInt64 u
    → IsFraction n
    → IsFraction (agree u n).1
      × Agrees (agree u n).0 (agree u n).1
      × SameTotal u n (agree u n).0 (agree u n).1
unfolding agree
agree_lem u n hu hn = elim (Bool-cases (ltb_ℤ (pos 0) u && ltb_ℤ n (pos 0))) [
  | inl down ↦
      let e =
        wrap64_exact (u -ℤ pos 1) (ground (arith, -ℤ_parts u (pos 1), one_part (u -ℤ pos 1))) in
      rw (down, e)
        (ground (
          arith,
          -ℤ_parts u (pos 1),
          one_part (u -ℤ pos 1),
          +ℤ_parts n (pos nanos_per_unit),
          one_part (n +ℤ pos nanos_per_unit),
          one_part n,
          one_part u,
        ))
  | inr other ↦ rw other (elim (Bool-cases (ltb_ℤ u (pos 0) && ltb_ℤ (pos 0) n)) [
    | inl up ↦
        let e =
          wrap64_exact (u +ℤ pos 1) (ground (arith, +ℤ_parts u (pos 1), one_part (u +ℤ pos 1))) in
        rw (up, e)
          (ground (
            arith,
            +ℤ_parts u (pos 1),
            one_part (u +ℤ pos 1),
            -ℤ_parts n (pos nanos_per_unit),
            one_part (n -ℤ pos nanos_per_unit),
            one_part n,
            one_part u,
          ))
    | inr settled ↦ rw settled (ground arith)
  ])
]

-- Validation of a canonical pair under a valid code turns on the bound of the units alone.
validate_canonical :
    (m : Money)
    → valid_currency_code m.currency_code ≡ true
    → IsFraction m.nanos
    → Agrees m.units m.nanos
    → ((validate m ≡ ok tt) × IsWithin m.units)
      ⊎ ((validate m ≡ err (Sentinel.money_overflow ∷ [])) × ¬ IsWithin m.units)
unfolding validate
validate_canonical m valid small agreed =
    ground (arith, IsFraction-cases m.nanos, signs-cases m.units m.nanos, beyond_max-cases m.units)

-- What `NewMoney` is asked for: `units` and `nanos` as they come, the nanos of any size.
abbrev pub requested : ℤ → ℤ → ℤ
requested u n = u *ℤ pos nanos_per_unit +ℤ n

requested_parts :
    (u n : ℤ)
    → pos_part (requested u n) + neg_part u * nanos_per_unit + neg_part n
      ≡ neg_part (requested u n) + pos_part u * nanos_per_unit + pos_part n
requested_parts u n = omega (arith, +ℤ_parts (u *ℤ pos nanos_per_unit) n, *ℤ_parts u nanos_per_unit)

-- The carry of the nanos into the units keeps the total, unless it wraps far out of range.
carry_lem :
    (u n u' n' : ℤ)
    → IsInt64 u
    → IsInt32 n
    → IsFraction n'
    → SameTotal (wrap64 (u +ℤ tdiv n (pos nanos_per_unit))) (trem n nanos_per_unit) u' n'
    → SameTotal u n u' n' ⊎ ((¬ IsWithin u') × ¬ Fits (requested u n))
carry_lem u n u' n' hu hn small same = elim (IsInt64-cases (u +ℤ tdiv n (pos nanos_per_unit))) [
  | inl fits ↦
      let e = wrap64_exact _ fits in
      let p = ap pos_part e in
      let q = ap neg_part e in
      inl (omega (arith, +ℤ_parts u (tdiv n (pos nanos_per_unit)), tdiv_parts n, trem_parts n))
  | inr wraps ↦ elim (wrap64_far (u +ℤ tdiv n (pos nanos_per_unit))) [
    | inl exact ↦ absurd (wraps (rw exact at (wrap64-IsInt64 (u +ℤ tdiv n (pos nanos_per_unit)))))
    | inr far ↦
        let landed = wrap64-IsInt64 (u +ℤ tdiv n (pos nanos_per_unit)) in
        let sum = +ℤ_parts u (tdiv n (pos nanos_per_unit)) in
        inr (
          (λ within. omega (arith, tdiv_parts n, trem_parts n, one_part u')),
          (λ fits. omega (arith, tdiv_parts n, trem_parts n, requested_parts u n, one_part u)),
        )
  ]
]

-- For int64 units and int32 nanos of any signs, `NewMoney` builds the canonical amount of exactly
-- that value, and fails with the overflow error where no amount has it, for every currency code
-- whose upper case is valid.
pub new_money-Exact :
    ⦃c : Casing⦄ (code : Text) (u n : ℤ)
    → valid_currency_code (c.to_upper code) ≡ true
    → IsInt64 u
    → IsInt32 n
    → Exact (c.to_upper code) (requested u n) (new_money code u n)
unfolding new_money normalized
new_money-Exact ⦃c⦄ code u n valid hu hn =
    let u1 = wrap64 (u +ℤ tdiv n (pos nanos_per_unit)) in
    let n1 = trem n nanos_per_unit in
    let m : Money = record {
      currency_code = c.to_upper code;
      units = (agree u1 n1).0;
      nanos = (agree u1 n1).1;
    } in
    let (small, agreed, same) = agree_lem u1 n1 (wrap64-IsInt64 _) (omega (arith, trem_parts n)) in
    let kept = carry_lem u n m.units m.nanos hu hn small same in
    elim (validate_canonical m valid small agreed) [
      | inl (passes, within) ↦ rw passes (elim kept [
        | inl total ↦ (
          refl,
          eq_of_parts _ _ (omega (arith, value_parts m, requested_parts u n)),
          ((validate_iff m).0 passes).1,
        )
        | inr (out, _) ↦ absurd (out within)
      ])
      | inr (fails, beyond) ↦ rw fails (
        refl,
        elim kept [
          | inl total ↦ λ fits. beyond (
              omega (
                arith,
                requested_parts u n,
                agreed,
                one_part m.units,
                one_part m.nanos,
                one_part (requested u n),
              ))
          | inr (_, out) ↦ out
        ],
      )
    ]
