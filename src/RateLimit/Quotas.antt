-- ===== src/RateLimit/Quotas.antt =====
-- What a configuration enforces, and what the interceptor makes of the limiter's answer.
use boilerplate_go_grpc_micr.Common.{
  ℕ, zero, suc, ◌*◌, ◌/◌, ◌≤◌, ◌<◌, ◌^◌, ◌≡◌, ◌↔◌, inl, inr, false, Option, none, some, [], ◌∷◌,
  arith, Bool-cases, ltb,
}
use boilerplate_go_grpc_micr.Common.Int.{pos, wrap64_exact, tdiv}
use boilerplate_go_grpc_micr.Common.Text.{Text, is_empty}
use boilerplate_go_grpc_micr.RateLimit.{
  Config, Quota, Verdict, admitted, rejected, admissions, emission_interval, delay_tolerance,
  new_redis, proceed, refuse, check_quota, limit_key,
}
use boilerplate_go_grpc_micr.RateLimit.Rate.{at_once, IsTimeline, admissions-burst, admissions-rate}

tolerance :
    (c : Config)
    → emission_interval c * c.burst < 2 ^ 63
    → delay_tolerance c ≡ pos (emission_interval c * c.burst)
unfolding delay_tolerance
tolerance c h = wrap64_exact _ (ground arith)

quota_of :
    (c : Config) {q : Quota}
    → emission_interval c * c.burst < 2 ^ 63
    → new_redis c ≡ some q
    → (0 < c.burst)
      × (q.emission_us ≡ emission_interval c / 1000)
      × (q.tolerance_us ≡ pos (emission_interval c * c.burst / 1000))
unfolding new_redis tdiv
quota_of c h e = ground (arith, tolerance c h)

mul_mono : (x y b : ℕ) → x ≤ y → x * b ≤ y * b
mul_mono x y zero h = omega arith
mul_mono x y (suc b) h = omega (arith, mul_mono x y b h)

-- The burst of the configuration takes no more than the tolerance of the script.
burst_covered : (e b : ℕ) → b * (e / 1000) ≤ e * b / 1000
burst_covered e b = omega (arith, mul_mono (e / 1000 * 1000) e b (omega arith))

-- A limiter that was built admits the whole configured burst at one instant from an idle key,
-- unless the tolerance overflows int64.
pub configured_burst :
    (c : Config) {q : Quota} (now : ℕ)
    → emission_interval c * c.burst < 2 ^ 63
    → new_redis c ≡ some q
    → admissions q (at_once c.burst now) none ≡ c.burst
configured_burst c {q} now h e =
    let (_, em, tol) = quota_of c h e in
    admissions-burst q (emission_interval c * c.burst / 1000) now c.burst tol
      (rw em (burst_covered (emission_interval c) c.burst))

once-IsTimeline : (n now : ℕ) → IsTimeline now now (at_once n now)
once-IsTimeline zero now = tt
once-IsTimeline (suc n) now = (omega arith, omega arith, once-IsTimeline n now)

mul_cancel : (x y u : ℕ) → x * suc u ≤ y * suc u → x ≤ y
mul_cancel x y u h = elim (Bool-cases (ltb y x)) [
  | inl k ↦ absurd (ground (arith, mul_mono (suc y) x (suc u) (ground arith)))
  | inr k ↦ ground arith
]

whole_interval :
    (us b e : ℕ) → e ≡ suc us * 1000 → (e / 1000 ≡ suc us) × (e * b / 1000 ≡ b * suc us)
whole_interval us b e h = rw h (omega arith, omega arith)

-- If the emission interval is a positive whole number of microseconds and the tolerance does not
-- overflow int64, a limiter that was built admits no more than the configured burst of any number
-- of requests at one instant from an idle key.
pub configured_limit :
    (c : Config) {q : Quota} (now n us : ℕ)
    → emission_interval c ≡ suc us * 1000
    → emission_interval c * c.burst < 2 ^ 63
    → new_redis c ≡ some q
    → admissions q (at_once n now) none ≤ c.burst
configured_limit c {q} now n us whole h e =
    let (_, em, tol) = quota_of c h e in
    let (interval, total) = whole_interval us c.burst (emission_interval c) whole in
    mul_cancel (admissions q (at_once n now) none) c.burst us (
      ground (
        arith,
        total,
        interval,
        admissions-rate q (emission_interval c * c.burst / 1000) now now (at_once n now) none tol tt
            (once-IsTimeline n now) (omega arith),
      ))

refused_iff :
    (v : Option Verdict) (us : ℕ)
    → (elim v [
      | none ↦ proceed
      | some w ↦ elim w [ admitted _ ↦ proceed | rejected us ↦ refuse us ]
    ]
        ≡ refuse us)
      ↔ (v ≡ some (rejected us))
refused_iff none us = (λ h. absurd cc, λ h. absurd cc)
refused_iff (some (admitted m)) us = (λ h. absurd cc, λ h. absurd cc)
refused_iff (some (rejected r)) us = (λ h. cc, λ h. cc)

-- `checkQuota` refuses the call of a principal with a tenant, with the limiter's wait, just when
-- the limiter rejects that tenant's key for the method: it lets the call pass when Redis fails.
check_quota-refuse :
    (tenant : Text) (ask : Text → Option Verdict) (method : Text) (us : ℕ)
    → is_empty tenant ≡ false
    → (check_quota (some tenant) ask method ≡ refuse us)
      ↔ (ask (limit_key tenant method) ≡ some (rejected us))
unfolding check_quota is_empty
check_quota-refuse [] ask method us h = absurd cc
check_quota-refuse (c ∷ t) ask method us h = refused_iff (ask (limit_key (c ∷ t) method)) us
