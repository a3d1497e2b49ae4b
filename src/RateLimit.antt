-- ===== src/RateLimit.antt =====
-- internal/platform/ratelimit: the GCRA script and its configuration, and the quota check of
-- internal/platform/interceptor/ratelimit.go. Lua's numbers are natural numbers here, exact
-- below 2 ^ 53; negative configuration values, which are refused like zero, are left out.
pub mod Rate
pub mod Retry
pub mod Quotas
use boilerplate_go_grpc_micr.Common.{
  ℕ, suc, ◌+◌, ◌-◌, ◌*◌, ◌/◌, ◌%◌, max, Bool, true, false, Option, none, some, List, [], ◌∷◌, ◌++◌,
  ltb, leb, ◌==◌, ◌||◌, if◌then◌else◌,
}
use boilerplate_go_grpc_micr.Common.Int.{ℤ, pos, negsuc, wrap64, tdiv}
use boilerplate_go_grpc_micr.Common.Text.{Text, codes, is_empty}

-- `Config`; the period is in nanoseconds.
pub record Config : Type 0 where
  pub limit : ℕ
  pub period : ℕ
  pub burst : ℕ

unfoldable pub emission_interval : Config → ℕ
emission_interval c = if c.limit == 0 then 0 else c.period / c.limit

unfoldable pub delay_tolerance : Config → ℤ
delay_tolerance c = wrap64 (pos (emission_interval c * c.burst))

-- The two arguments that a `RedisLimiter` passes to its script, in microseconds.
pub record Quota : Type 0 where
  pub emission_us : ℕ
  pub tolerance_us : ℤ

unfoldable pub new_redis : Config → Option Quota
new_redis c =
    if c.limit == 0 || (c.period == 0 || c.burst == 0)
    then none
    else some (record {
      emission_us = emission_interval c / 1000;
      tolerance_us = tdiv (delay_tolerance c) (pos 1000);
    })

-- A key of Redis: its value, and the microsecond at which it expires, which Redis rounds up to
-- its own clock of milliseconds.
pub record Cell : Type 0 where
  pub tat : ℕ
  pub expires_at : ℕ

unfoldable pub redis_get : ℕ → Option Cell → Option ℕ
redis_get now none = none
redis_get now (some cell) = if leb cell.expires_at now then none else some cell.tat

-- What the script returns. `none` for what remains is `diff / 0`, Lua's infinity.
pub data Verdict : Type 0 where
  admitted : Option ℕ → Verdict
  rejected : ℕ → Verdict

-- The arrival time that the schedule starts from: the stored one, or now if that is later.
unfoldable pub start : ℕ → Option Cell → ℕ
start now cell = elim (redis_get now cell) [
  | none ↦ now
  | some tat ↦ if ltb tat now then now else tat
]

-- `ttl_ms`
unfoldable pub ttl_ms : ℕ → ℕ
ttl_ms left = let ms = (left + 999) / 1000 in if ltb ms 1 then 1 else ms

-- The script from `new_tat` on, where the tolerance adds to the clock (`due` is the clock plus
-- the tolerance if that is not negative) or `late` is what a negative tolerance takes off.
unfoldable pub settle : Quota → ℕ → ℕ → ℕ → Option Cell → ℕ → Verdict × Option Cell
settle q now due late cell new_tat =
    if ltb due (new_tat + late) then (rejected (new_tat + late - due), cell) else (
      admitted
          (if q.emission_us == 0 then none else some ((due - (new_tat + late)) / q.emission_us)),
      some (record { tat = new_tat; expires_at = now + 1000 * ttl_ms (new_tat - now) }),
    )

-- The script, at an instant of Redis's clock.
unfoldable pub allow : Quota → ℕ → Option Cell → Verdict × Option Cell
allow q now cell =
    let new_tat = start now cell + q.emission_us in
    elim q.tolerance_us [
      | pos t ↦ settle q now (now + t) 0 cell new_tat
      | negsuc t ↦ settle q now now (suc t) cell new_tat
    ]

abbrev pub is_admitted : Verdict → Bool
is_admitted (admitted _) = true
is_admitted (rejected _) = false

-- How many of the requests that arrive at the given instants pass.
unfoldable pub admissions : Quota → List ℕ → Option Cell → ℕ
admissions q [] cell = 0
admissions q (now ∷ later) cell =
    let (verdict, cell') = allow q now cell in
    let passed = admissions q later cell' in if is_admitted verdict then suc passed else passed

-- `setRetryHeaders`: the seconds of `retry-after`, for a wait in microseconds.
unfoldable pub retry_seconds : ℕ → ℕ
retry_seconds us =
    let seconds = us / 1000000 in
    let up = if ltb (seconds * 1000000) us then suc seconds else seconds in
    if ltb up 1 then 1 else up

-- What the limiter answers to the interceptor: a verdict, or `none` if Redis failed.
-- `checkQuota` admits or refuses, with the wait in the refusal.
pub data Outcome : Type 0 where
  proceed : Outcome
  refuse : ℕ → Outcome

unfoldable pub limit_key : Text → Text → Text
limit_key tenant full_method = codes "ratelimit:" ++ tenant ++ codes ":" ++ full_method

-- `checkQuota`, for the tenant of the principal if there is one.
unfoldable pub check_quota : Option Text → (Text → Option Verdict) → Text → Outcome
check_quota none ask method = proceed
check_quota (some tenant) ask method =
    if is_empty tenant then proceed else elim (ask (limit_key tenant method)) [
      | none ↦ proceed
      | some v ↦ elim v [ admitted _ ↦ proceed | rejected us ↦ refuse us ]
    ]
