-- ===== src/Tests/Limits.antt =====
-- The limiter, on concrete quotas.
use boilerplate_go_grpc_micr.Common.{
  ◌+◌, ◌-◌, ◌*◌, ◌≡◌, ◌<◌, ◌≤◌, ◌↔◌, refl, true, false, Option, none, some, [], ◌∷◌, arith,
}
use boilerplate_go_grpc_micr.Common.Int.{pos, wrap64, tdiv}
use boilerplate_go_grpc_micr.Common.Text.{codes, is_empty}
use boilerplate_go_grpc_micr.RateLimit.{
  Config, Quota, Cell, rejected, emission_interval, delay_tolerance, new_redis, redis_get, start,
  settle, ttl_ms, allow, is_admitted, admissions,
}
use boilerplate_go_grpc_micr.RateLimit.Rate.{at_once, admissions-rate}
use boilerplate_go_grpc_micr.RateLimit.Retry.{retry-exact}
use boilerplate_go_grpc_micr.RateLimit.Quotas.{configured_limit}

-- Ten calls a second, five at once.
abbrev ten : Config
ten = record { limit = 10; period = 1_000_000_000; burst = 5 }

abbrev ten_quota : Quota
ten_quota = record { emission_us = 100_000; tolerance_us = pos 500_000 }

ten-interval : emission_interval ten ≡ 100_000_000
unfolding emission_interval
ten-interval = refl

ten-built : new_redis ten ≡ some ten_quota
unfolding new_redis emission_interval delay_tolerance wrap64 tdiv
ten-built = refl

ten-fits : emission_interval ten * 5 < 9223372036854775808
ten-fits = rw ten-interval (omega arith)

configured_limit_example : admissions ten_quota (at_once 9 77) none ≤ 5
configured_limit_example = configured_limit ten 77 9 99_999 ten-interval ten-fits ten-built

admissions-rate_example :
    admissions ten_quota (0 ∷ 10 ∷ 10 ∷ 99_999 ∷ []) none * 100_000 ≤ (100_000 - 0) + 500_000
admissions-rate_example =
    admissions-rate ten_quota 500_000 0 100_000 (0 ∷ 10 ∷ 10 ∷ 99_999 ∷ []) none refl tt
      (
        omega arith,
        omega arith,
        (omega arith, omega arith, (omega arith, omega arith, (omega arith, omega arith, tt))),
      )
      (omega arith)

abbrev full : Option Cell
full = some (record { tat = 1_500_000; expires_at = 1_500_000 })

full-refuses : allow ten_quota 1_000_000 full ≡ (rejected 100_000, full)
unfolding allow settle start redis_get
full-refuses = refl

retry-exact_example :
    (full ≡ full)
    × ((is_admitted (allow ten_quota 1_100_000 full).0 ≡ true) ↔ (1_000_000 + 100_000 ≤ 1_100_000))
retry-exact_example =
    retry-exact ten_quota 500_000 1_000_000 full 1_100_000 refl (omega arith) (omega arith)
      full-refuses (omega arith)

acme : is_empty (codes "acme") ≡ false
unfolding is_empty
acme = refl

-- 600 000 calls a second: an interval of 1.666 microseconds, cut to one, admits a burst of 120 for
-- 100.
abbrev fast : Config
fast = record { limit = 600_000; period = 1_000_000_000; burst = 100 }

fast-overshoots :
    (new_redis fast ≡ some (record { emission_us = 1; tolerance_us = pos 166 }))
    × (admissions (record { emission_us = 1; tolerance_us = pos 166 }) (at_once 120 0) none ≡ 120)
unfolding new_redis emission_interval delay_tolerance wrap64 tdiv admissions allow settle start
    redis_get ttl_ms
fast-overshoots = (refl, refl)
