-- ===== src/RateLimit/Retry.antt =====
-- The wait that a refusal advises.
use boilerplate_go_grpc_micr.Common.{
  ℕ, ◌+◌, ◌*◌, ◌≤◌, ◌<◌, ◌≡◌, ◌↔◌, refl, ◌⊎◌, true, Option, arith,
}
use boilerplate_go_grpc_micr.Common.Int.{pos}
use boilerplate_go_grpc_micr.RateLimit.{
  Quota, Cell, Verdict, admitted, rejected, start, allow, is_admitted, retry_seconds,
}
use boilerplate_go_grpc_micr.RateLimit.Rate.{IsLive, start-stored, Allows, allow-Allows}

admits_iff :
    (q : Quota) (t now : ℕ) (cell : Option Cell)
    → q.tolerance_us ≡ pos t
    → (is_admitted (allow q now cell).0 ≡ true) ↔ (start now cell + q.emission_us ≤ now + t)
admits_iff q t now cell tol = go (allow q now cell) (allow-Allows q t now cell tol)
  where
    go :
        (r : Verdict × Option Cell)
        → Allows q t now cell r
        → (is_admitted r.0 ≡ true) ↔ (start now cell + q.emission_us ≤ now + t)
    go (admitted m, cell') (fits, _, _) = (λ _. fits, λ _. refl)
    go (rejected us, cell') (kept, late, _) = (λ h. absurd cc, λ h. absurd (omega arith))

-- A refusal writes nothing, and its wait is exact: if nothing else touches the key, a request at
-- any later instant passes just when the wait is over. The tolerance has to cover one interval.
pub retry-exact :
    (q : Quota) (t now : ℕ) (cell : Option Cell) {us : ℕ} {cell' : Option Cell} (later : ℕ)
    → q.tolerance_us ≡ pos t
    → q.emission_us ≤ t
    → IsLive cell
    → allow q now cell ≡ (rejected us, cell')
    → now ≤ later
    → (cell' ≡ cell) × ((is_admitted (allow q later cell').0 ≡ true) ↔ (now + us ≤ later))
retry-exact q t now cell {us} {cell'} later tol one live e after =
    let (kept, late, wait) = rw e at (allow-Allows q t now cell tol) in
    (
      kept,
      rw kept (
        (λ h. ground (
          arith,
          admits_iff q t later cell tol,
          start-stored now cell live,
          start-stored later cell live,
        )),
        (λ h. ground (
          arith,
          admits_iff q t later cell tol,
          start-stored now cell live,
          start-stored later cell live,
        )),
      ),
    )

-- The header advises whole seconds: no fewer than the wait, at least one, and otherwise less than a
-- second too many.
pub retry_seconds-covers :
    (us : ℕ)
    → (us ≤ retry_seconds us * 1000000)
      × (1 ≤ retry_seconds us)
      × ((retry_seconds us ≡ 1) ⊎ (retry_seconds us * 1000000 < us + 1000000))
unfolding retry_seconds
retry_seconds-covers us = ground arith
