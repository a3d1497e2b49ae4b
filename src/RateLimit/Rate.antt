-- ===== src/RateLimit/Rate.antt =====
-- The rate that the script enforces.
use boilerplate_go_grpc_micr.Common.{
  ℕ, zero, suc, ◌+◌, ◌-◌, ◌*◌, ◌≤◌, ◌<◌, ◌≡◌, refl, ap, ◌⊎◌, inl, inr, Option, none, some, List, [],
  ◌∷◌, arith, Bool-cases, ltb,
}
use boilerplate_go_grpc_micr.Common.Int.{pos}
use boilerplate_go_grpc_micr.RateLimit.{
  Quota, Cell, Verdict, admitted, rejected, redis_get, start, ttl_ms, settle, allow, admissions,
}

-- A cell expires no earlier than its own arrival time.
abbrev pub IsLive : Option Cell → Type 0
IsLive none = Unit
IsLive (some c) = c.tat ≤ c.expires_at

-- Where the schedule stands, whether the key has expired or not.
abbrev pub stored_tat : Option Cell → ℕ
stored_tat none = 0
stored_tat (some c) = c.tat

pub start-stored :
    (now : ℕ) (cell : Option Cell)
    → IsLive cell
    → (now ≤ start now cell)
      × (stored_tat cell ≤ start now cell)
      × ((start now cell ≡ now) ⊎ (start now cell ≡ stored_tat cell))
unfolding start redis_get
start-stored now none h = (omega arith, omega arith, inl refl)
start-stored now (some c) h = ground arith

ttl_ms-covers : (left : ℕ) → left ≤ 1000 * ttl_ms left
unfolding ttl_ms
ttl_ms-covers left = ground arith

-- One run of the script: the schedule moves on by one interval within the tolerance, or nothing is
-- written.
abbrev pub Allows : Quota → ℕ → ℕ → Option Cell → Verdict × Option Cell → Type 0
Allows q t now cell (admitted _, cell') =
    (start now cell + q.emission_us ≤ now + t)
    × (stored_tat cell' ≡ start now cell + q.emission_us)
    × IsLive cell'
Allows q t now cell (rejected us, cell') =
    (cell' ≡ cell)
    × (now + t < start now cell + q.emission_us)
    × (us + (now + t) ≡ start now cell + q.emission_us)

pub allow-Allows :
    (q : Quota) (t now : ℕ) (cell : Option Cell)
    → q.tolerance_us ≡ pos t
    → Allows q t now cell (allow q now cell)
unfolding allow settle
allow-Allows q t now cell tol =
    rw tol (elim (Bool-cases (ltb (now + t) (start now cell + q.emission_us + 0))) [
      | inl h ↦ rw h (refl, ground arith, ground arith)
      | inr h ↦
          rw h (
            ground arith,
            refl,
            ground (arith, ttl_ms-covers (start now cell + q.emission_us - now)),
          )
    ])

-- The instants do not go back, and all lie between two bounds.
abbrev pub IsTimeline : ℕ → ℕ → List ℕ → Type 0
IsTimeline from until [] = Unit
IsTimeline from until (now ∷ later) = (from ≤ now) × (now ≤ until) × IsTimeline now until later

start_mono : (a b : ℕ) (cell : Option Cell) → IsLive cell → a ≤ b → start a cell ≤ start b cell
start_mono a b cell live h = ground (arith, start-stored a cell live, start-stored b cell live)

-- What is left of the tolerance bounds the admissions.
admissions-bound :
    (q : Quota) (t from until : ℕ) (times : List ℕ) (cell : Option Cell)
    → q.tolerance_us ≡ pos t
    → IsLive cell
    → IsTimeline from until times
    → admissions q times cell * q.emission_us ≤ (until + t) - start from cell
unfolding admissions
admissions-bound q t from until [] cell tol live line = omega arith
admissions-bound q t from until (now ∷ later) cell tol live (after, before, line) =
    go (λ c live'. admissions-bound q t now until later c tol live' line) (allow q now cell)
      (allow-Allows q t now cell tol) refl
  where
    go :
        ((c : Option Cell)
          → IsLive c
          → admissions q later c * q.emission_us ≤ until + t - start now c)
        → (r : Verdict × Option Cell) → Allows q t now cell r
        → allow q now cell ≡ r
        → admissions q (now ∷ later) cell * q.emission_us ≤ (until + t) - start from cell
    go again (admitted m, cell') (fits, moved, live') e = rw e (
        ground (
          arith,
          again cell' live',
          start-stored now cell' live',
          start_mono from now cell live after,
        ))
    go again (rejected us, cell') (kept, late, _) e =
        rw (e, kept) (ground (arith, again cell live, start_mono from now cell live after))

-- Within a window of any length, from any live state of the key, the requests that pass take up no
-- more than the window and the tolerance together: their number times the emission interval is at
-- most the sum of the two.
pub admissions-rate :
    (q : Quota) (t from until : ℕ) (times : List ℕ) (cell : Option Cell)
    → q.tolerance_us ≡ pos t
    → IsLive cell
    → IsTimeline from until times
    → from ≤ until
    → admissions q times cell * q.emission_us ≤ (until - from) + t
admissions-rate q t from until times cell tol live line h =
    ground
      (arith, admissions-bound q t from until times cell tol live line, start-stored from cell live)

-- Requests at one instant.
abbrev pub at_once : ℕ → ℕ → List ℕ
at_once zero now = []
at_once (suc n) now = now ∷ at_once n now

-- As long as the tolerance covers them all, the requests of a burst pass.
admissions-burst_from :
    (q : Quota) (t now n : ℕ) (cell : Option Cell)
    → q.tolerance_us ≡ pos t
    → IsLive cell
    → start now cell + n * q.emission_us ≤ now + t
    → admissions q (at_once n now) cell ≡ n
unfolding admissions
admissions-burst_from q t now zero cell tol live h = refl
admissions-burst_from q t now (suc n) cell tol live h =
    go (λ c live'. admissions-burst_from q t now n c tol live') (allow q now cell)
      (allow-Allows q t now cell tol) refl
  where
    go :
        ((c : Option Cell)
          → IsLive c
          → start now c + n * q.emission_us ≤ now + t
          → admissions q (at_once n now) c ≡ n)
        → (r : Verdict × Option Cell) → Allows q t now cell r
        → allow q now cell ≡ r
        → admissions q (at_once (suc n) now) cell ≡ suc n
    go again (admitted m, cell') (fits, moved, live') e = rw e (
        ap suc (
          again cell' live'
            (ground (arith, start-stored now cell' live', start-stored now cell live))))
    go again (rejected us, cell') (kept, late, _) e = absurd (ground arith)

-- From an idle key, a burst of requests at one instant passes whole if the tolerance covers it.
pub admissions-burst :
    (q : Quota) (t now n : ℕ)
    → q.tolerance_us ≡ pos t
    → n * q.emission_us ≤ t
    → admissions q (at_once n now) none ≡ n
unfolding start redis_get
admissions-burst q t now n tol h = admissions-burst_from q t now n none tol tt (ground arith)
