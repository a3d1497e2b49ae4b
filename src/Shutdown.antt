-- ===== src/Shutdown.antt =====
-- internal/app/shutdown.go: the steps that end the program. What a step does is a function of the
-- time it is allowed; a deadline that the caller's context has already is not modelled.
pub mod Ordering
use boilerplate_go_grpc_micr.Common.{
  ℕ, Bool, true, false, not, Option, none, some, List, [], ◌∷◌, ◌++◌, if◌then◌else◌,
}
use boilerplate_go_grpc_micr.Common.Int.{ℤ, pos, ltb_ℤ}
use boilerplate_go_grpc_micr.Common.Text.{Text}

-- `Step`, over the state S that the steps change; the error of a step is its text.
pub record Step (S : Type 0) : Type 0 where
  pub name : Text
  pub timeout : ℤ
  pub fn : Option (ℤ → S → Option Text × S)

-- `10 * time.Second`
abbrev pub default_timeout : ℤ
default_timeout = pos 10000000000

abbrev pub allowed : ℤ → ℤ
allowed t = if ltb_ℤ (pos 0) t then t else default_timeout

-- `append(errs, …)`: the step's name and its error.
abbrev pub noted : Text → Option Text → List (Text × Text) → List (Text × Text)
noted name none errs = errs
noted name (some e) errs = errs ++ (name, e) ∷ []

module _ {S : Type 0} where
  unfoldable pub run_step :
      Option (ℤ → S → Option Text × S) → Text → ℤ → List (Text × Text) × S → List (Text × Text) × S
  run_step none name timeout (errs, s) = (errs, s)
  run_step (some fn) name timeout (errs, s) =
      let (e, s') = fn (allowed timeout) s in (noted name e errs, s')

  -- The loop from the last step to the first: the steps behind one run before it.
  unfoldable pub shutdown_from : List (Step S) → List (Text × Text) × S → List (Text × Text) × S
  shutdown_from [] r = r
  shutdown_from (step ∷ steps) r = run_step step.fn step.name step.timeout (shutdown_from steps r)

  -- `Shutdown`, whose error joins these, and is nil if there are none.
  unfoldable pub shutdown : List (Step S) → S → List (Text × Text) × S
  shutdown steps s = shutdown_from steps ([], s)
