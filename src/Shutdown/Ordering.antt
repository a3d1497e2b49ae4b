-- ===== src/Shutdown/Ordering.antt =====
-- Which steps run, and in which order.
use boilerplate_go_grpc_micr.Common.{
  ◌≡◌, refl, ap, sym, ◌∙◌, Option, none, some, List, [], ◌∷◌, ◌++◌, map, append_assoc, append-nil,
}
use boilerplate_go_grpc_micr.Common.Int.{ℤ}
use boilerplate_go_grpc_micr.Common.Text.{Text}
use boilerplate_go_grpc_micr.Shutdown.{Step, allowed, run_step, shutdown_from, shutdown}

-- The steps that ran, each with the time that it was allowed.
abbrev pub Log : Type 0
Log = List (Text × ℤ)

module _ {S : Type 0} where
  abbrev logged_fn :
      Text → Option (ℤ → S → Option Text × S) → Option (ℤ → S × Log → Option Text × (S × Log))
  logged_fn name none = none
  logged_fn name (some fn) = some (λ t r. ((fn t r.0).0, ((fn t r.0).1, r.1 ++ (name, t) ∷ [])))

  -- The step, which notes in the log that it ran.
  abbrev pub logged : Step S → Step (S × Log)
  logged step = record {
    name = step.name;
    timeout = step.timeout;
    fn = logged_fn step.name step.fn;
  }

  abbrev due_of : Text → ℤ → Option (ℤ → S → Option Text × S) → Log
  due_of name timeout none = []
  due_of name timeout (some fn) = (name, allowed timeout) ∷ []

  -- What has to run: the steps that have a function, from the last to the first.
  abbrev pub due : List (Step S) → Log
  due [] = []
  due (step ∷ steps) = due steps ++ due_of step.name step.timeout step.fn

  abbrev pub with_log : List (Text × Text) × S → Log → List (Text × Text) × (S × Log)
  with_log (errs, s) log = (errs, (s, log))

  run_step-logged :
      (name : Text) (timeout : ℤ) (fn : Option (ℤ → S → Option Text × S))
      (errs : List (Text × Text)) (s : S) (log : Log)
      → run_step (logged_fn name fn) name timeout (errs, (s, log))
        ≡ with_log (run_step fn name timeout (errs, s)) (log ++ due_of name timeout fn)
  unfolding run_step
  run_step-logged name timeout none errs s log =
      ap (λ (l : Log). (errs, (s, l))) (sym (append-nil log))
  run_step-logged name timeout (some fn) errs s log = refl

  shutdown_from-logged :
      (steps : List (Step S)) (errs : List (Text × Text)) (s : S) (log : Log)
      → shutdown_from (map logged steps) (errs, (s, log))
        ≡ with_log (shutdown_from steps (errs, s)) (log ++ due steps)
  unfolding shutdown_from
  shutdown_from-logged [] errs s log = ap (with_log (errs, s)) (sym (append-nil log))
  shutdown_from-logged (step ∷ steps) errs s log =
      let r = shutdown_from steps (errs, s) in
      ap (run_step (logged_fn step.name step.fn) step.name step.timeout)
        (shutdown_from-logged steps errs s log)
      ∙ run_step-logged step.name step.timeout step.fn (r.0) (r.1) (log ++ due steps)
      ∙ ap (with_log (run_step step.fn step.name step.timeout r))
          (append_assoc log (due steps) (due_of step.name step.timeout step.fn))

  -- Whatever the steps do and whichever of them fail, each step that has a function runs once, from
  -- the last to the first, with its own time-out or ten seconds if that is not above zero; that
  -- they are watched changes neither the errors nor the state in the end.
  pub shutdown-due :
      (steps : List (Step S)) (s : S)
      → shutdown (map logged steps) (s, []) ≡ with_log (shutdown steps s) (due steps)
  unfolding shutdown
  shutdown-due steps s = shutdown_from-logged steps [] s []
