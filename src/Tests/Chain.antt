-- ===== src/Tests/Chain.antt =====
-- The interceptors, on concrete calls.
use boilerplate_go_grpc_micr.Common.{
  ◌+◌, ◌≡◌, ◌≤◌, true, false, Option, some, List, [], ◌∷◌, length, arith,
}
use boilerplate_go_grpc_micr.Common.Int.{ℤ, pos, ltb_ℤ}
use boilerplate_go_grpc_micr.Common.Text.{codes}
use boilerplate_go_grpc_micr.Interceptors.{
  Outcome, panicked, capacity, apply_deadline, chain_errors,
}
use boilerplate_go_grpc_micr.Interceptors.Slots.{
  Step, arrives, ends, run, admissions, releases, run-length,
}
use boilerplate_go_grpc_micr.Interceptors.Replies.{IsMapped, chain_errors-IsMapped}
use boilerplate_go_grpc_micr.Interceptors.Deadlines.{IsLifetime, apply_deadline-IsLifetime}
use boilerplate_go_grpc_micr.Tests.Access.{plain_strings}
use boilerplate_go_grpc_micr.Tests.Settings.{config, accepted}

-- A handler that panics with a secret.
abbrev secret : Outcome
secret = panicked (codes "postgres://user:hunter2@db")

chain_errors-IsMapped_example :
    IsMapped true (codes "orders") secret (chain_errors true (codes "orders") secret)
chain_errors-IsMapped_example = chain_errors-IsMapped true (codes "orders") secret

-- Of three calls the second finds no slot, and the third comes when the first has ended.
abbrev steps : List Step
steps = arrives 1 false false ∷ arrives 2 false false ∷ ends 1 ∷ arrives 3 false false ∷ []

run-length_example :
    (length (run (pos 1) steps []) ≤ capacity (pos 1))
    × (length (run (pos 1) steps []) + releases (pos 1) steps [] ≡ 0 + admissions (pos 1) steps [])
run-length_example = run-length (pos 1) steps [] (omega arith)

abbrev an_hour : Option ℤ
an_hour = some (pos 3600)

apply_deadline-IsLifetime_example :
    let left = apply_deadline an_hour config.server.default_timeout config.server.max_timeout in
    (ltb_ℤ config.server.max_timeout left ≡ false)
    × IsLifetime ⦃s = plain_strings⦄ config an_hour left
apply_deadline-IsLifetime_example =
    apply_deadline-IsLifetime ⦃s = plain_strings⦄ config an_hour accepted
