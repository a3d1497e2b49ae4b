-- ===== src/Tests/Edges.antt =====
-- The edges of the program: REST errors, retries of calls to other services, and the shutdown.
use boilerplate_go_grpc_micr.Common.{
  ℕ, ◌≡◌, refl, inl, inr, true, Option, none, some, List, [], ◌∷◌, map,
}
use boilerplate_go_grpc_micr.Common.Int.{ℤ, pos}
use boilerplate_go_grpc_micr.Common.Text.{Text, codes}
use boilerplate_go_grpc_micr.Config.{fraction}
use boilerplate_go_grpc_micr.Failures.{
  Kind, Info, AppError, Failure, app, from_chain, to_status, client_message, grpc_code, http_status,
  kind_info,
}
use boilerplate_go_grpc_micr.Gateway.{Response, handle_error}
use boilerplate_go_grpc_micr.Gateway.Errors.{in_json, handle_error-to_status}
use boilerplate_go_grpc_micr.Client.Retries.{Retry, ServiceConfig}
use boilerplate_go_grpc_micr.Shutdown.{Step, shutdown}
use boilerplate_go_grpc_micr.Shutdown.Ordering.{logged, due, with_log, shutdown-due}

-- An order that is missing, with one detail.
abbrev missing : AppError
missing = record {
  kind = Kind.not_found;
  reason = codes "ORDER_NOT_FOUND";
  message = codes "no such order";
  metadata = [];
  details = codes "hint" ∷ [];
}

abbrev failure : Failure
failure = record { chain = app missing ∷ []; text = codes "not found" }

failure_chain : from_chain failure.chain ≡ some missing
unfolding from_chain
failure_chain = refl

missing-known : (i : Info) × (kind_info Kind.not_found ≡ some i)
unfolding kind_info
missing-known = (_, refl)

abbrev code_name : ℕ → Text
code_name n = codes "NotFound"

abbrev answer : Response
answer =
    handle_error code_name some (Kind.internal ∷ Kind.not_found ∷ []) none
      (to_status true (codes "orders") (some failure))

handle_error-to_status_example :
    (answer.http_status ≡ http_status Kind.not_found)
    × (answer.body ≡ record {
      code = code_name (grpc_code Kind.not_found);
      reason = codes "ORDER_NOT_FOUND";
      message = client_message missing;
      details = in_json code_name some (codes "hint" ∷ []);
      domain = codes "orders";
    })
handle_error-to_status_example =
    handle_error-to_status code_name some (Kind.internal ∷ Kind.not_found ∷ []) none
      (codes "orders") failure missing failure_chain (inr (inl refl)) missing-known

abbrev reading : Retry
reading = record {
  method = codes "/o.S/Get";
  max_attempts = pos 3;
  initial_backoff = pos 100;
  max_backoff = pos 1000;
  backoff_multiplier = fraction (pos 2) 0;
}

abbrev listing : Retry
listing = record reading { method = codes "o.S/List" }

abbrev in_seconds : ℤ → Text
in_seconds n = codes "0.1s"

abbrev to_json : ServiceConfig → Option Text
to_json c = some (codes "{}")

-- A pool that fails to close, a step without a function, and a server.
abbrev closing : List (Step (List Text))
closing =
    record {
      name = codes "pool";
      timeout = pos 0;
      fn = some (λ t closed. (some (codes "busy"), closed));
    }
    ∷ record { name = codes "none"; timeout = pos 5; fn = none }
    ∷ record {
      name = codes "server";
      timeout = pos 5;
      fn = some (λ t closed. (none, codes "server" ∷ closed));
    }
    ∷ []

shutdown-due_example :
    shutdown (map logged closing) ([], []) ≡ with_log (shutdown closing []) (due closing)
shutdown-due_example = shutdown-due closing []
