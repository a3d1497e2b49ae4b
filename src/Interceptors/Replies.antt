-- ===== src/Interceptors/Replies.antt =====
-- What leaves the chain of interceptors, and what of an error or a panic it tells.
use boilerplate_go_grpc_micr.Common.{
  ◌≡◌, refl, ap, ◌⊎◌, inl, inr, Bool, true, false, none, some, [], Bool-cases, if◌then◌else◌,
}
use boilerplate_go_grpc_micr.Common.Text.{Text, codes}
use boilerplate_go_grpc_micr.Failures.{
  from_chain, Status, to_status, status_of, client_message, redacts, grpc_code, kind_info,
}
use boilerplate_go_grpc_micr.Interceptors.{
  Outcome, reply, raised, panicked, Sent, ok, unchanged, made, is_some, map_err, error_map,
  panic_failure, handle_panic, recovery, chain_errors,
}

-- The status of a redacted panic.
abbrev pub panic_status : Bool → Text → Status
panic_status attaches where_from = record {
  code = 13;
  message = codes "internal error";
  error_info = if attaches then some (codes "PANIC", where_from, []) else none;
  details = [];
}

-- What leaves the chain, for each end of a handler.
abbrev pub IsMapped : Bool → Text → Outcome → Sent → Type 0
IsMapped attaches where_from reply s = s ≡ ok
IsMapped attaches where_from (raised r) s =
    ((is_some r.carried ≡ true)
      × (is_some (from_chain r.failure.chain) ≡ false)
      × (s ≡ unchanged r))
    ⊎ (s ≡ made (to_status attaches where_from (some r.failure)))
IsMapped attaches where_from (panicked value) s = s ≡ made (panic_status attaches where_from)

handle_panic-status :
    (attaches : Bool) (where_from value : Text)
    → handle_panic attaches where_from value ≡ panic_status attaches where_from
unfolding handle_panic panic_failure to_status from_chain status_of client_message redacts grpc_code
    kind_info
handle_panic-status true where_from value = refl
handle_panic-status false where_from value = refl

-- Every call leaves the chain with its reply or with a status. An error leaves as it came only if
-- it carries a status and no error of the application, and any other by the table of kinds; of a
-- panic, whatever its value, a client learns no more than that there was one.
pub chain_errors-IsMapped :
    (attaches : Bool) (where_from : Text) (o : Outcome)
    → IsMapped attaches where_from o (chain_errors attaches where_from o)
unfolding chain_errors recovery error_map map_err
chain_errors-IsMapped attaches where_from reply = refl
chain_errors-IsMapped attaches where_from (panicked value) =
    ap made (handle_panic-status attaches where_from value)
chain_errors-IsMapped attaches where_from (raised r) = elim (Bool-cases (is_some r.carried)) [
  | inl b ↦ elim (Bool-cases (is_some (from_chain r.failure.chain))) [
    | inl a ↦ inr (rw (b, a) refl)
    | inr a ↦ inl (b, a, rw (b, a) refl)
  ]
  | inr b ↦ inr (rw b refl)
]
