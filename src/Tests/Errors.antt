-- ===== src/Tests/Errors.antt =====
-- What reaches a client, on concrete errors.
use boilerplate_go_grpc_micr.Common.{◌≡◌, refl, true, none, some, [], ◌∷◌}
use boilerplate_go_grpc_micr.Common.Text.{Text, codes}
use boilerplate_go_grpc_micr.Failures.{
  Info, Kind, AppError, Failure, Link, from_chain, redacts, kind_info,
}

-- An internal failure with driver text, and one without.
abbrev leak : Text → AppError
leak message = record {
  kind = Kind.internal;
  reason = codes "INTERNAL";
  message = message;
  metadata = (codes "upstream", message) ∷ [];
  details = [];
}

abbrev failure : Text → Failure
failure message = record { chain = Link.app (leak message) ∷ Link.opaque ∷ []; text = message }

abbrev stray : Text → Failure
stray message = record { chain = Link.opaque ∷ []; text = message }

chain_of : (message : Text) → from_chain (failure message).chain ≡ some (leak message)
unfolding from_chain
chain_of message = refl

no_chain : (message : Text) → from_chain (stray message).chain ≡ none
unfolding from_chain
no_chain message = refl

internal_redacts : redacts Kind.internal ≡ true
unfolding redacts
internal_redacts = refl

missing-declared : (i : Info) × (kind_info Kind.not_found ≡ some i)
unfolding kind_info
missing-declared = (_, refl)
