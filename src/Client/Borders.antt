-- ===== src/Client/Borders.antt =====
-- What a caller of this service learns of the failure of another one.
use boilerplate_go_grpc_micr.Common.{
  ◌≡◌, refl, Bool, none, some, [], ◌∷◌, Bool-cases, inl, inr, if◌then◌else◌,
}
use boilerplate_go_grpc_micr.Common.Text.{Text, codes}
use boilerplate_go_grpc_micr.Failures.{
  Code, Status, to_status, status_of, classify, from_chain, client_message, redacts, grpc_code,
  kind_info,
}
use boilerplate_go_grpc_micr.Interceptors.{raised, made, map_err, error_map, recovery, chain_errors}
use boilerplate_go_grpc_micr.Client.{Upstream, is_outage, kind, as_app_error, returned, translated}

-- The status of an internal failure for some reason.
abbrev pub internal_status : Bool → Text → Text → Status
internal_status attaches where_from reason = record {
  code = 13;
  message = codes "internal error";
  error_info = if attaches then some (reason, where_from, []) else none;
  details = [];
}

abbrev pub outage_status : (Code → Text) → Bool → Text → Upstream → Status
outage_status name_of attaches where_from u = record {
  code = 14;
  message = codes "an upstream service is unavailable";
  error_info =
      if attaches
      then some (
        codes "UPSTREAM_UNAVAILABLE",
        where_from,
        (codes "upstream", u.target)
            ∷ (codes "upstream_method", u.method)
            ∷ (codes "upstream_code", name_of u.code)
            ∷ [],
      )
      else none;
  details = [];
}

module _ (name_of : Code → Text) (attaches : Bool) (where_from : Text) where
  returned-status :
      (u : Upstream)
      → chain_errors attaches where_from (raised (returned name_of u))
        ≡ made (internal_status attaches where_from (codes "INTERNAL"))
  unfolding chain_errors recovery error_map map_err returned to_status from_chain classify status_of
      client_message redacts grpc_code kind_info
  returned-status u = elim (Bool-cases attaches) [ inl b ↦ rw b refl | inr b ↦ rw b refl ]

  translated-status :
      (u : Upstream)
      → chain_errors attaches where_from (raised (translated name_of u))
        ≡ made (
            if is_outage u.code
            then outage_status name_of attaches where_from u
            else internal_status attaches where_from (codes "UPSTREAM_FAILED"))
  unfolding chain_errors recovery error_map map_err translated as_app_error kind to_status
      from_chain status_of client_message redacts grpc_code kind_info
  translated-status u = elim (Bool-cases attaches) [
    | inl b ↦ elim (Bool-cases (is_outage u.code)) [
      | inl o ↦ rw (b, o) refl
      | inr o ↦ rw (b, o) refl
    ]
    | inr b ↦ elim (Bool-cases (is_outage u.code)) [
      | inl o ↦ rw (b, o) refl
      | inr o ↦ rw (b, o) refl
    ]
  ]

  -- The status by which a caller learns of the failure of another service has the code, the message
  -- and the domain of this service: if a handler returns the failure as it is, it is an internal
  -- error; if it returns the translation, it is an outage, whose metadata names the upstream, or,
  -- of any other failure, an internal error that names nothing.
  pub chain_errors-upstream :
      (u : Upstream)
      → (chain_errors attaches where_from (raised (returned name_of u))
          ≡ made (internal_status attaches where_from (codes "INTERNAL")))
        × (chain_errors attaches where_from (raised (translated name_of u))
            ≡ made (
                if is_outage u.code
                then outage_status name_of attaches where_from u
                else internal_status attaches where_from (codes "UPSTREAM_FAILED")))
  chain_errors-upstream u = (returned-status u, translated-status u)
