-- ===== src/Client/Retries.antt =====
-- internal/platform/client/serviceconfig.go: the retry policies that the client hands to grpc-go.
-- `json.Marshal` of the configuration and the text of a duration in seconds are parameters.
pub mod Names
pub mod Accepted
use boilerplate_go_grpc_micr.Common.{
  ℕ, ◌≡◌, ◌⊎◌, inl, inr, Bool, true, false, not, ◌||◌, ◌==◌, Option, none, some, List, [], ◌∷◌,
  ◌++◌, if◌then◌else◌,
}
use boilerplate_go_grpc_micr.Common.Int.{ℤ, pos, ltb_ℤ}
use boilerplate_go_grpc_micr.Common.Text.{Text, codes, is_empty, text_eq}
use boilerplate_go_grpc_micr.Config.{Float, at_most_zero}

-- `Retry`
pub record Retry : Type 0 where
  pub method : Text
  pub max_attempts : ℤ
  pub initial_backoff : ℤ
  pub max_backoff : ℤ
  pub backoff_multiplier : Float

-- `methodConfig` with its `methodName` and `retryPolicy`, of which there is one each.
pub record MethodConfig : Type 0 where
  pub service : Text
  pub method : Text
  pub max_attempts : ℤ
  pub initial_backoff : Text
  pub max_backoff : Text
  pub backoff_multiplier : Float
  pub retryable_status_codes : List Text

-- `serviceConfig`; with the throttling come its constants, 10 tokens and a ratio of 0.1.
pub record ServiceConfig : Type 0 where
  pub method_config : List MethodConfig
  pub retry_throttling : Bool

-- The errors, without their texts.
pub data Refusal : Type 0 where
  empty_name no_service no_method twice too_few_attempts bad_backoff no_json : Refusal

-- `strings.Cut(s, "/")`: what is before the first slash, and what is behind it, if there is one.
unfoldable pub cut : Text → Text × Option Text
cut [] = ([], none)
cut (c ∷ s) = let rest = cut s in if c == b'/' then ([], some s) else (c ∷ rest.0, rest.1)

-- `strings.TrimPrefix(s, "/")`
unfoldable pub trim_slash : Text → Text
trim_slash [] = []
trim_slash (c ∷ s) = if c == b'/' then s else c ∷ s

unfoldable pub method_of : Text → Option Text → Refusal ⊎ Text × Text
method_of service none = inr (service, [])
method_of service (some []) = inl no_method
method_of service (some (c ∷ s)) = inr (service, c ∷ s)

-- `splitMethod`
unfoldable pub split_method : Text → Refusal ⊎ Text × Text
split_method full =
    let trimmed = trim_slash full in
    let (service, rest) = cut trimmed in
    if is_empty trimmed
    then inl empty_name
    else if is_empty service
    then inl no_service
    else method_of service rest

abbrev pub joined : Text × Text → Text
joined (service, method) = service ++ b'/' ∷ method

-- `seen[key]`
unfoldable pub is_seen : Text → List Text → Bool
is_seen k [] = false
is_seen k (j ∷ seen) = text_eq j k || is_seen k seen

-- The tests of one policy.
unfoldable pub refusal_of : Retry → Text → List Text → Option Refusal
refusal_of r k seen =
    if is_seen k seen
    then some twice
    else if ltb_ℤ r.max_attempts (pos 2)
    then some too_few_attempts
    else if not (ltb_ℤ (pos 0) r.initial_backoff)
        || (not (ltb_ℤ (pos 0) r.max_backoff) || at_most_zero r.backoff_multiplier)
    then some bad_backoff
    else none

module _ (seconds : ℤ → Text) where
  unfoldable pub config_of : Retry → Text × Text → MethodConfig
  config_of r (service, method) = record {
    service = service;
    method = method;
    max_attempts = r.max_attempts;
    initial_backoff = seconds r.initial_backoff;
    max_backoff = seconds r.max_backoff;
    backoff_multiplier = r.backoff_multiplier;
    retryable_status_codes = codes "UNAVAILABLE" ∷ [];
  }

  -- The loop of `buildServiceConfig`.
  unfoldable pub method_configs : List Text → List Retry → Refusal ⊎ List MethodConfig
  method_configs seen [] = inr []
  method_configs seen (r ∷ rs) = elim (split_method r.method) [
    | inl e ↦ inl e
    | inr name ↦ elim (refusal_of r (joined name) seen) [
      | some e ↦ inl e
      | none ↦ elim (method_configs (joined name ∷ seen) rs) [
        | inl e ↦ inl e
        | inr configs ↦ inr (config_of r name ∷ configs)
      ]
    ]
  ]

  module _ (marshal : ServiceConfig → Option Text) where
    unfoldable pub rendered : Bool → List MethodConfig → Refusal ⊎ Text
    rendered throttle configs =
        elim (marshal (record { method_config = configs; retry_throttling = throttle })) [
          | none ↦ inl no_json
          | some t ↦ inr t
        ]

    -- `buildServiceConfig`
    unfoldable pub build_service_config : List Retry → Bool → Refusal ⊎ Text
    build_service_config [] throttle = inr []
    build_service_config (r ∷ rs) throttle = elim (method_configs [] (r ∷ rs)) [
      | inl e ↦ inl e
      | inr configs ↦ rendered throttle configs
    ]
