-- ===== src/Config.antt =====
-- internal/platform/config/config.go: the settings that `Validate` reads, and what it refuses. A
-- duration or an int is an integer, a float64 a number of the kinds that comparisons tell apart.
pub mod Production
pub mod Retention
pub mod DeadLetters
use boilerplate_go_grpc_micr.Common.{
  ℕ, suc, Bool, true, false, not, ◌&&◌, ◌||◌, List, [], ◌∷◌, ◌++◌, ◌==◌, if◌then◌else◌, ◌≡◌, refl,
}
use boilerplate_go_grpc_micr.Common.Int.{ℤ, pos, negsuc, ltb_ℤ, ◌*ℤ◌}
use boilerplate_go_grpc_micr.Common.Text.{Text, codes, is_empty, text_eq}
use boilerplate_go_grpc_micr.Auth.{Strings, is_in}

-- A finite float64 is a fraction, here with the denominator `suc d`.
pub data Float : Type 0 where
  fraction : ℤ → ℕ → Float
  plus_infinity minus_infinity nan : Float

-- `f <= 0` and `f < 0`
unfoldable pub at_most_zero : Float → Bool
at_most_zero (fraction z d) = not (ltb_ℤ (pos 0) z)
at_most_zero plus_infinity = false
at_most_zero minus_infinity = true
at_most_zero nan = false

unfoldable pub below_zero : Float → Bool
below_zero (fraction z d) = ltb_ℤ z (pos 0)
below_zero plus_infinity = false
below_zero minus_infinity = true
below_zero nan = false

-- `f >= 1` and `f > 1`
unfoldable pub at_least_one : Float → Bool
at_least_one (fraction z d) = not (ltb_ℤ z (pos (suc d)))
at_least_one plus_infinity = true
at_least_one minus_infinity = false
at_least_one nan = false

unfoldable pub above_one : Float → Bool
above_one (fraction z d) = ltb_ℤ (pos (suc d)) z
above_one plus_infinity = true
above_one minus_infinity = false
above_one nan = false

pub data Role : Type 0 where
  server worker : Role

pub record OidcConfig : Type 0 where
  pub issuer_url : Text
  pub audience : Text
  pub tenant_claim : Text
  pub allow_insecure_issuer : Bool

pub record RedisConfig : Type 0 where
  pub addr : Text
  pub rate_limit_per_minute : ℤ
  pub rate_limit_burst : ℤ

pub record OutboxConfig : Type 0 where
  pub batch_size : ℤ
  pub max_conns : ℤ
  pub poll_interval : ℤ

pub record RetentionConfig : Type 0 where
  pub outbox : ℤ
  pub processed_events : ℤ
  pub batch_size : ℤ

pub record NatsConfig : Type 0 where
  pub url : Text
  pub stream : Text
  pub subject_prefix : Text
  pub dlq_subject_prefix : Text
  pub consumer : Text
  pub duplicate_window : ℤ
  pub stream_max_age : ℤ
  pub max_deliver : ℤ
  pub ack_wait : ℤ

pub record UpstreamConfig : Type 0 where
  pub default_timeout : ℤ
  pub reserve_fraction : Float
  pub min_budget : ℤ

pub record ServerConfig : Type 0 where
  pub default_timeout : ℤ
  pub max_timeout : ℤ

pub record Config : Type 0 where
  pub role : Role
  pub app_env : Text
  pub log_level : Text
  pub log_format : Text
  pub store_driver : Text
  pub dsn : Text
  pub max_open_conns : ℤ
  pub auth_mode : Text
  pub oidc : OidcConfig
  pub redis : RedisConfig
  pub outbox : OutboxConfig
  pub nats : NatsConfig
  pub retention : RetentionConfig
  pub upstream : UpstreamConfig
  pub trace_sample_ratio : Float
  pub server : ServerConfig

-- What an error complains of, by the setting that its message names first.
pub data Problem : Type 0 where
  app_env store_driver auth_mode dev_auth_in_production insecure_issuer_in_production : Problem
  dsn_for_worker dsn_for_postgres retention_floor retention_outbox : Problem
  retention_processed_events retention_batch_size issuer_url audience tenant_claim : Problem
  rate_limit_per_minute rate_limit_burst outbox_batch_size outbox_max_conns : Problem
  name_empty name_illegal dlq_inside_prefix duplicate_window duplicate_window_short : Problem
  stream_max_age max_deliver ack_wait reserve_fraction upstream_default_timeout : Problem
  upstream_min_budget upstream_budget_order max_open_conns timeout_order sample_ratio : Problem
  log_format log_level : Problem

-- `if c { errs = append(errs, p) }`
abbrev pub when : Bool → Problem → List Problem
when true p = p ∷ []
when false p = []

abbrev pub is_server : Role → Bool
is_server server = true
is_server worker = false

-- `z <= 0`
abbrev pub not_positive : ℤ → Bool
not_positive z = not (ltb_ℤ (pos 0) z)

-- `oneOf`
abbrev pub one_of : Text → List Text → Bool
one_of v allowed = is_in v allowed

-- `strings.HasPrefix`
unfoldable pub has_prefix : Text → Text → Bool
has_prefix [] s = true
has_prefix (c ∷ p) [] = false
has_prefix (c ∷ p) (d ∷ s) = c == d && has_prefix p s

-- `prefixed`
unfoldable pub prefixed : Text → Text → Bool
prefixed subject prefix = text_eq subject prefix || has_prefix (prefix ++ b'.' ∷ []) subject

-- `strings.ContainsAny(s, "*> \t\r\n")`
unfoldable pub has_illegal : Text → Bool
has_illegal [] = false
has_illegal (c ∷ s) =
    (c == b'*' || (c == b'>' || (c == 32 || (c == 9 || (c == 13 || c == 10))))) || has_illegal s

-- `parseLevel` of the lowered text, by whether it is an error.
abbrev known_level : Text → Bool
known_level l =
    one_of l (codes "debug" ∷ codes "info" ∷ codes "warn" ∷ codes "warning" ∷ codes "error" ∷ [])

module _ ⦃s : Strings⦄ where
  -- The loop over the names.
  unfoldable pub validate_names : List Text → List Problem
  validate_names [] = []
  validate_names (v ∷ vs) =
      (if is_empty (s.trim_space v) then name_empty ∷ [] else when (has_illegal v) name_illegal)
      ++ validate_names vs

  -- `validateNATS`
  unfoldable pub validate_nats : Config → List Problem
  validate_nats c =
      if is_empty c.nats.url
      then []
      else validate_names
          (c.nats.stream ∷ c.nats.subject_prefix ∷ c.nats.dlq_subject_prefix ∷ c.nats.consumer ∷ [])
        ++ (when (prefixed c.nats.dlq_subject_prefix c.nats.subject_prefix) dlq_inside_prefix
            ++ ((if not_positive c.nats.duplicate_window
                  then duplicate_window ∷ []
                  else when (not (ltb_ℤ c.outbox.poll_interval c.nats.duplicate_window))
                      duplicate_window_short)
                ++ (when (not_positive c.nats.stream_max_age) stream_max_age
                    ++ (when (not_positive c.nats.max_deliver) max_deliver
                        ++ when (not_positive c.nats.ack_wait) ack_wait))))

  -- The three parts of `Validate` before the broker's settings.
  unfoldable pub validate_modes : Config → List Problem
  validate_modes c =
      let production = text_eq c.app_env (codes "production") in
      when
        (not (one_of c.app_env (codes "development" ∷ codes "staging" ∷ codes "production" ∷ [])))
        app_env
      ++ (when (not (one_of c.store_driver (codes "memory" ∷ codes "postgres" ∷ []))) store_driver
          ++ (when (not (one_of c.auth_mode (codes "dev" ∷ codes "oidc" ∷ []))) auth_mode
              ++ (when (is_server c.role && (production && text_eq c.auth_mode (codes "dev")))
                    dev_auth_in_production
                  ++ (when (production && c.oidc.allow_insecure_issuer)
                        insecure_issuer_in_production
                      ++ (when (not (is_server c.role) && is_empty c.dsn) dsn_for_worker
                          ++ when (text_eq c.store_driver (codes "postgres") && is_empty c.dsn)
                              dsn_for_postgres)))))

  unfoldable pub validate_retention : Config → List Problem
  validate_retention c =
      when
        (ltb_ℤ (pos 0) c.retention.processed_events
          && not (ltb_ℤ c.nats.stream_max_age c.retention.processed_events))
        retention_floor
      ++ (when (not_positive c.retention.outbox) retention_outbox
          ++ (when (not_positive c.retention.processed_events) retention_processed_events
              ++ when (not_positive c.retention.batch_size) retention_batch_size))

  unfoldable pub validate_oidc : Config → List Problem
  validate_oidc c =
      if text_eq c.auth_mode (codes "oidc")
      then when (is_empty c.oidc.issuer_url) issuer_url
        ++ (when (is_empty c.oidc.audience) audience
            ++ when (is_empty (s.trim_space c.oidc.tenant_claim)) tenant_claim)
      else []

  unfoldable pub validate_limits : Config → List Problem
  validate_limits c =
      (if is_empty c.redis.addr
        then []
        else when (not_positive c.redis.rate_limit_per_minute) rate_limit_per_minute
          ++ when (not_positive c.redis.rate_limit_burst) rate_limit_burst)
      ++ (when (not_positive c.outbox.batch_size) outbox_batch_size
          ++ when (not_positive c.outbox.max_conns) outbox_max_conns)

  -- The part behind the broker's settings.
  unfoldable pub validate_rest : Config → List Problem
  validate_rest c =
      when (at_most_zero c.upstream.reserve_fraction || at_least_one c.upstream.reserve_fraction)
        reserve_fraction
      ++ (when (not_positive c.upstream.default_timeout) upstream_default_timeout
          ++ (when (not_positive c.upstream.min_budget) upstream_min_budget
              ++ (when (not (ltb_ℤ c.upstream.min_budget c.upstream.default_timeout))
                    upstream_budget_order
                  ++ (when (not_positive c.max_open_conns) max_open_conns
                      ++ (when (ltb_ℤ c.server.max_timeout c.server.default_timeout) timeout_order
                          ++ (when
                                (below_zero c.trace_sample_ratio || above_one c.trace_sample_ratio)
                                sample_ratio
                              ++ (when
                                    (not (one_of c.log_format (codes "json" ∷ codes "text" ∷ [])))
                                    log_format
                                  ++ when (not (known_level (s.to_lower c.log_level)))
                                      log_level)))))))

  -- `Validate`; no problem is no error.
  unfoldable pub validate_config : Config → List Problem
  validate_config c =
      validate_modes c
      ++ (validate_retention c
          ++ (validate_oidc c ++ (validate_limits c ++ (validate_nats c ++ validate_rest c))))

-- What is accepted part by part, and check by check.
pub append-nil_parts {ℓ} : {A : Type ℓ} (xs ys : List A) → xs ++ ys ≡ [] → (xs ≡ []) × (ys ≡ [])
append-nil_parts [] ys h = (refl, h)
append-nil_parts (x ∷ xs) ys h = absurd cc

pub when-nil : (b : Bool) (p : Problem) → when b p ≡ [] → b ≡ false
when-nil true p h = cc
when-nil false p h = refl

-- What `NewVerifier` builds: the development verifier, the OIDC one, or nothing.
pub data Chosen : Type 0 where
  dev oidc neither : Chosen

unfoldable pub new_verifier : Config → Chosen
new_verifier c =
    if text_eq c.auth_mode (codes "dev")
    then dev
    else if text_eq c.auth_mode (codes "oidc")
    then oidc
    else neither
