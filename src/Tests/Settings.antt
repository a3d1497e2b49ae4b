-- ===== src/Tests/Settings.antt =====
-- An accepted configuration, and what follows for it.
use boilerplate_go_grpc_micr.Common.{ℕ, ◌≡◌, refl, true, false, some, [], ◌∷◌, All, keep}
use boilerplate_go_grpc_micr.Common.Int.{pos}
use boilerplate_go_grpc_micr.Common.Text.{codes, is_empty, text_eq}
use boilerplate_go_grpc_micr.Outbox.Prune.{
  Processed, Pruned, goes, prune, is_aged, is_forgotten, delete_in_batches, delete_batch,
  after_delete, prune_first, prune_second,
}
use boilerplate_go_grpc_micr.Events.{dispatch, failing}
use boilerplate_go_grpc_micr.Config.{
  fraction, server, Config, prefixed, has_prefix, has_illegal, at_most_zero, at_least_one,
  below_zero, above_one, validate_names, validate_nats, validate_modes, validate_oidc,
  validate_limits, validate_rest, validate_retention, validate_config,
}
use boilerplate_go_grpc_micr.Config.Production.{IsGuarded, validate_config-IsGuarded}
use boilerplate_go_grpc_micr.Config.DeadLetters.{IsUnread, dispatch-IsUnread}
use boilerplate_go_grpc_micr.Config.Retention.{is_deliverable, prune-remembers}
use boilerplate_go_grpc_micr.Tests.Access.{plain_strings}
use boilerplate_go_grpc_micr.Tests.Messages.{row, msg}

abbrev pub config : Config
config = record {
  role = server;
  app_env = codes "production";
  log_level = codes "info";
  log_format = codes "json";
  store_driver = codes "postgres";
  dsn = codes "postgres://orders";
  max_open_conns = pos 20;
  auth_mode = codes "oidc";
  oidc = record {
    issuer_url = codes "https://issuer";
    audience = codes "orders";
    tenant_claim = codes "tenant_id";
    allow_insecure_issuer = false;
  };
  redis = record { addr = []; rate_limit_per_minute = pos 600; rate_limit_burst = pos 100 };
  outbox = record { batch_size = pos 100; max_conns = pos 4; poll_interval = pos 1000 };
  nats = record {
    url = codes "nats://broker";
    stream = codes "ORDERS";
    subject_prefix = codes "orders";
    dlq_subject_prefix = codes "dlq";
    consumer = codes "projection";
    duplicate_window = pos 2000;
    stream_max_age = pos 70;
    max_deliver = pos 5;
    ack_wait = pos 30;
  };
  retention = record { outbox = pos 40; processed_events = pos 80; batch_size = pos 1000 };
  upstream = record {
    default_timeout = pos 10;
    reserve_fraction = fraction (pos 1) 9;
    min_budget = pos 1;
  };
  trace_sample_ratio = fraction (pos 1) 9;
  server = record { default_timeout = pos 15; max_timeout = pos 60 };
}

pub accepted : validate_config ⦃s = plain_strings⦄ config ≡ []
unfolding validate_config validate_names validate_nats validate_modes validate_oidc validate_limits
    validate_rest validate_retention prefixed has_prefix has_illegal at_most_zero at_least_one
    below_zero above_one text_eq is_empty
accepted = refl

validate_config-IsGuarded_example : IsGuarded ⦃s = plain_strings⦄ config
validate_config-IsGuarded_example =
    validate_config-IsGuarded ⦃s = plain_strings⦄ config accepted refl refl

nested : prefixed (codes "orders") (codes "dlq") ≡ false
unfolding prefixed has_prefix text_eq
nested = refl

dispatch-IsUnread_example :
    All
      (IsUnread (codes "orders"))
      (dispatch (codes "dlq") 5 (λ _. failing (codes "no table")) true (some msg))
unfolding is_empty
dispatch-IsUnread_example =
    dispatch-IsUnread ⦃s = plain_strings⦄ config 5 (λ _. failing (codes "no table")) true (some msg)
      accepted refl nested

-- At 200, a record of 110 is forgotten, and one of 150 is not.
abbrev seen : ℕ → Processed
seen t = record { consumer = codes "projection"; message_id = codes "orders-3"; processed_at = t }

abbrev left : Pruned
left = record {
  succeeded = true;
  outbox = 0;
  processed_events = 1;
  table = row 1 ∷ [];
  processed = seen 150 ∷ [];
}

pruned :
    prune 9 10 (λ _. goes) (λ _. goes) 200 40 80 (row 1 ∷ []) (seen 110 ∷ seen 150 ∷ []) ≡ some left
unfolding prune delete_in_batches delete_batch after_delete is_aged is_forgotten prune_first
    prune_second
pruned = refl

prune-remembers_example :
    keep (is_deliverable 200 70) (seen 150 ∷ [])
    ≡ keep (is_deliverable 200 70) (seen 110 ∷ seen 150 ∷ [])
prune-remembers_example =
    prune-remembers ⦃s = plain_strings⦄ config 9 10 200 40 (λ _. goes) (λ _. goes) (row 1 ∷ [])
      (seen 110 ∷ seen 150 ∷ []) left accepted pruned
