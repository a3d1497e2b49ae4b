-- ===== src/Tests/Messages.antt =====
-- The outbox, the consumer and the projection, on concrete messages.
use boilerplate_go_grpc_micr.Common.{
  ℕ, zero, suc, ◌≡◌, ◌≢◌, ◌≤◌, ◌⊎◌, ◌↔◌, refl, true, false, none, some, [], ◌∷◌, All, length,
}
use boilerplate_go_grpc_micr.Common.Text.{codes}
use boilerplate_go_grpc_micr.Outbox
use boilerplate_go_grpc_micr.Outbox.{
  Row, Answer, accepted, permanent, Weather, claim, has_id, publish_batch, stopped, drain_once,
  is_pending, set_aside,
}
use boilerplate_go_grpc_micr.Outbox.Delivery.{Drain, drain_all, IsDelivered, drain_all-IsDelivered}
use boilerplate_go_grpc_micr.Outbox.{published}
use boilerplate_go_grpc_micr.Outbox.Progress.{IsCalm, IsPublished, oldest, drain_once-calm}
use boilerplate_go_grpc_micr.Outbox.Poison.{drain_once-quarantine}
use boilerplate_go_grpc_micr.Events.{
  Event, Msg, Handled, done, failing, dispatch, subject, valid_tokens, tokens_from, token_byte,
}
use boilerplate_go_grpc_micr.Events.Fate.{copies, ends_delivery, IsGivenUp, IsLost, dispatch-Fate}
use boilerplate_go_grpc_micr.Projection.{Db, Luck}
use boilerplate_go_grpc_micr.Projection.Once.{IsCounted, handle_all, handle_all-IsCounted}

-- Two rows, the first of which the broker refuses for good.
abbrev pub row : ℕ → Row
row n = record {
  id = n;
  tenant_id = codes "acme";
  aggregate_id = codes "o";
  event_type = codes "order.v1.OrderCreated";
  payload = [];
  occurred_at = 5;
  trace_parent = [];
  published_at = none;
  failed_at = none;
  failure_reason = none;
}

abbrev pub fair : Weather
fair = record {
  begins = true;
  claims = true;
  marks = true;
  commits = true;
  quarantines = true;
  locked = λ _. false;
}

abbrev refusing : Row → Answer
refusing r = elim r.id [ zero ↦ permanent (codes "too large") | suc _ ↦ accepted ]

refused :
    (publish_batch refusing (claim (λ _. false) 10 (row 0 ∷ row 1 ∷ []))).0
    ≡ stopped (row 0) (codes "too large") true
unfolding publish_batch claim is_pending
refused = refl

abbrev drain : Drain
drain = record { batch_size = 10; broker = refusing; weather = fair; at = 9 }

drain_once-quarantine_example :
    has_id 0 (
      claim
        (λ _. false)
        5
        (drain_all (drain ∷ []) (drain_once 10 refusing fair 9 (row 0 ∷ row 1 ∷ [])).table []).0)
    ≡ false
drain_once-quarantine_example =
    drain_once-quarantine 10 refusing fair 9 (row 0 ∷ row 1 ∷ []) (row 0) (codes "too large")
      (drain ∷ []) (λ _. false) 5 refl refl refl refused

drain_all-IsDelivered_example :
    All
      (IsDelivered (drain_all (drain ∷ drain ∷ []) (row 0 ∷ row 1 ∷ []) []).1)
      (drain_all (drain ∷ drain ∷ []) (row 0 ∷ row 1 ∷ []) []).0
drain_all-IsDelivered_example =
    drain_all-IsDelivered (drain ∷ drain ∷ []) (row 0 ∷ row 1 ∷ []) [] ((λ h. cc), ((λ h. cc), tt))

-- After two drains the second row is stamped.
drained : (drain_all (drain ∷ drain ∷ []) (row 0 ∷ row 1 ∷ []) []).1 ≡ row 1 ∷ []
unfolding drain_once Outbox.finish publish_batch claim is_pending set_aside Outbox.stamp
    Outbox.affected
drained = refl

abbrev pub willing : Row → Answer
willing r = accepted

calm : IsCalm willing fair
calm = record { accepts = λ r. refl; begins = refl; claims = refl; marks = refl; commits = refl }

drain_once-calm_example :
    ((drain_once 10 willing fair 9 (row 0 ∷ row 1 ∷ [])).drained
      ≡ published (length (oldest 10 (λ _. false) (row 0 ∷ row 1 ∷ []))))
    × ((drain_once 10 willing fair 9 (row 0 ∷ row 1 ∷ [])).sent
        ≡ oldest 10 (λ _. false) (row 0 ∷ row 1 ∷ []))
    × IsPublished 9
        (oldest 10 (λ _. false) (row 0 ∷ row 1 ∷ []))
        (row 0 ∷ row 1 ∷ [])
        (drain_once 10 willing fair 9 (row 0 ∷ row 1 ∷ [])).table
drain_once-calm_example =
    drain_once-calm 10 willing fair 9 (row 0 ∷ row 1 ∷ []) ((refl, tt), (tt, tt)) calm

abbrev pub msg : Msg
msg = record {
  subject = codes "events.order.v1.OrderCreated";
  msg_id = codes "7";
  tenant_id = codes "acme";
  event_type = codes "order.v1.OrderCreated";
  aggregate_id = codes "o";
  trace_parent = [];
  body = [];
  occurred_at = none;
  stored_at = 6;
  sequence_id = codes "EVENTS-seq-1";
  num_delivered = 5;
}

abbrev failing_handler : Event → Handled
failing_handler e = failing (codes "down")

dispatch-Fate_example :
    ((copies (dispatch (codes "dlq") 5 failing_handler false (some msg)) ≡ true)
      ↔ IsGivenUp 5 msg (failing (codes "down")))
    × ((ends_delivery (dispatch (codes "dlq") 5 failing_handler false (some msg)) ≡ true) ↔ (
        (failing (codes "down") ≡ done)
        ⊎ ((copies (dispatch (codes "dlq") 5 failing_handler false (some msg)) ≡ true)
            × (false ≡ true))))
    × (IsLost 5 msg false
          (failing (codes "down"))
          (dispatch (codes "dlq") 5 failing_handler false (some msg))
        ↔ ((failing (codes "down") ≢ done) × (5 ≤ 5) × (false ≡ false)))
dispatch-Fate_example = dispatch-Fate (codes "dlq") 5 failing_handler false msg

subject_built :
    subject (codes "events") (codes "order.v1.OrderCreated")
    ≡ some (codes "events.order.v1.OrderCreated")
unfolding subject valid_tokens tokens_from token_byte
subject_built = refl

abbrev created : Event
created = record {
  id = codes "7";
  tenant_id = codes "acme";
  event_type = codes "order.v1.OrderCreated";
  aggregate_id = codes "o";
  payload = [];
  occurred_at = 6;
  deliveries = 1;
  trace_parent = [];
}

abbrev lucky : Luck
lucky = record { begins = true; claims = true; projects = true; commits = true }

abbrev no_rows : Db
no_rows = record { processed = []; counts = [] }

no_rows-IsCounted : IsCounted no_rows
no_rows-IsCounted = record { counted = refl; distinct = tt }

handle_all-IsCounted_example :
    IsCounted (handle_all (codes "counts") some ((lucky, created) ∷ (lucky, created) ∷ []) no_rows)
handle_all-IsCounted_example =
    handle_all-IsCounted (codes "counts") some ((lucky, created) ∷ (lucky, created) ∷ []) no_rows
      no_rows-IsCounted
