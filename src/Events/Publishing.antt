-- ===== src/Events/Publishing.antt =====
-- internal/platform/events/publisher.go: how the relay's messages reach the broker, whose answer
-- is an input. A message carries each header in a field of its own.
pub mod Ids
pub mod Wire
use boilerplate_go_grpc_micr.Common.{
  ℕ, zero, suc, ◌+◌, Bool, true, false, Option, none, some, List, [], ◌∷◌, ◌++◌, ltb, if◌then◌else◌,
  ◌≡◌,
}
use Prim.Native.Nat.{◌/◌, ◌%◌}
use boilerplate_go_grpc_micr.Common.Text.{Text, is_empty}
use boilerplate_go_grpc_micr.Outbox.{Row, Answer, accepted, transient, permanent}
use boilerplate_go_grpc_micr.Events.{subject}

-- The digits of a number below 10 ^ fuel.
unfoldable pub digits : ℕ → ℕ → Text
digits zero n = []
digits (suc fuel) n =
    let front = digits fuel (n / 10) in
    if ltb n 10 then (b'0' + n) ∷ [] else front ++ (b'0' + n % 10) ∷ []

-- `strconv.FormatInt(n, 10)` of a number that is not negative.
unfoldable pub decimal : ℕ → Text
decimal n = digits (suc n) n

-- `msgID`, for the publisher of a service.
unfoldable pub message_id : Text → ℕ → Text
message_id service id = service ++ b'-' ∷ decimal id

-- Time's layout RFC3339Nano: an instant of the years 0 to 9999 parses as what it was formatted
-- from.
pub record TimeFormat : Type 0 where
  pub format : ℕ → Text
  pub parse : Text → Option ℕ
  pub in_layout_years : ℕ → Bool
  pub parse-format : (t : ℕ) → in_layout_years t ≡ true → parse (format t) ≡ some t

-- `nats.Msg`; `none` is a header that is not set.
pub record Message : Type 0 where
  pub subject_name : Text
  pub body : Text
  pub message_id_header : Text
  pub tenant_id_header : Text
  pub event_type_header : Text
  pub aggregate_id_header : Text
  pub occurred_at_header : Text
  pub trace_parent_header : Option Text

-- What `PublishMsg` says; an error is one of the two that `classify` knows, or another.
pub data Reply : Type 0 where
  stored : Bool → Reply
  max_payload bad_subject other : Text → Reply

-- `classify`, and the nil that follows an acknowledgement, duplicate or not.
unfoldable pub answer_of : Reply → Answer
answer_of (stored duplicate) = accepted
answer_of (max_payload cause) = permanent cause
answer_of (bad_subject cause) = permanent cause
answer_of (other cause) = transient cause

module _ ⦃t : TimeFormat⦄ where
  unfoldable pub message_on : Text → Text → Row → Message
  message_on service name r = record {
    subject_name = name;
    body = r.payload;
    message_id_header = message_id service r.id;
    tenant_id_header = r.tenant_id;
    event_type_header = r.event_type;
    aggregate_id_header = r.aggregate_id;
    occurred_at_header = t.format r.occurred_at;
    trace_parent_header = if is_empty r.trace_parent then none else some r.trace_parent;
  }

  unfoldable pub publish_on : Text → Option Text → Text → (Message → Reply) → Row → Answer
  publish_on service none complaint broker r = permanent complaint
  publish_on service (some name) complaint broker r = answer_of (broker (message_on service name r))

  -- `Publish`; `complaint` is the text of the error of `Subject`.
  unfoldable pub publish : Text → Text → Text → (Message → Reply) → Row → Answer
  publish service prefix complaint broker r =
      publish_on service (subject prefix r.event_type) complaint broker r
