-- ===== src/Events.antt =====
-- internal/platform/events: the subject of an event, and what the consumer does with one
-- delivery. The broker's calls are recorded as the commands of the consumer; the handler, and
-- whether the copy of a dead letter is stored, are inputs.
pub mod Fate
pub mod Subjects
pub mod Publishing
use boilerplate_go_grpc_micr.Common.{
  ℕ, suc, Bool, true, false, not, ◌&&◌, ◌||◌, Option, none, some, List, [], ◌∷◌, ◌++◌, leb, ◌==◌,
  if◌then◌else◌, length, take,
}
use boilerplate_go_grpc_micr.Common.Text.{Text, codes, is_empty}

-- A header of the message, and the message with what JetStream's metadata tells of it.
pub record Msg : Type 0 where
  pub subject : Text
  pub msg_id : Text
  pub tenant_id : Text
  pub event_type : Text
  pub aggregate_id : Text
  pub trace_parent : Text
  pub body : Text
  pub occurred_at : Option ℕ  -- the header, where it parses
  pub stored_at : ℕ
  pub sequence_id : Text  -- the stream and its sequence number, as `%s-seq-%d`
  pub num_delivered : ℕ

pub record Event : Type 0 where
  pub id : Text
  pub tenant_id : Text
  pub event_type : Text
  pub aggregate_id : Text
  pub payload : Text
  pub occurred_at : ℕ
  pub deliveries : ℕ
  pub trace_parent : Text

-- `eventFrom`
unfoldable pub event_from : Msg → Event
event_from m = record {
  id = if is_empty m.msg_id then m.sequence_id else m.msg_id;
  tenant_id = m.tenant_id;
  event_type = m.event_type;
  aggregate_id = m.aggregate_id;
  payload = m.body;
  occurred_at = elim m.occurred_at [ none ↦ m.stored_at | some t ↦ t ];
  deliveries = m.num_delivered;
  trace_parent = m.trace_parent;
}

-- What a handler returns: nothing, an error, or an error marked permanent.
pub data Handled : Type 0 where
  done : Handled
  failing permanently : Text → Handled

-- What the consumer asks of the broker.
pub data Command : Type 0 where
  ack nak : Command
  store_copy : Text → Text → Text → ℕ → Command  -- subject, message id, reason, deliveries
  term : Text → Command

abbrev truncate : Text → ℕ → Text
truncate s n = if leb (length s) n then s else take n s

-- `deadLetter`; `stored` tells whether the copy is stored.
unfoldable pub dead_letter : Text → Bool → Msg → Event → Text → List Command
dead_letter prefix stored m e cause =
    store_copy (prefix ++ b'.' ∷ m.subject) (codes "dlq-" ++ e.id) cause e.deliveries
    ∷ (if stored then term (truncate cause 256) ∷ [] else nak ∷ [])

-- `dispatch`; `none` is a message without metadata.
unfoldable pub dispatch : Text → ℕ → (Event → Handled) → Bool → Option Msg → List Command
dispatch prefix max_deliver handler stored none = []
dispatch prefix max_deliver handler stored (some m) =
    let e = event_from m in
    elim (handler e) [
      | done ↦ ack ∷ []
      | permanently cause ↦ dead_letter prefix stored m e cause
      | failing cause ↦
          if leb max_deliver e.deliveries then dead_letter prefix stored m e cause else nak ∷ []
    ]

abbrev is_between : ℕ → ℕ → ℕ → Bool
is_between low high b = leb low b && leb b high

-- A byte that a token may have.
unfoldable pub token_byte : ℕ → Bool
token_byte b =
    is_between b'a' b'z' b
    || (is_between b'A' b'Z' b || (is_between b'0' b'9' b || (b == b'_' || b == b'-')))

-- `validTokens`, over the bytes: `strings.Split` at each dot, no token empty, every byte legal.
-- The flag tells that the token so far is empty.
unfoldable pub tokens_from : Bool → Text → Bool
tokens_from fresh [] = not fresh
tokens_from fresh (b ∷ bs) =
    let after_dot = tokens_from true bs in
    let after_byte = tokens_from false bs in
    if b == b'.' then not fresh && after_dot else token_byte b && after_byte

unfoldable pub valid_tokens : Text → Bool
valid_tokens s = tokens_from true s

unfoldable pub subject : Text → Text → Option Text
subject prefix event_type =
    if not (valid_tokens prefix)
    then none
    else if not (valid_tokens event_type)
    then none
    else some (prefix ++ b'.' ∷ event_type)
