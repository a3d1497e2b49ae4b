-- ===== src/Outbox.antt =====
-- internal/platform/outbox/relay.go: the relay that moves rows of the outbox to a broker. The
-- table is the list of its rows by ascending id. Each statement of the database, and each
-- answer of the broker, is an input of the drain. The driver is taken to report how many rows a
-- statement affects.
pub mod Delivery
pub mod Poison
pub mod Progress
pub mod Prune
pub mod Custody
use boilerplate_go_grpc_micr.Common.{
  ℕ, suc, ◌+◌, Bool, true, false, not, ◌&&◌, Option, none, some, List, [], ◌∷◌, ◌++◌, map, ltb,
  ◌==◌, if◌then◌else◌, length, take, keep,
}
use boilerplate_go_grpc_micr.Common.Text.{Text}

-- A row of the table; `Message` holds what the relay reads of it.
pub record Row : Type 0 where
  pub id : ℕ
  pub tenant_id : Text
  pub aggregate_id : Text
  pub event_type : Text
  pub payload : Text
  pub occurred_at : ℕ
  pub trace_parent : Text
  pub published_at : Option ℕ
  pub failed_at : Option ℕ
  pub failure_reason : Option Text

abbrev pub Table : Type 0
Table = List Row

abbrev pub is_null {ℓ} : {A : Type ℓ} → Option A → Bool
is_null none = true
is_null (some _) = false

-- What the broker says to one message; an error has a text, and may be permanent.
pub data Answer : Type 0 where
  accepted : Answer
  transient permanent : Text → Answer

-- Which steps of the database succeed, and which rows other transactions hold locked.
pub record Weather : Type 0 where
  pub begins : Bool
  pub claims : Bool
  pub marks : Bool
  pub commits : Bool
  pub quarantines : Bool
  pub locked : Row → Bool

-- The rows that `claimSQL` selects.
unfoldable pub is_pending : Row → Bool
is_pending r = is_null r.published_at && is_null r.failed_at

unfoldable pub claim : (Row → Bool) → ℕ → Table → List Row
claim locked n t = take n (keep (λ r. is_pending r && not (locked r)) t)

-- How the loop over the batch ends.
pub data Ending : Type 0 where
  all_sent : Ending
  stopped : Row → Text → Bool → Ending

-- The loop, with the messages that the broker took.
unfoldable pub publish_batch : (Row → Answer) → List Row → Ending × List Row
publish_batch broker [] = (all_sent, [])
publish_batch broker (m ∷ ms) =
    let rest = publish_batch broker ms in
    elim (broker m) [
      | accepted ↦ (rest.0, m ∷ rest.1)
      | transient cause ↦ (stopped m cause false, [])
      | permanent cause ↦ (stopped m cause true, [])
    ]

abbrev pub has_id : ℕ → List Row → Bool
has_id id [] = false
has_id id (m ∷ ms) = if m.id == id then true else has_id id ms

-- The UPDATE of `markPublished`, and the number of rows that it affects.
unfoldable pub stamp : ℕ → List Row → Row → Row
stamp now batch r = if has_id r.id batch then record r { published_at = some now } else r

unfoldable pub affected : List Row → Table → ℕ
affected batch t = length (keep (λ r. has_id r.id batch) t)

-- The UPDATE of `quarantine`.
unfoldable pub set_aside : ℕ → Row → Text → Row → Row
set_aside now m cause r =
    if r.id == m.id && is_null r.published_at
    then record r { failed_at = some now; failure_reason = some cause }
    else r

-- The number published, or an error.
pub data Drained : Type 0 where
  published : ℕ → Drained
  failed : Drained

pub record Outcome : Type 0 where
  pub drained : Drained
  pub table : Table
  pub sent : List Row  -- what the broker took

abbrev pub undone : Table → List Row → Outcome
undone t sent = record { drained = failed; table = t; sent = sent }

-- `DrainOnce` after the loop. A rollback restores the table, whatever was sent.
unfoldable pub finish : List Row → List Row → Weather → ℕ → Table → Ending → Outcome
finish batch sent w now t (stopped m cause is_permanent) =
    if is_permanent && w.quarantines
    then undone (map (set_aside now m cause) t) sent
    else undone t sent
finish batch sent w now t all_sent =
    if w.marks && (affected batch t == length batch && w.commits)
    then record { drained = published (length batch); table = map (stamp now batch) t; sent = sent }
    else undone t sent

unfoldable pub drain_once : ℕ → (Row → Answer) → Weather → ℕ → Table → Outcome
drain_once batch_size broker w now t =
    let batch = claim w.locked batch_size t in
    let (ending, sent) = publish_batch broker batch in
    if not (w.begins && w.claims)
    then undone t []
    else if length batch == 0
    then record { drained = if w.commits then published 0 else failed; table = t; sent = [] }
    else finish batch sent w now t ending
