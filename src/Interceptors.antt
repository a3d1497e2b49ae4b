-- ===== src/Interceptors.antt =====
-- internal/platform/interceptor: what stands between the wire and a handler. A panic is an
-- outcome of the handler; the clock and the free slots are inputs.
pub mod Replies
pub mod Slots
pub mod Deadlines
use boilerplate_go_grpc_micr.Common.{
  ℕ, zero, suc, Bool, true, false, not, ◌&&◌, ◌||◌, Option, none, some, List, [], ◌∷◌, ◌++◌, ltb,
  leb, ◌==◌, length, if◌then◌else◌,
}
use boilerplate_go_grpc_micr.Common.Int.{ℤ, pos, ltb_ℤ}
use boilerplate_go_grpc_micr.Common.Text.{Text, codes}
use boilerplate_go_grpc_micr.Failures.{
  Kind, AppError, Link, app, opaque, Failure, from_chain, Status, to_status,
}

-- An error, and the status that `status.FromError` finds in it.
pub record Raised : Type 0 where
  pub failure : Failure
  pub carried : Option Status

-- How a handler ends, with what `fmt.Sprintf("%v")` makes of a panic's value.
pub data Outcome : Type 0 where
  reply : Outcome
  raised : Raised → Outcome
  panicked : Text → Outcome

-- An error that leaves an interceptor: as it came, or the error of a new status.
pub data Sent : Type 0 where
  ok : Sent
  unchanged : Raised → Sent
  made : Status → Sent
  panicking : Text → Sent

abbrev pub is_some {ℓ} : {A : Type ℓ} → Option A → Bool
is_some none = false
is_some (some _) = true

-- `mapErr`
unfoldable pub map_err : Bool → Text → Raised → Sent
map_err attaches where_from r =
    if is_some r.carried && not (is_some (from_chain r.failure.chain))
    then unchanged r
    else made (to_status attaches where_from (some r.failure))

-- `ErrorMap`; a panic passes it.
unfoldable pub error_map : Bool → Text → Outcome → Sent
error_map attaches where_from reply = ok
error_map attaches where_from (raised r) = map_err attaches where_from r
error_map attaches where_from (panicked value) = panicking value

-- The error that `handlePanic` maps, and its text.
unfoldable pub panic_failure : Text → Failure
panic_failure value = record {
  chain =
      app (record {
        kind = Kind.internal;
        reason = codes "PANIC";
        message = codes "handler panicked";
        metadata = [];
        details = [];
      })
      ∷ opaque
      ∷ [];
  text = codes "PANIC: handler panicked: panic: " ++ value;
}

-- `handlePanic`
unfoldable pub handle_panic : Bool → Text → Text → Status
handle_panic attaches where_from value = to_status attaches where_from (some (panic_failure value))

-- `Recovery`
unfoldable pub recovery : Bool → Text → Sent → Sent
recovery attaches where_from ok = ok
recovery attaches where_from (unchanged r) = unchanged r
recovery attaches where_from (made s) = made s
recovery attaches where_from (panicking value) = made (handle_panic attaches where_from value)

-- The errors of the interceptors behind `ErrorMap` and of the handler, as `NewServer` chains them.
unfoldable pub chain_errors : Bool → Text → Outcome → Sent
chain_errors attaches where_from o = recovery attaches where_from (error_map attaches where_from o)

-- What `Admission` answers a call.
pub data Ruling : Type 0 where
  exempt expired admitted overloaded : Ruling

-- `max(limit, 1)`
unfoldable pub capacity : ℤ → ℕ
capacity (pos n) = if n == 0 then 1 else n
capacity _ = 1

-- `Admission` up to the handler, over the calls that hold a slot; `late` tells that the deadline
-- of the call has passed.
unfoldable pub admission : ℤ → ℕ → Bool → Bool → List ℕ → Ruling × List ℕ
admission limit id is_health late slots =
    if is_health
    then (exempt, slots)
    else if late
    then (expired, slots)
    else if ltb (length slots) (capacity limit)
    then (admitted, id ∷ slots)
    else (overloaded, slots)

-- The deferred release, at the end of a call that was admitted.
unfoldable pub release : ℕ → List ℕ → List ℕ
release id [] = []
release id (i ∷ slots) = let rest = release id slots in if i == id then slots else i ∷ rest

-- `applyDeadline`, as the time that is left; the given one is `time.Until` of the deadline.
unfoldable pub apply_deadline : Option ℤ → ℤ → ℤ → ℤ
apply_deadline none default_timeout max_timeout = default_timeout
apply_deadline (some remaining) default_timeout max_timeout =
    if ltb_ℤ max_timeout remaining then max_timeout else remaining

-- `DeadlineStream`
unfoldable pub deadline_stream : Option ℤ → ℤ → ℤ
deadline_stream none max_timeout = max_timeout
deadline_stream (some remaining) max_timeout = remaining
