-- ===== src/Order/Status.antt =====
-- The order lifecycle of internal/order/order.go: the states, their names, and the transitions.
pub mod Lifecycle
use boilerplate_go_grpc_micr.Common.{
  ℕ, ◌+◌, Bool, true, false, ◌||◌, List, [], ◌∷◌, ◌==◌, if◌then◌else◌,
}
use boilerplate_go_grpc_micr.Common.Text.{Text, codes, text_eq, is_empty}
use boilerplate_go_grpc_micr.Order.Errors.{Result, ok, err}

-- `Status` is a uint8; `undeclared n` is the value 5 + n, which no constant names.
pub data Status : Type 0 where
  unspecified pending confirmed shipped cancelled : Status
  undeclared : ℕ → Status

-- The number that `%d` prints.
abbrev pub status_number : Status → ℕ
status_number unspecified = 0
status_number pending = 1
status_number confirmed = 2
status_number shipped = 3
status_number cancelled = 4
status_number (undeclared n) = n + 5

abbrev pub same_status : Status → Status → Bool
same_status s t = status_number s == status_number t

-- `Status.String`
unfoldable pub status_string : Status → Text
status_string pending = codes "PENDING"
status_string confirmed = codes "CONFIRMED"
status_string shipped = codes "SHIPPED"
status_string cancelled = codes "CANCELLED"
status_string _ = codes "UNSPECIFIED"

-- `Status.Valid`
unfoldable pub status_valid : Status → Bool
status_valid pending = true
status_valid confirmed = true
status_valid shipped = true
status_valid cancelled = true
status_valid _ = false

unfoldable pub parse_status : Text → Result Status
parse_status s =
    if text_eq s (codes "PENDING")
    then ok pending
    else if text_eq s (codes "CONFIRMED")
    then ok confirmed
    else if text_eq s (codes "SHIPPED")
    then ok shipped
    else if text_eq s (codes "CANCELLED")
    then ok cancelled
    else if text_eq s (codes "UNSPECIFIED") || is_empty s
    then ok unspecified
    else err []

unfoldable pub all_statuses : List Status
all_statuses = pending ∷ confirmed ∷ shipped ∷ cancelled ∷ []

-- The map `allowedTransitions`; a missing key reads as no transition.
abbrev pub allowed_transitions : Status → List Status
allowed_transitions pending = confirmed ∷ cancelled ∷ []
allowed_transitions confirmed = shipped ∷ cancelled ∷ []
allowed_transitions _ = []

contains_status : List Status → Status → Bool
contains_status [] next = false
contains_status (allowed ∷ rest) next = same_status allowed next || contains_status rest next

-- `Status.CanTransitionTo`
unfoldable pub can_transition_to : Status → Status → Bool
unfolding contains_status
can_transition_to s next = contains_status (allowed_transitions s) next
