-- ===== src/Order/Status/Lifecycle.antt =====
-- The state machine as a relation, and the names of the states.
use boilerplate_go_grpc_micr.Common.{◌≡◌, refl, ◌⊎◌, ◌↔◌, true, arith}
use boilerplate_go_grpc_micr.Common.Text.{text_eq}
use boilerplate_go_grpc_micr.Order.Errors.{ok}
use boilerplate_go_grpc_micr.Order.Status.{
  Status, status_string, status_valid, parse_status, can_transition_to, unspecified, pending,
  confirmed, shipped, cancelled, undeclared,
}

-- The transitions of the lifecycle diagram.
pub data Step : Status → Status → Type 0 where
  confirm : Step pending confirmed
  abandon : Step pending cancelled
  ship : Step confirmed shipped
  revoke : Step confirmed cancelled

-- The table allows exactly the four transitions of the lifecycle.
can_transition_to-Step : (s t : Status) → can_transition_to s t ≡ true → Step s t
unfolding can_transition_to
can_transition_to-Step pending unspecified h = cc
can_transition_to-Step pending pending h = cc
can_transition_to-Step pending confirmed h = confirm
can_transition_to-Step pending shipped h = cc
can_transition_to-Step pending cancelled h = abandon
can_transition_to-Step pending (undeclared n) h = absurd (ground arith)
can_transition_to-Step confirmed unspecified h = cc
can_transition_to-Step confirmed pending h = cc
can_transition_to-Step confirmed confirmed h = cc
can_transition_to-Step confirmed shipped h = ship
can_transition_to-Step confirmed cancelled h = revoke
can_transition_to-Step confirmed (undeclared n) h = absurd (ground arith)
can_transition_to-Step unspecified t h = cc
can_transition_to-Step shipped t h = cc
can_transition_to-Step cancelled t h = cc
can_transition_to-Step (undeclared n) t h = cc

Step-allowed : {s t : Status} → Step s t → can_transition_to s t ≡ true
unfolding can_transition_to
Step-allowed confirm = refl
Step-allowed abandon = refl
Step-allowed ship = refl
Step-allowed revoke = refl

-- The table allows exactly the transitions of the lifecycle: pending to confirmed or cancelled,
-- and confirmed to shipped or cancelled.
pub can_transition_to_iff : (s t : Status) → (can_transition_to s t ≡ true) ↔ Step s t
can_transition_to_iff s t = (can_transition_to-Step s t, Step-allowed)

-- Every name is read back as its state, for every declared state.
pub parse_status-string :
    (s : Status)
    → (s ≡ unspecified) ⊎ (status_valid s ≡ true)
    → parse_status (status_string s) ≡ ok s
unfolding parse_status status_string status_valid text_eq
parse_status-string unspecified h = refl
parse_status-string pending h = refl
parse_status-string confirmed h = refl
parse_status-string shipped h = refl
parse_status-string cancelled h = refl
parse_status-string (undeclared n) h = absurd (ground arith)
