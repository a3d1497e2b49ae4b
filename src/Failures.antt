-- ===== src/Failures.antt =====
-- internal/platform/apperr and internal/grpcapi/errmap.go: the kinds of failure, their codes on
-- both surfaces, and what of an error reaches a client.
pub mod Tables
pub mod Redaction
pub mod Blame
use boilerplate_go_grpc_micr.Common.{
  ℕ, ◌==◌, Bool, true, false, not, ◌&&◌, ◌||◌, Option, none, some, List, [], ◌∷◌, if◌then◌else◌,
}
use boilerplate_go_grpc_micr.Common.Text.{Text, codes}
use boilerplate_go_grpc_micr.Order.Errors.{Sentinel, Err, errors_is}

-- `Kind`, a uint8: the declared constants, and every other number.
pub data Kind : Type 0 where
  unknown invalid_argument failed_precondition not_found already_exists : Kind
  permission_denied unauthenticated resource_exhausted unavailable internal : Kind
  canceled deadline_exceeded : Kind
  undeclared : ℕ → Kind

-- `codes.Code`, by number.
abbrev pub Code : Type 0
Code = ℕ

pub record Info : Type 0 where
  pub code : Code
  pub status : ℕ
  pub name : Text

abbrev info : Code → ℕ → Text → Option Info
info c s n = some (record { code = c; status = s; name = n })

-- `kindInfo`
unfoldable pub kind_info : Kind → Option Info
kind_info Kind.unknown = info 13 500 (codes "UNKNOWN")
kind_info Kind.invalid_argument = info 3 400 (codes "INVALID_ARGUMENT")
kind_info Kind.failed_precondition = info 9 400 (codes "FAILED_PRECONDITION")
kind_info Kind.not_found = info 5 404 (codes "NOT_FOUND")
kind_info Kind.already_exists = info 6 409 (codes "ALREADY_EXISTS")
kind_info Kind.permission_denied = info 7 403 (codes "PERMISSION_DENIED")
kind_info Kind.unauthenticated = info 16 401 (codes "UNAUTHENTICATED")
kind_info Kind.resource_exhausted = info 8 429 (codes "RESOURCE_EXHAUSTED")
kind_info Kind.unavailable = info 14 503 (codes "UNAVAILABLE")
kind_info Kind.internal = info 13 500 (codes "INTERNAL")
kind_info Kind.canceled = info 1 499 (codes "CANCELED")
kind_info Kind.deadline_exceeded = info 4 504 (codes "DEADLINE_EXCEEDED")
kind_info (Kind.undeclared _) = none

unfoldable pub grpc_code : Kind → Code
grpc_code k = elim (kind_info k) [ none ↦ 13 | some i ↦ i.code ]

unfoldable pub http_status : Kind → ℕ
http_status k = elim (kind_info k) [ none ↦ 500 | some i ↦ i.status ]

-- The `switch` for codes that no kind has.
abbrev fallback_status : Code → ℕ
fallback_status c = if c == 0 then 200 else if c == 12 then 501 else 500

-- `HTTPStatusFromCode`, over the kinds of the table in the order in which `range` yields them.
unfoldable pub http_status_from_code : List Kind → Code → ℕ
http_status_from_code [] code = fallback_status code
http_status_from_code (k ∷ ks) code =
    let rest = http_status_from_code ks code in
    elim (kind_info k) [ none ↦ rest | some i ↦ if i.code == code then i.status else rest ]

unfoldable pub redacts : Kind → Bool
redacts Kind.internal = true
redacts Kind.unknown = true
redacts _ = false

-- `Error`, less the wrapped error.
pub record AppError : Type 0 where
  pub kind : Kind
  pub reason : Text
  pub message : Text
  pub metadata : List (Text × Text)
  pub details : List Text  -- each a marshalled message

-- One error of a chain, as `errors.Is` and `errors.As` tell it apart.
pub data Link : Type 0 where
  app : AppError → Link
  context_canceled context_deadline : Link
  domain : Sentinel → Link
  opaque : Link

-- An error: its chain, the outermost first, and its text.
pub record Failure : Type 0 where
  pub chain : List Link
  pub text : Text

-- `From`
unfoldable pub from_chain : List Link → Option AppError
from_chain [] = none
from_chain (app e ∷ rest) = some e
from_chain (context_canceled ∷ rest) = from_chain rest
from_chain (context_deadline ∷ rest) = from_chain rest
from_chain (domain s ∷ rest) = from_chain rest
from_chain (opaque ∷ rest) = from_chain rest

abbrev pub is_canceled : List Link → Bool
is_canceled [] = false
is_canceled (context_canceled ∷ rest) = true
is_canceled (_ ∷ rest) = is_canceled rest

abbrev pub is_deadline : List Link → Bool
is_deadline [] = false
is_deadline (context_deadline ∷ rest) = true
is_deadline (_ ∷ rest) = is_deadline rest

abbrev wrap : Kind → Text → Text → AppError
wrap k reason message = record {
  kind = k;
  reason = reason;
  message = message;
  metadata = [];
  details = [];
}

-- `classify`
unfoldable pub classify : Failure → AppError
classify f =
    if is_canceled f.chain
    then wrap Kind.canceled (codes "CANCELED") (codes "the request was cancelled by the caller")
    else if is_deadline f.chain
    then wrap Kind.deadline_exceeded (codes "DEADLINE_EXCEEDED")
        (codes "the request deadline elapsed")
    else wrap Kind.internal (codes "INTERNAL") f.text

unfoldable pub client_message : AppError → Text
client_message e = if redacts e.kind then codes "internal error" else e.message

-- What a client sees: the status and its `ErrorInfo`, which is absent if it cannot be attached.
pub record Status : Type 0 where
  pub code : Code
  pub message : Text
  pub error_info : Option (Text × Text × List (Text × Text))
  pub details : List Text

-- `ToStatus` of an error; `attaches` tells whether the details can be marshalled.
unfoldable pub status_of : Bool → Text → AppError → Status
status_of attaches where_from e =
    if attaches
    then record {
      code = grpc_code e.kind;
      message = client_message e;
      error_info = some (e.reason, where_from, if redacts e.kind then [] else e.metadata);
      details = e.details;
    }
    else record {
      code = grpc_code e.kind;
      message = client_message e;
      error_info = none;
      details = [];
    }

unfoldable pub to_status : Bool → Text → Option Failure → Status
to_status attaches where_from none = record {
  code = 0;
  message = [];
  error_info = none;
  details = [];
}
to_status attaches where_from (some f) = elim (from_chain f.chain) [
  | some e ↦ status_of attaches where_from e
  | none ↦ status_of attaches where_from (classify f)
]

-- `DomainErrorKind`, of an error that is not nil.
unfoldable pub domain_error_kind : Err → Kind
domain_error_kind e =
    if errors_is e Sentinel.not_found
    then Kind.not_found
    else if errors_is e Sentinel.duplicate
    then Kind.already_exists
    else if errors_is e Sentinel.invalid_transition
    then Kind.failed_precondition
    else if errors_is e Sentinel.no_items
        || (errors_is e Sentinel.invalid_item
            || (errors_is e Sentinel.invalid_page_token
                || (errors_is e Sentinel.currency_mismatch
                    || (errors_is e Sentinel.invalid_currency_code
                        || (errors_is e Sentinel.invalid_money
                            || errors_is e Sentinel.money_overflow)))))
    then Kind.invalid_argument
    else Kind.internal

-- The reasons of `reasonFor`, `ORDER_NOT_FOUND` first.
pub data Reason : Type 0 where
  order_not_found order_already_exists order_invalid_status_transition : Reason
  order_has_no_items order_item_invalid page_token_invalid : Reason
  currency_mismatch money_invalid tenant_missing internal : Reason

unfoldable pub reason_for : Err → Reason
reason_for e =
    if errors_is e Sentinel.not_found
    then Reason.order_not_found
    else if errors_is e Sentinel.duplicate
    then Reason.order_already_exists
    else if errors_is e Sentinel.invalid_transition
    then Reason.order_invalid_status_transition
    else if errors_is e Sentinel.no_items
    then Reason.order_has_no_items
    else if errors_is e Sentinel.invalid_item
    then Reason.order_item_invalid
    else if errors_is e Sentinel.invalid_page_token
    then Reason.page_token_invalid
    else if errors_is e Sentinel.currency_mismatch
    then Reason.currency_mismatch
    else if errors_is e Sentinel.invalid_currency_code
        || (errors_is e Sentinel.invalid_money || errors_is e Sentinel.money_overflow)
    then Reason.money_invalid
    else if errors_is e Sentinel.missing_tenant
    then Reason.tenant_missing
    else Reason.internal
