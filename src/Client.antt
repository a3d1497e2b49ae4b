-- ===== src/Client.antt =====
-- internal/platform/client/errors.go: the failures of other services that this one calls.
pub mod Borders
pub mod Retries
use boilerplate_go_grpc_micr.Common.{
  ℕ, Bool, true, false, ◌||◌, ◌==◌, Option, none, some, List, [], ◌∷◌, ◌++◌, if◌then◌else◌,
}
use boilerplate_go_grpc_micr.Common.Int.{ℤ, pos}
use boilerplate_go_grpc_micr.Common.Text.{Text, codes, is_empty}
use boilerplate_go_grpc_micr.Failures.{Code, Kind, AppError, app, opaque, Failure}
use boilerplate_go_grpc_micr.Interceptors.{Raised}

-- `Error`, whose cause is a plain text.
pub record Upstream : Type 0 where
  pub target : Text
  pub method : Text
  pub code : Code
  pub reason : Text
  pub domain : Text
  pub message : Text
  pub retry_after : ℤ
  pub cause : Text

-- What a detail of a status holds; a detail of any other type is skipped.
pub data Detail : Type 0 where
  error_info : Text → Text → Detail
  retry_info : Option ℤ → Detail
  unread : Detail

pub record Answered : Type 0 where
  pub code : Code
  pub message : Text
  pub details : List Detail

-- The loop over the details.
unfoldable pub read_details : List Detail → Upstream → Upstream
read_details [] u = u
read_details (error_info reason domain ∷ ds) u =
    read_details ds (if is_empty u.reason then record u { reason = reason; domain = domain } else u)
read_details (retry_info none ∷ ds) u = read_details ds u
read_details (retry_info (some delay) ∷ ds) u = read_details ds (record u { retry_after = delay })
read_details (unread ∷ ds) u = read_details ds u

-- What a call returns: nothing, an error without a status, or one with a status.
pub data Called : Type 0 where
  succeeded : Called
  statusless : Failure → Called
  answered : Answered → Called

-- What `newUpstreamError` makes of it.
pub data Wrapped : Type 0 where
  nothing : Wrapped
  as_it_came : Failure → Wrapped
  upstream : Upstream → Wrapped

-- `Kind`: Unavailable, DeadlineExceeded, Canceled and ResourceExhausted, or another code.
unfoldable pub is_outage : Code → Bool
is_outage c = c == 14 || (c == 4 || (c == 1 || c == 8))

unfoldable pub kind : Upstream → Kind
kind u = if is_outage u.code then Kind.unavailable else Kind.internal

module _ (name_of : Code → Text) where  -- `Code.String`
  unfoldable pub new_upstream_error : Text → Text → Called → Wrapped
  new_upstream_error target method succeeded = nothing
  new_upstream_error target method (statusless f) = as_it_came f
  new_upstream_error target method (answered st) = upstream (
      read_details st.details (record {
        target = target;
        method = method;
        code = st.code;
        reason = [];
        domain = [];
        message = st.message;
        retry_after = pos 0;
        cause = name_of st.code ++ codes ": " ++ st.message;
      }))

  -- `Error`
  unfoldable pub error_text : Upstream → Text
  error_text u =
      let front =
        codes "upstream "
        ++ u.target
        ++ codes ": "
        ++ u.method
        ++ codes " failed: "
        ++ name_of u.code in
      if is_empty u.reason then front else front ++ codes " (" ++ u.reason ++ codes ")"

  -- `AsAppError`
  unfoldable pub as_app_error : Upstream → AppError
  as_app_error u = record {
    kind = kind u;
    reason = if is_outage u.code then codes "UPSTREAM_UNAVAILABLE" else codes "UPSTREAM_FAILED";
    message =
        if is_outage u.code
        then codes "an upstream service is unavailable"
        else codes "upstream "
          ++ u.target
          ++ codes " returned "
          ++ name_of u.code
          ++ codes " from "
          ++ u.method;
    metadata =
        (codes "upstream", u.target)
        ∷ (codes "upstream_method", u.method)
        ∷ (codes "upstream_code", name_of u.code)
        ∷ [];
    details = [];
  }

  -- A handler returns the error itself: neither it nor its cause is a status.
  unfoldable pub returned : Upstream → Raised
  returned u = record {
    failure = record { chain = opaque ∷ opaque ∷ []; text = error_text u };
    carried = none;
  }

  -- A handler returns the error of the application, around the error and its cause.
  unfoldable pub translated : Upstream → Raised
  translated u =
      let e = as_app_error u in
      record {
        failure = record {
          chain = app e ∷ opaque ∷ opaque ∷ [];
          text = e.reason ++ codes ": " ++ e.message ++ codes ": " ++ error_text u;
        };
        carried = none;
      }
