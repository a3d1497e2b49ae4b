-- ===== src/Gateway.antt =====
-- internal/gateway/errors.go: the JSON body and the headers of an error over REST. The names of the
-- gRPC codes and `protojson.Marshal` of a detail are parameters.
pub mod Errors
use boilerplate_go_grpc_micr.Common.{
  ℕ, Bool, true, false, not, ◌||◌, Option, none, some, List, [], ◌∷◌, ◌++◌, map, if◌then◌else◌,
}
use boilerplate_go_grpc_micr.Common.Text.{Text, codes, text_eq}
use boilerplate_go_grpc_micr.Failures.{Code, Kind, Status, http_status_from_code}

-- `errorDetail`
pub record ErrorDetail : Type 0 where
  pub code : Text
  pub reason : Text
  pub message : Text
  pub details : List Text
  pub domain : Text

pub record Response : Type 0 where
  pub http_status : ℕ
  pub headers : List (Text × Text)
  pub body : ErrorDetail

-- A detail of a status: its `ErrorInfo`, another message, or one that is not read.
pub data Attached : Type 0 where
  info : Text → Text → Attached
  message : Text → Attached
  unread : Attached

unfoldable pub is_forwardable : Text → Bool
is_forwardable key = text_eq key (codes "retry-after") || text_eq key (codes "x-request-id")

unfoldable pub is_standard_http_header : Text → Bool
is_standard_http_header key = text_eq key (codes "retry-after")

-- `runtime.MetadataHeaderPrefix+key`, or the key.
unfoldable pub header_name : Text → Text
header_name key = if is_standard_http_header key then key else codes "Grpc-Metadata-" ++ key

-- The loops of `writeGRPCMetadata`.
unfoldable pub forwarded : List (Text × List Text) → List (Text × Text)
forwarded [] = []
forwarded ((key, values) ∷ md) =
    let rest = forwarded md in
    if is_forwardable key then map (λ v. (header_name key, v)) values ++ rest else rest

-- `writeGRPCMetadata`
unfoldable pub write_grpc_metadata : Option (List (Text × List Text)) → List (Text × Text)
write_grpc_metadata none = []
write_grpc_metadata (some md) = forwarded md

module _ (code_name : Code → Text) (marshal : Text → Option Text) where
  abbrev pub add_detail : Option Text → ErrorDetail → ErrorDetail
  add_detail none b = b
  add_detail (some raw) b = record b { details = b.details ++ raw ∷ [] }

  unfoldable pub read_detail : Attached → ErrorDetail → ErrorDetail
  read_detail (info reason domain) b = record b { reason = reason; domain = domain }
  read_detail (message m) b = add_detail (marshal m) b
  read_detail unread b = b

  -- The loop over the details.
  unfoldable pub read_details : List Attached → ErrorDetail → ErrorDetail
  read_details [] b = b
  read_details (d ∷ ds) b = read_details ds (read_detail d b)

  -- What a status carries.
  unfoldable pub attached : Status → List Attached
  attached st = elim st.error_info [
    | none ↦ map message st.details
    | some (reason, domain, _) ↦ info reason domain ∷ map message st.details
  ]

  -- `handleError`; the kinds are those of the table, in the order in which it is searched.
  unfoldable pub handle_error : List Kind → Option (List (Text × List Text)) → Status → Response
  handle_error kinds md st = record {
    http_status = http_status_from_code kinds st.code;
    headers = (codes "Content-Type", codes "application/json") ∷ write_grpc_metadata md;
    body = read_details (attached st) (record {
      code = code_name st.code;
      reason = [];
      message = st.message;
      details = [];
      domain = [];
    });
  }
