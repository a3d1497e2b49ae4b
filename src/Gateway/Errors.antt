-- ===== src/Gateway/Errors.antt =====
-- What a REST client is told of an error, against what the error says.
use boilerplate_go_grpc_micr.Common.{
  ◌≡◌, ap, sym, ◌∙◌, Option, none, some, List, [], ◌∷◌, ◌++◌, map, append_assoc, append-nil, true,
}
use boilerplate_go_grpc_micr.Common.Text.{Text}
use boilerplate_go_grpc_micr.Failures.{
  Code, Kind, AppError, Failure, from_chain, status_of, to_status, client_message, grpc_code,
  http_status,
}
use boilerplate_go_grpc_micr.Failures.Tables.{IsListed, IsDeclared, http_status_from_code-kind}
use boilerplate_go_grpc_micr.Gateway.{
  ErrorDetail, add_detail, Attached, read_detail, read_details, attached, handle_error,
}

module _ (code_name : Code → Text) (marshal : Text → Option Text) where
  abbrev kept : Option Text → List Text → List Text
  kept none rest = rest
  kept (some raw) rest = raw ∷ rest

  -- The details that have a JSON form.
  abbrev pub in_json : List Text → List Text
  in_json [] = []
  in_json (m ∷ ms) = kept (marshal m) (in_json ms)

  read_messages :
      (ms : List Text) (b : ErrorDetail)
      → read_details code_name marshal (map Attached.message ms) b
        ≡ record b { details = b.details ++ in_json ms }
  unfolding read_details read_detail
  read_messages [] b =
      ap (λ (ds : List Text). record b { details = ds }) (sym (append-nil b.details))
  read_messages (m ∷ ms) b = go (read_messages ms) (marshal m)
    where
      go :
          ((b' : ErrorDetail)
            → read_details code_name marshal (map Attached.message ms) b'
              ≡ record b' { details = b'.details ++ in_json ms })
          → (r : Option Text)
          → read_details code_name marshal
              (map Attached.message ms)
              (add_detail code_name marshal r b)
            ≡ record b { details = b.details ++ kept r (in_json ms) }
      go rest none = rest b
      go rest (some raw) =
          rest (record b { details = b.details ++ raw ∷ [] })
          ∙ ap (λ (ds : List Text). record b { details = ds })
              (append_assoc b.details (raw ∷ []) (in_json ms))

  -- If an error of the application is rendered as a status with its details attached, and its kind
  -- is one that the table covers, then the REST answer has the HTTP status of its kind, the name of
  -- its gRPC code, its reason, the service's domain, the message that a gRPC client sees, and every
  -- detail that has a JSON form, in their order.
  pub handle_error-to_status :
      (kinds : List Kind) (md : Option (List (Text × List Text))) (where_from : Text) (f : Failure)
      (e : AppError)
      → from_chain f.chain ≡ some e
      → IsListed e.kind kinds
      → IsDeclared e.kind
      → ((handle_error code_name marshal kinds md (to_status true where_from (some f))).http_status
          ≡ http_status e.kind)
        × ((handle_error code_name marshal kinds md (to_status true where_from (some f))).body
            ≡ record {
              code = code_name (grpc_code e.kind);
              reason = e.reason;
              message = client_message e;
              details = in_json e.details;
              domain = where_from;
            })
  unfolding handle_error to_status status_of attached read_details read_detail
  handle_error-to_status kinds md where_from f e found listed declared =
      rw (found, to_status)
        (http_status_from_code-kind kinds e.kind listed declared, read_messages e.details _)
