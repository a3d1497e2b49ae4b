-- ===== src/Auth/Claims.antt =====
-- internal/platform/auth/claims.go: from the claims of a verified token to a principal. The
-- errors that a client never sees are left out: `none` stands for each of them.
use boilerplate_go_grpc_micr.Common.{
  Bool, false, not, ◌&&◌, ◌||◌, Option, none, some, List, [], ◌∷◌, ◌==◌, if◌then◌else◌, length,
}
use boilerplate_go_grpc_micr.Common.Text.{Text, codes, is_empty, text_eq}
use boilerplate_go_grpc_micr.Auth.{Principal, Strings}

-- What decoded JSON holds; a number, a boolean and null are `other`.
mutual
  pub data Value : Type 0 where
    str : Text → Value
    texts : List Text → Value
    array : Values → Value
    object : Claims → Value
    other : Value

  pub data Values : Type 0 where
    nil : Values
    cons : Value → Values → Values

  pub data Claims : Type 0 where
    end : Claims
    claim : Text → Value → Claims → Claims

-- `claims[key]`
unfoldable pub claim_at : Text → Claims → Option Value
claim_at key end = none
claim_at key (claim k v more) = if text_eq k key then some v else claim_at key more

-- A type assertion to string; the empty text where it fails, as Go's zero value is.
abbrev pub as_text : Option Value → Text
as_text none = []
as_text (some (str t)) = t
as_text (some (texts _)) = []
as_text (some (array _)) = []
as_text (some (object _)) = []
as_text (some other) = []

-- The loop of `lookupClaim` along the path.
unfoldable pub follow : List Text → Value → Option Value
follow [] current = some current
follow (part ∷ parts) (object c) = elim (claim_at part c) [ none ↦ none | some v ↦ follow parts v ]
follow (part ∷ parts) (str _) = none
follow (part ∷ parts) (texts _) = none
follow (part ∷ parts) (array _) = none
follow (part ∷ parts) other = none

-- The strings of a list that are not empty.
unfoldable pub scope_items : Values → List Text
scope_items nil = []
scope_items (cons (str t) more) = if is_empty t then scope_items more else t ∷ scope_items more
scope_items (cons (texts _) more) = scope_items more
scope_items (cons (array _) more) = scope_items more
scope_items (cons (object _) more) = scope_items more
scope_items (cons other more) = scope_items more

-- The names of the claims that the options select.
pub record Mapping : Type 0 where
  pub tenant_claim : Text
  pub scope_claim : Text
  pub service_claim : Text

module _ ⦃s : Strings⦄ where
  -- What `lookupClaim` does for a path that is no claim by itself.
  unfoldable pub nested_claim : Claims → List Text → Option Value
  nested_claim claims parts = if length parts == 1 then none else follow parts (object claims)

  unfoldable pub lookup_claim : Claims → Text → Option Value
  unfolding nested_claim
  lookup_claim claims path = if is_empty path then none else elim (claim_at path claims) [
    | some v ↦ some v
    | none ↦ nested_claim claims (s.split_dots path)
  ]

  unfoldable pub string_of : Option Value → Option Text
  string_of none = none
  string_of (some (str t)) = if is_empty (s.trim_space t) then none else some t
  string_of (some (texts _)) = none
  string_of (some (array _)) = none
  string_of (some (object _)) = none
  string_of (some other) = none

  -- `stringClaim`
  unfoldable pub string_claim : Claims → Text → Option Text
  unfolding string_of
  string_claim claims path = string_of (lookup_claim claims path)

  unfoldable pub scopes_of : Option Value → List Text
  scopes_of none = []
  scopes_of (some (str t)) = s.fields t
  scopes_of (some (texts ts)) = ts
  scopes_of (some (array vs)) = scope_items vs
  scopes_of (some (object _)) = []
  scopes_of (some other) = []

  -- `scopesClaim`
  unfoldable pub scopes_claim : Claims → Text → List Text
  unfolding scopes_of
  scopes_claim claims path = scopes_of (lookup_claim claims path)

  -- The test of the loop in `isServiceToken`.
  unfoldable pub names_subject : Claims → Text → Text → Bool
  names_subject claims sub key =
      let id = as_text (claim_at key claims) in not (is_empty id) && text_eq id sub

  unfoldable pub is_service_value : Option Text → Bool
  is_service_value none = false
  is_service_value (some val) = text_eq val (codes "service")

  -- `isServiceToken`
  unfoldable pub is_service_token : Claims → Text → Text → Bool
  unfolding names_subject is_service_value
  is_service_token claims sub service_claim =
      (names_subject claims sub (codes "client_id") || names_subject claims sub (codes "azp"))
      || (not (is_empty service_claim) && is_service_value (string_claim claims service_claim))

  unfoldable pub principal_with : Mapping → Claims → Text → Option Text → Option Principal
  principal_with m claims sub none = none
  principal_with m claims sub (some tenant) = some (record {
    subject = sub;
    tenant_id = tenant;
    scopes = scopes_claim claims m.scope_claim;
    is_service = is_service_token claims sub m.service_claim;
  })

  -- `principalFrom`
  unfoldable pub principal_from : Mapping → Claims → Option Principal
  unfolding principal_with
  principal_from m claims =
      let sub = as_text (claim_at (codes "sub") claims) in
      if is_empty sub
      then none
      else principal_with m claims sub (string_claim claims m.tenant_claim)

  -- `OIDCVerifier.Verify`, with the parser of tokens as a function that gives the claims of a
  -- token whose signature, issuer, audience and times it accepts.
  unfoldable pub verify_claims : Mapping → Option Claims → Option Principal
  verify_claims m none = none
  verify_claims m (some claims) = principal_from m claims

  unfoldable pub oidc_verify : (Text → Option Claims) → Mapping → Text → Option Principal
  unfolding verify_claims
  oidc_verify parse m raw =
      if is_empty (s.trim_space raw) then none else verify_claims m (parse raw)
