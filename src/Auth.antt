-- ===== src/Auth.antt =====
-- internal/platform/auth and internal/platform/interceptor/auth.go: who calls, and what the
-- caller may do. A context is what it holds of an identity: the principal, if there is one.
pub mod Claims
pub mod Granting
pub mod Coverage
pub mod Tenancy
pub mod Jwks
pub mod Keys
use boilerplate_go_grpc_micr.Common.{
  ℕ, ◌≡◌, Bool, true, false, not, ◌||◌, Option, none, some, List, [], ◌∷◌, ltb, if◌then◌else◌,
  length, take, drop, keep, map,
}
use boilerplate_go_grpc_micr.Common.Text.{Text, codes, is_empty, text_eq}
use boilerplate_go_grpc_micr.Failures.{AppError, Kind}

pub record Principal : Type 0 where
  pub subject : Text
  pub tenant_id : Text
  pub scopes : List Text
  pub is_service : Bool

abbrev pub Context : Type 0
Context = Option Principal

abbrev pub is_in : Text → List Text → Bool
is_in want [] = false
is_in want (s ∷ ss) = text_eq s want || is_in want ss

-- `HasScope`
unfoldable pub has_scope : Principal → Text → Bool
has_scope p want = is_in want p.scopes

-- `TenantFrom`; `none` stands for a false boolean.
unfoldable pub tenant_from : Context → Option Text
tenant_from none = none
tenant_from (some p) = if is_empty p.tenant_id then none else some p.tenant_id

pub record Rule : Type 0 where
  pub is_public : Bool
  pub scopes : List Text

-- A Go map is the list of its entries.
abbrev pub Policy : Type 0
Policy = List (Text × Rule)

-- `p[method]`
unfoldable pub rule_of : Policy → Text → Option Rule
rule_of [] method = none
rule_of ((m, r) ∷ p) method = if text_eq m method then some r else rule_of p method

-- The reasons of `Check`.
pub data Denial : Type 0 where
  no_entry requires_authentication : Denial
  requires_scopes : List Text → Denial

abbrev pub denial_of : List Text → Option Denial
denial_of [] = none
denial_of (s ∷ missing) = some (requires_scopes (s ∷ missing))

unfoldable pub check_rule : Option Rule → Principal → Bool → Option Denial
check_rule none principal authenticated = some no_entry
check_rule (some rule) principal authenticated =
    if rule.is_public
    then none
    else if not authenticated
    then some requires_authentication
    else denial_of (keep (λ want. not (has_scope principal want)) rule.scopes)

-- `Check`; `none` allows the call.
unfoldable pub check : Policy → Text → Principal → Bool → Option Denial
check p method principal authenticated = check_rule (rule_of p method) principal authenticated

abbrev pub is_covered : Policy → Text → Bool
is_covered p m = elim (rule_of p m) [ none ↦ false | some _ ↦ true ]

-- The methods that `ValidateCoverage` names: served without a rule, and with a rule but unknown.
-- It is content when there are none of either.
unfoldable pub validate_coverage : Policy → List Text → List Text → List Text × List Text
validate_coverage p served declared = (
  keep (λ m. not (is_covered p m)) served,
  keep (λ m. not (is_in m served || is_in m declared)) (map (λ e. e.0) p),
)

-- `strings.ToLower`, `strings.EqualFold`, `strings.TrimSpace`, `strings.Fields` and `strings.Split`
-- at dots. What is trimmed off is white space, so nothing is left of the empty text, and no field
-- is empty.
pub record Strings : Type 0 where
  pub equal_fold : Text → Text → Bool
  pub trim_space : Text → Text
  pub fields : Text → List Text
  pub split_dots : Text → List Text
  pub to_lower : Text → Text
  pub trim_space-nil : trim_space [] ≡ []

-- The values of the `authorization` header; there are none without metadata.
unfoldable pub bearer_token : ⦃s : Strings⦄ → List Text → Text
bearer_token [] = []
bearer_token ⦃s⦄ (raw ∷ more) =
    if ltb (length raw) 7 || not (s.equal_fold (take 7 raw) (codes "bearer "))
    then []
    else s.trim_space (drop 7 raw)

-- `apperr.New`
abbrev pub new_error : Kind → Text → Text → AppError
new_error k reason message = record {
  kind = k;
  reason = reason;
  message = message;
  metadata = [];
  details = [];
}

-- What the interceptor does: it answers with an error, or calls the handler with a context.
pub data Verdict : Type 0 where
  refused : AppError → Verdict
  admitted : Context → Verdict

-- The last part of `authorize`: the policy's answer to a verified principal.
unfoldable pub judge : Principal → Option Denial → Verdict
judge principal none = admitted (some principal)
judge principal (some _) =
    refused (new_error Kind.permission_denied (codes "PERMISSION_DENIED") (codes "not authorised"))

unfoldable pub verified : Policy → Text → Option Principal → Verdict
unfolding judge
verified policy method none = refused (
    new_error Kind.unauthenticated (codes "UNAUTHENTICATED")
      (codes "invalid or missing credentials"))
verified policy method (some principal) = judge principal (check policy method principal true)

-- `authorize`, with the verifier as the function that gives the principal of a credential.
unfoldable pub authorize_by :
    ⦃s : Strings⦄
    → Option Rule
    → (Text → Option Principal)
    → Policy
    → List Text
    → Text
    → Context
    → Verdict
authorize_by none verify policy header method ctx =
    refused (new_error Kind.permission_denied (codes "NO_POLICY") (codes "not authorised"))
authorize_by (some rule) verify policy header method ctx =
    if rule.is_public then admitted ctx else verified policy method (verify (bearer_token header))

unfoldable pub authorize :
    ⦃s : Strings⦄ → (Text → Option Principal) → Policy → List Text → Text → Context → Verdict
unfolding authorize_by verified
authorize verify policy header method ctx =
    authorize_by (rule_of policy method) verify policy header method ctx

-- `DevVerifier` and `DevPrincipal`
unfoldable pub dev_verify : Text → Option Principal
dev_verify raw = some (record {
  subject = codes "dev-user";
  tenant_id = codes "dev-tenant";
  scopes = codes "orders:read" ∷ codes "orders:write" ∷ [];
  is_service = false;
})
