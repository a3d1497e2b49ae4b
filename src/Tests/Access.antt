-- ===== src/Tests/Access.antt =====
-- Who is let in, on concrete credentials.
use boilerplate_go_grpc_micr.Common.{
  ◌≡◌, ◌↔◌, refl, inl, true, false, Option, none, some, List, [], ◌∷◌,
}
use boilerplate_go_grpc_micr.Common.Text.{Text, codes, is_empty, text_eq}
use boilerplate_go_grpc_micr.Auth
use boilerplate_go_grpc_micr.Auth.{
  Principal, Context, is_in, has_scope, tenant_from, Rule, Policy, rule_of, validate_coverage,
  Strings, bearer_token, admitted, authorize, dev_verify,
}
use boilerplate_go_grpc_micr.Auth.Granting.{Admits, authorize_iff}
use boilerplate_go_grpc_micr.Auth.Claims.{
  Claims, end, claim, str, claim_at, lookup_claim, Mapping, string_claim, principal_from,
  principal_with, verify_claims, oidc_verify,
}
use boilerplate_go_grpc_micr.Auth.Tenancy.{authorize-tenant}
use boilerplate_go_grpc_micr.Auth.Coverage.{
  create_method, health_check, orders_write, default_policy, default_policy-writes,
}

-- Trimming that trims nothing, and texts that hold no blank and no dot.
abbrev pub plain_strings : Strings
plain_strings = record {
  equal_fold = text_eq;
  trim_space = λ t. t;
  fields = λ t. t ∷ [];
  split_dots = λ t. t ∷ [];
  to_lower = λ t. t;
  trim_space-nil = refl;
}

abbrev anonymous : Text → Option Principal
anonymous _ = none

abbrev header : List Text
header = codes "bearer t" ∷ []

-- A token with the subject and the tenant of its bearer.
abbrev claims : Claims
claims = claim (codes "sub") (str (codes "ann")) (
    claim (codes "tenant") (str (codes "acme"))
      (claim (codes "scope") (str (codes "orders:write")) end))

abbrev parse : Text → Option Claims
parse _ = some claims

abbrev mapping : Mapping
mapping = record { tenant_claim = codes "tenant"; scope_claim = codes "scope"; service_claim = [] }

abbrev ann : Principal
ann = record {
  subject = codes "ann";
  tenant_id = codes "acme";
  scopes = codes "orders:write" ∷ [];
  is_service = false;
}

known_method :
    rule_of default_policy create_method
    ≡ some (record { is_public = false; scopes = orders_write ∷ [] })
unfolding rule_of default_policy text_eq
known_method = refl

ann_admitted :
    authorize ⦃s = plain_strings⦄
      (oidc_verify ⦃s = plain_strings⦄ parse mapping)
      default_policy
      header
      create_method
      none
    ≡ admitted (some ann)
unfolding authorize rule_of default_policy text_eq bearer_token is_empty oidc_verify principal_from
    claim_at string_claim lookup_claim Auth.Claims.scopes_claim Auth.Claims.is_service_token
    Auth.check Auth.check_rule has_scope
ann_admitted = refl

authorize_iff_example :
    (authorize ⦃s = plain_strings⦄ dev_verify default_policy header create_method none
      ≡ admitted none)
    ↔ Admits ⦃s = plain_strings⦄ dev_verify default_policy header create_method none none
authorize_iff_example =
    authorize_iff ⦃s = plain_strings⦄ dev_verify default_policy header create_method none none

authorize-tenant_example :
    (c : Claims) × (tenant : Text) × (parse (bearer_token ⦃s = plain_strings⦄ header) ≡ some c)
    × (string_claim ⦃s = plain_strings⦄ c (codes "tenant") ≡ some tenant)
    × (tenant_from (some ann) ≡ some tenant)
    × (is_empty tenant ≡ false)
authorize-tenant_example =
    authorize-tenant ⦃s = plain_strings⦄ parse mapping default_policy header create_method none
      (some ann) (record { is_public = false; scopes = orders_write ∷ [] }) known_method refl
      ann_admitted

default_policy-writes_example :
    (p : Principal) × (oidc_verify ⦃s = plain_strings⦄ parse mapping
        (bearer_token ⦃s = plain_strings⦄ header)
      ≡ some p)
    × (some ann ≡ some p)
    × (has_scope p orders_write ≡ true)
default_policy-writes_example =
    default_policy-writes ⦃s = plain_strings⦄ (oidc_verify ⦃s = plain_strings⦄ parse mapping) header
      none (some ann) create_method (inl refl) ann_admitted

probe_admitted :
    authorize ⦃s = plain_strings⦄ anonymous default_policy [] health_check none ≡ admitted none
unfolding authorize rule_of default_policy text_eq
probe_admitted = refl
