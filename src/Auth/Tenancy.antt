-- ===== src/Auth/Tenancy.antt =====
-- The tenant of a caller comes from the verified token.
use boilerplate_go_grpc_micr.Common.{
  ◌≡◌, refl, inl, inr, false, Option, none, some, List, Bool-cases, [], ◌∷◌, contrary,
}
use boilerplate_go_grpc_micr.Common.Text.{Text, is_empty, codes}
use boilerplate_go_grpc_micr.Auth.{
  Principal, Context, tenant_from, Rule, Policy, rule_of, Strings, bearer_token, admitted,
  authorize,
}
use boilerplate_go_grpc_micr.Auth.Claims.{
  Value, str, texts, array, object, other, Claims, claim_at, as_text, Mapping, string_claim,
  string_of, principal_with, principal_from, verify_claims, oidc_verify,
}
use boilerplate_go_grpc_micr.Auth.Granting.{authorize_iff}

full_of : {t : Text} → t ≡ [] → is_empty t ≡ false → ⊥
unfolding is_empty
full_of e h = let no = rw e at h in cc

module _ ⦃s : Strings⦄ where
  -- What the principal owes to the claims.
  abbrev pub IsClaimed : Mapping → Claims → Principal → Type 0
  IsClaimed m claims p =
      (p.subject ≡ as_text (claim_at (codes "sub") claims))
      × (is_empty p.subject ≡ false)
      × (string_claim claims m.tenant_claim ≡ some p.tenant_id)
      × (is_empty p.tenant_id ≡ false)

  trimmed_nonempty : (t : Text) → is_empty (s.trim_space t) ≡ false → is_empty t ≡ false
  unfolding is_empty
  trimmed_nonempty [] h = absurd (full_of s.trim_space-nil h)
  trimmed_nonempty (c ∷ t) h = refl

  string_of_nonempty : (v : Option Value) (t : Text) → string_of v ≡ some t → is_empty t ≡ false
  unfolding string_of
  string_of_nonempty none t h = cc
  string_of_nonempty (some (texts _)) t h = cc
  string_of_nonempty (some (array _)) t h = cc
  string_of_nonempty (some (object _)) t h = cc
  string_of_nonempty (some other) t h = cc
  string_of_nonempty (some (str u)) t h = elim (Bool-cases (is_empty (s.trim_space u))) [
    | inl e ↦ let no = rw e at h in absurd cc
    | inr e ↦ let same = rw e at h in let one : u ≡ t = cc in rw (← one) (trimmed_nonempty u e)
  ]

  principal_with-IsClaimed :
      (m : Mapping) (claims : Claims) (o : Option Text) (p : Principal)
      → let sub = as_text (claim_at (codes "sub") claims) in
        string_claim claims m.tenant_claim ≡ o
        → is_empty sub ≡ false
        → principal_with m claims sub o ≡ some p
        → IsClaimed m claims p
  unfolding principal_with string_claim
  principal_with-IsClaimed m claims none p e full h = absurd cc
  principal_with-IsClaimed m claims (some t) p e full h =
      let sub : p.subject ≡ as_text (claim_at (codes "sub") claims) = cc in
      let tenant : p.tenant_id ≡ t = cc in
      (sub, rw (sub) full, rw (tenant) e, rw (tenant) (string_of_nonempty _ t e))

  principal_from-IsClaimed :
      (m : Mapping) (claims : Claims) (p : Principal)
      → principal_from m claims ≡ some p
      → IsClaimed m claims p
  unfolding principal_from
  principal_from-IsClaimed m claims p h =
      let sub = as_text (claim_at (codes "sub") claims) in
      elim (Bool-cases (is_empty sub)) [
        | inl e ↦ let no = rw e at h in absurd cc
        | inr e ↦
            principal_with-IsClaimed m claims (string_claim claims m.tenant_claim) p refl e
              (rw e at h)
      ]

  verify_claims-IsClaimed :
      (m : Mapping) (o : Option Claims) (p : Principal)
      → verify_claims m o ≡ some p
      → (claims : Claims) × (o ≡ some claims) × IsClaimed m claims p
  unfolding verify_claims
  verify_claims-IsClaimed m none p h = absurd cc
  verify_claims-IsClaimed m (some claims) p h =
      (claims, refl, principal_from-IsClaimed m claims p h)

  -- A credential that the verifier takes for a principal is a token that the parser accepts, and
  -- its claims name the subject and the tenant, neither of which is empty.
  oidc_verify-IsClaimed :
      (parse : Text → Option Claims) (m : Mapping) (raw : Text) (p : Principal)
      → oidc_verify parse m raw ≡ some p
      → (claims : Claims) × (parse raw ≡ some claims) × IsClaimed m claims p
  unfolding oidc_verify
  oidc_verify-IsClaimed parse m raw p h = elim (Bool-cases (is_empty (s.trim_space raw))) [
    | inl e ↦ let no = rw e at h in absurd cc
    | inr e ↦ verify_claims-IsClaimed m (parse raw) p (rw e at h)
  ]

  tenant_from-some :
      (p : Principal) (ctx : Context)
      → ctx ≡ some p
      → is_empty p.tenant_id ≡ false
      → tenant_from ctx ≡ some p.tenant_id
  unfolding tenant_from
  tenant_from-some p ctx e full = rw (e, full)

  -- If a call is admitted to a method whose rule is not public, with tokens checked by the OIDC
  -- verifier, then its credential is a token that the parser accepts, the handler finds a tenant,
  -- which is the one that the configured claim of that token names, and it is not empty.
  pub authorize-tenant :
      (parse : Text → Option Claims) (m : Mapping) (policy : Policy) (header : List Text)
      (method : Text) (ctx ctx' : Context) (rule : Rule)
      → rule_of policy method ≡ some rule
      → rule.is_public ≡ false
      → authorize (oidc_verify parse m) policy header method ctx ≡ admitted ctx'
      → (claims : Claims) × (tenant : Text) × (parse (bearer_token header) ≡ some claims)
        × (string_claim claims m.tenant_claim ≡ some tenant)
        × (tenant_from ctx' ≡ some tenant)
        × (is_empty tenant ≡ false)
  authorize-tenant parse m policy header method ctx ctx' rule e closed h =
      let (r, found, how) =
        (authorize_iff (oidc_verify parse m) policy header method ctx ctx').0 h in
      let same : rule ≡ r = cc in
      elim how [
        | inl (free, _) ↦ absurd (contrary (rw (same) free) closed)
        | inr (_, (p, proved, c, _)) ↦
            let (claims, parsed, (sub, _, tenant, full)) =
              oidc_verify-IsClaimed parse m (bearer_token header) p proved in
            (claims, p.tenant_id, parsed, tenant, tenant_from-some p ctx' c full, full)
      ]
