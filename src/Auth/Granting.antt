-- ===== src/Auth/Granting.antt =====
-- Whom the interceptor lets through.
use boilerplate_go_grpc_micr.Common.{
  ◌≡◌, refl, ◌⊎◌, inl, inr, ◌↔◌, true, false, not, Option, none, some, List, [], ◌∷◌, All,
  Bool-cases, Option-cases, keep, sym, ◌∙◌, ap, contrary,
}
use boilerplate_go_grpc_micr.Common.Text.{Text}
use boilerplate_go_grpc_micr.Auth.{
  Principal, Context, has_scope, Rule, Policy, rule_of, denial_of, check_rule, check, Strings,
  bearer_token, admitted, judge, verified, authorize_by, authorize, Denial,
}

-- The caller proved an identity that has every scope of the rule, and the handler sees it.
abbrev pub IsEntitled :
    ⦃s : Strings⦄ → (Text → Option Principal) → List Text → Rule → Context → Type 0
IsEntitled verify header rule ctx =
    (p : Principal) × (verify (bearer_token header) ≡ some p)
    × (ctx ≡ some p)
    × All (λ scope. has_scope p scope ≡ true) rule.scopes

-- The method has a rule, which is public, or to which the caller is entitled.
abbrev pub Admits :
    ⦃s : Strings⦄
    → (Text → Option Principal)
    → Policy
    → List Text
    → Text
    → Context
    → Context
    → Type 0
Admits verify policy header method ctx ctx' =
    (rule : Rule) × (rule_of policy method ≡ some rule)
    × (((rule.is_public ≡ true) × (ctx' ≡ ctx))
        ⊎ ((rule.is_public ≡ false) × IsEntitled verify header rule ctx'))

no_denial :
    (p : Principal) (scopes : List Text)
    → (denial_of (keep (λ want. not (has_scope p want)) scopes) ≡ none)
      ↔ All (λ scope. has_scope p scope ≡ true) scopes
no_denial p [] = ((λ _. tt), (λ _. refl))
no_denial p (s ∷ ss) = elim (Bool-cases (has_scope p s)) [
  | inl e ↦ rw e ((λ h. (refl, (no_denial p ss).0 h)), (λ h. (no_denial p ss).1 h.1))
  | inr e ↦ rw e ((λ h. absurd cc), (λ h. absurd cc))
]

judge_iff :
    (p : Principal) (d : Option Denial) (ctx : Context)
    → (judge p d ≡ admitted ctx) ↔ ((d ≡ none) × (ctx ≡ some p))
unfolding judge
judge_iff p none ctx = ((λ h. (refl, cc)), (λ h. cc))
judge_iff p (some d) ctx = ((λ h. absurd cc), (λ h. absurd cc))

check-none :
    (policy : Policy) (method : Text) (rule : Rule) (p : Principal)
    → rule_of policy method ≡ some rule
    → rule.is_public ≡ false
    → (check policy method p true ≡ none) ↔ All (λ scope. has_scope p scope ≡ true) rule.scopes
unfolding check check_rule
check-none policy method rule p e closed = rw (e, check_rule, closed) (no_denial p rule.scopes)

verified_iff :
    (policy : Policy) (method : Text) (rule : Rule) (v : Option Principal) (ctx : Context)
    → rule_of policy method ≡ some rule
    → rule.is_public ≡ false
    → (verified policy method v ≡ admitted ctx) ↔ (
        (p : Principal) × (v ≡ some p)
        × (ctx ≡ some p)
        × All (λ scope. has_scope p scope ≡ true) rule.scopes)
unfolding verified
verified_iff policy method rule none ctx e closed = ((λ h. absurd cc), (λ h. absurd cc))
verified_iff policy method rule (some p) ctx e closed =
    let granted = check-none policy method rule p e closed in
    let judged = judge_iff p (check policy method p true) ctx in
    (
      (λ h. (p, refl, (judged.0 h).1, granted.0 (judged.0 h).0)),
      (λ (q, same, c, all).
          let one : p ≡ q = cc in judged.1 (granted.1 (rw (one) all), c ∙ sym same)),
    )

-- A call is admitted just when its method has a rule, and either the rule is public, and the
-- context stays as it is, or the credential verifies as a principal with every scope of the
-- rule, and that principal is put into the context.
pub authorize_iff :
    ⦃s : Strings⦄ (verify : Text → Option Principal) (policy : Policy) (header : List Text)
    (method : Text) (ctx ctx' : Context)
    → (authorize verify policy header method ctx ≡ admitted ctx') ↔ (
        (rule : Rule) × (rule_of policy method ≡ some rule)
        × (((rule.is_public ≡ true) × (ctx' ≡ ctx))
            ⊎ ((rule.is_public ≡ false) × IsEntitled verify header rule ctx')))
unfolding authorize
authorize_iff verify policy header method ctx ctx' = elim (Option-cases (rule_of policy method)) [
  | inl e ↦ rw (authorize, e) ((λ h. absurd cc), (λ h. absurd cc))
  | inr (rule, e) ↦ by_rule rule e
]
  where
    by_rule :
        (rule : Rule)
        → rule_of policy method ≡ some rule
        → (authorize verify policy header method ctx ≡ admitted ctx')
          ↔ Admits verify policy header method ctx ctx'
    by_rule rule e = elim (Bool-cases rule.is_public) [
      | inl free ↦
          let run : authorize verify policy header method ctx ≡ admitted ctx =
            rw (authorize, e, authorize_by, free) in
          (
            (λ h. (rule, e, inl (free, cc))),
            (λ (r, f, how).
                let same : rule ≡ r = cc in
                elim how [
                  | inl (_, c) ↦ run ∙ ap admitted (sym c)
                  | inr (shut, _) ↦ absurd (contrary free (rw (same) shut))
                ]),
          )
      | inr closed ↦
          let run : authorize verify policy header method ctx
              ≡ verified policy method (verify (bearer_token header)) =
            rw (authorize, e, authorize_by, closed) in
          let judged =
            verified_iff policy method rule (verify (bearer_token header)) ctx' e closed in
          (
            (λ h. (rule, e, inr (closed, judged.0 (sym run ∙ h)))),
            (λ (r, f, how).
                let same : rule ≡ r = cc in
                elim how [
                  | inl (free_, _) ↦ absurd (contrary (rw (same) free_) closed)
                  | inr (_, (q, proved, c, all)) ↦ run ∙ judged.1 (q, proved, c, rw (same) all)
                ]),
          )
    ]
