-- ===== src/Auth/Coverage.antt =====
-- internal/grpcapi/policy.go: the rules of this service, and what an accepted policy covers.
use boilerplate_go_grpc_micr.Common.{
  ◌≡◌, refl, sym, ap, ◌∙◌, ◌⊎◌, inl, inr, ◌↔◌, Bool, true, false, ◌||◌, Option, none, some, List,
  [], ◌∷◌, map, All, keep, Bool-cases, Option-cases, keep-not_nil, All-mono, All-map, contrary,
}
use boilerplate_go_grpc_micr.Common.Text.{Text, codes, text_eq, text_eq→eq}
use boilerplate_go_grpc_micr.Auth.{
  Principal, Context, is_in, has_scope, Rule, Policy, rule_of, is_covered, validate_coverage,
  Strings, bearer_token, admitted, authorize,
}
use boilerplate_go_grpc_micr.Auth.Granting.{authorize_iff}

abbrev rule : Bool → List Text → Rule
rule free scopes = record { is_public = free; scopes = scopes }

-- `ScopeOrdersRead` and `ScopeOrdersWrite`
abbrev pub orders_read : Text
orders_read = codes "orders:read"

abbrev pub orders_write : Text
orders_write = codes "orders:write"

-- The methods of the service, as they are registered.
abbrev pub create_method : Text
create_method = codes "/order.v1.OrderService/CreateOrder"

abbrev pub cancel_method : Text
cancel_method = codes "/order.v1.OrderService/CancelOrder"

abbrev pub health_check : Text
health_check = codes "/grpc.health.v1.Health/Check"

abbrev pub health_watch : Text
health_watch = codes "/grpc.health.v1.Health/Watch"

-- `DefaultPolicy`
unfoldable pub default_policy : Policy
default_policy =
    (codes "/order.v1.OrderService/GetOrder", rule false (orders_read ∷ []))
    ∷ (codes "/order.v1.OrderService/ListOrders", rule false (orders_read ∷ []))
    ∷ (codes "/order.v1.OrderService/WatchOrders", rule false (orders_read ∷ []))
    ∷ (create_method, rule false (orders_write ∷ []))
    ∷ (cancel_method, rule false (orders_write ∷ []))
    ∷ (health_check, rule true [])
    ∷ (health_watch, rule true [])
    ∷ (codes "/grpc.health.v1.Health/List", rule false [])
    ∷ (codes "/grpc.reflection.v1.ServerReflection/ServerReflectionInfo", rule false [])
    ∷ (codes "/grpc.reflection.v1alpha.ServerReflection/ServerReflectionInfo", rule false [])
    ∷ []

-- The method has a rule.
abbrev pub HasRule : Policy → Text → Type 0
HasRule p method = (r : Rule) × (rule_of p method ≡ some r)

-- The method of an entry is one that some list names.
abbrev pub IsKnown : List Text → List Text → Text × Rule → Type 0
IsKnown served declared e = (is_in e.0 served || is_in e.0 declared) ≡ true

is_covered-iff-HasRule : (p : Policy) (m : Text) → (is_covered p m ≡ true) ↔ HasRule p m
is_covered-iff-HasRule p m = elim (Option-cases (rule_of p m)) [
  | inl e ↦ ((λ h. absurd (contrary h (rw (is_covered, e)))), (λ (r, f). absurd cc))
  | inr (r, e) ↦ ((λ _. (r, e)), (λ _. rw (is_covered, e)))
]

-- The check at start-up accepts a policy just when every served method has a rule, and every rule
-- is for a method that is served or declared.
validate_coverage_iff :
    (p : Policy) (served declared : List Text)
    → (validate_coverage p served declared ≡ ([], []))
      ↔ (All (HasRule p) served × All (IsKnown served declared) p)
unfolding validate_coverage
validate_coverage_iff p served declared =
    let covered = keep-not_nil (is_covered p) served in
    let known = keep-not_nil (λ m. is_in m served || is_in m declared) (map (λ e. e.0) p) in
    let entries = All-map (λ m. (is_in m served || is_in m declared) ≡ true) (λ e. e.0) p in
    (
      (λ h. (
        All-mono _ _ (λ m. (is_covered-iff-HasRule p m).0) served
            (covered.0 (ap (λ (r : List Text × List Text). r.0) h)),
        entries.0 (known.0 (ap (λ (r : List Text × List Text). r.1) h)),
      )),
      (λ (h, k).
          let c = covered.1 (All-mono _ _ (λ m. (is_covered-iff-HasRule p m).1) served h) in
          let d = known.1 (entries.1 k) in cc),
    )

some_injective : {q r : Rule} → some q ≡ some r → q ≡ r
some_injective h = cc

-- A public rule is one of the entries that are public.
public_entry :
    (p : Policy) (method : Text) (r : Rule)
    → rule_of p method ≡ some r
    → r.is_public ≡ true
    → is_in method (map (λ e. e.0) (keep (λ e. e.1.is_public) p)) ≡ true
unfolding rule_of
public_entry [] method r e free = cc
public_entry ((m, q) ∷ p) method r e free = elim (Bool-cases (text_eq m method)) [
  | inl same ↦
      let one : q ≡ r = some_injective (rw same at e) in
      let unlocked : q.is_public ≡ true = rw (one) free in rw (unlocked, same) refl
  | inr other ↦
      let rest = public_entry p method r (rw other at e) free in
      elim (Bool-cases q.is_public) [ inl e' ↦ rw (e', other) rest | inr e' ↦ rw e' rest ]
]

probes :
    (method : Text)
    → is_in method (map (λ e. e.0) (keep (λ e. e.1.is_public) default_policy)) ≡ true
    → (method ≡ health_check) ⊎ (method ≡ health_watch)
unfolding default_policy
probes method h = elim (Bool-cases (text_eq health_check method)) [
  | inl e ↦ inl (sym (text_eq→eq _ _ e))
  | inr e ↦ inr (elim (Bool-cases (text_eq health_watch method)) [
    | inl f ↦ sym (text_eq→eq _ _ f)
    | inr f ↦ let no = rw (e, f) at h in absurd cc
  ])
]

abbrev write_rule : Rule
write_rule = rule false (orders_write ∷ [])

writes_rule :
    (method : Text)
    → (method ≡ create_method) ⊎ (method ≡ cancel_method)
    → rule_of default_policy method ≡ some write_rule
unfolding rule_of default_policy text_eq
writes_rule method (inl e) = rw e
writes_rule method (inr e) = rw e

module _ ⦃s : Strings⦄ (verify : Text → Option Principal) (header : List Text)
    (ctx ctx' : Context) where
  -- Under the default policy, a call whose credential does not verify is admitted to the two
  -- probes of the health service and to nothing else.
  default_policy-anonymous :
      (method : Text)
      → verify (bearer_token header) ≡ none
      → authorize verify default_policy header method ctx ≡ admitted ctx'
      → (method ≡ health_check) ⊎ (method ≡ health_watch)
  default_policy-anonymous method anonymous h =
      let (r, found, how) = (authorize_iff verify default_policy header method ctx ctx').0 h in
      elim how [
        | inl (free, _) ↦ probes method (public_entry default_policy method r found free)
        | inr (_, (p, proved, _, _)) ↦ absurd cc
      ]

  -- Under the default policy, a call that creates or cancels an order is admitted only for a
  -- verified principal with the scope to write orders, and the handler sees that principal.
  pub default_policy-writes :
      (method : Text)
      → (method ≡ create_method) ⊎ (method ≡ cancel_method)
      → authorize verify default_policy header method ctx ≡ admitted ctx'
      → (p : Principal) × (verify (bearer_token header) ≡ some p)
        × (ctx' ≡ some p)
        × (has_scope p orders_write ≡ true)
  default_policy-writes method which h =
      let (r, found, how) = (authorize_iff verify default_policy header method ctx ctx').0 h in
      let same : r ≡ write_rule = some_injective (sym found ∙ writes_rule method which) in
      elim how [
        | inl (free, _) ↦ absurd (contrary free (rw (same)))
        | inr (_, (p, proved, c, all)) ↦
            let scopes : All (λ scope. has_scope p scope ≡ true) write_rule.scopes =
              rw (same) at all in
            (p, proved, c, scopes.0)
      ]
