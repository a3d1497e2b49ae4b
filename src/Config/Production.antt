-- ===== src/Config/Production.antt =====
-- What a configuration that is accepted cannot be.
use boilerplate_go_grpc_micr.Common.{
  ◌≡◌, refl, sym, inl, inr, Bool, true, false, not, ◌&&◌, [], ◌∷◌, Bool-cases, contrary,
}
use boilerplate_go_grpc_micr.Common.Text.{Text, codes, is_empty, text_eq, text_eq→eq, eq→text_eq}
use boilerplate_go_grpc_micr.Auth.{Strings}
use boilerplate_go_grpc_micr.Config.{
  Config, server, is_server, one_of, validate_modes, validate_retention, validate_oidc,
  validate_limits, validate_nats, validate_rest, validate_config, append-nil_parts, when-nil, oidc,
  new_verifier,
}

not-false : (b : Bool) → not b ≡ false → b ≡ true
not-false true h = refl
not-false false h = cc

-- A mode that is known and is not the development one.
oidc_mode :
    (m : Text)
    → one_of m (codes "dev" ∷ codes "oidc" ∷ []) ≡ true
    → text_eq m (codes "dev") ≡ false
    → m ≡ codes "oidc"
oidc_mode m h k = elim (Bool-cases (text_eq (codes "dev") m)) [
  | inl e ↦ absurd (contrary (eq→text_eq m (codes "dev") (sym (text_eq→eq _ _ e))) k)
  | inr e ↦ elim (Bool-cases (text_eq (codes "oidc") m)) [
    | inl f ↦ sym (text_eq→eq _ _ f)
    | inr f ↦ let no_mode = rw (e, f) at h in absurd cc
  ]
]

module _ ⦃s : Strings⦄ where
  -- The parts that say nothing of an accepted configuration.
  pub record IsAccepted (c : Config) : Type 0 where
    pub modes : validate_modes c ≡ []
    pub retention : validate_retention c ≡ []
    pub oidc_settings : validate_oidc c ≡ []
    pub limits : validate_limits c ≡ []
    pub nats : validate_nats c ≡ []
    pub rest : validate_rest c ≡ []

  pub validate_config-IsAccepted : (c : Config) → validate_config c ≡ [] → IsAccepted c
  unfolding validate_config
  validate_config-IsAccepted c h =
      let (a, h1) = append-nil_parts _ _ h in
      let (b, h2) = append-nil_parts _ _ h1 in
      let (d, h3) = append-nil_parts _ _ h2 in
      let (e, h4) = append-nil_parts _ _ h3 in
      let (f, g) = append-nil_parts _ _ h4 in
      record { modes = a; retention = b; oidc_settings = d; limits = e; nats = f; rest = g }

  -- The checks of the modes, one by one.
  record Modes (c : Config) : Type 0 where
    known_mode : one_of c.auth_mode (codes "dev" ∷ codes "oidc" ∷ []) ≡ true
    no_dev :
        (is_server c.role
          && (text_eq c.app_env (codes "production") && text_eq c.auth_mode (codes "dev")))
        ≡ false
    no_cleartext : (text_eq c.app_env (codes "production") && c.oidc.allow_insecure_issuer) ≡ false

  IsAccepted-Modes : (c : Config) → validate_modes c ≡ [] → Modes c
  unfolding validate_modes
  IsAccepted-Modes c h =
      let (_, h1) = append-nil_parts _ _ h in
      let (_, h2) = append-nil_parts _ _ h1 in
      let (a, h3) = append-nil_parts _ _ h2 in
      let (b, h4) = append-nil_parts _ _ h3 in
      let (d, _) = append-nil_parts _ _ h4 in
      record {
        known_mode = not-false _ (when-nil _ _ a);
        no_dev = when-nil _ _ b;
        no_cleartext = when-nil _ _ d;
      }

  validate_oidc-given :
      (c : Config)
      → text_eq c.auth_mode (codes "oidc") ≡ true
      → validate_oidc c ≡ []
      → (is_empty c.oidc.issuer_url ≡ false)
        × (is_empty c.oidc.audience ≡ false)
        × (is_empty (s.trim_space c.oidc.tenant_claim) ≡ false)
  unfolding validate_oidc
  validate_oidc-given c mode h =
      let (a, rest) = append-nil_parts _ _ (rw mode at h) in
      let (b, d) = append-nil_parts _ _ rest in (when-nil _ _ a, when-nil _ _ b, when-nil _ _ d)

  new_verifier-oidc : (c : Config) → c.auth_mode ≡ codes "oidc" → new_verifier c ≡ oidc
  unfolding new_verifier text_eq
  new_verifier-oidc c e = rw e

  -- What the server of an accepted production configuration verifies tokens with.
  abbrev pub IsGuarded : Config → Type 0
  IsGuarded c =
      (new_verifier c ≡ oidc)
      × (is_empty c.oidc.issuer_url ≡ false)
      × (is_empty c.oidc.audience ≡ false)
      × (is_empty (s.trim_space c.oidc.tenant_claim) ≡ false)
      × (c.oidc.allow_insecure_issuer ≡ false)

  -- A server that is configured for production, and whose configuration is accepted, verifies
  -- tokens by OIDC, never by the development verifier: its issuer, audience and claim for the tenant
  -- are not empty, and the flag that allows an insecure issuer is off.
  pub validate_config-IsGuarded :
      (c : Config)
      → validate_config c ≡ []
      → c.role ≡ server
      → c.app_env ≡ codes "production"
      → IsGuarded c
  validate_config-IsGuarded c h role env =
      let v = validate_config-IsAccepted c h in
      let m = IsAccepted-Modes c v.modes in
      let production = eq→text_eq c.app_env (codes "production") env in
      let no_dev = rw (role, production) at m.no_dev in
      let mode = oidc_mode c.auth_mode m.known_mode no_dev in
      let (issuer, audience, tenant) =
        validate_oidc-given c (eq→text_eq c.auth_mode (codes "oidc") mode) v.oidc_settings in
      (new_verifier-oidc c mode, issuer, audience, tenant, rw production at m.no_cleartext)
