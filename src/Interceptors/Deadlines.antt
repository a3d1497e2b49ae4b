-- ===== src/Interceptors/Deadlines.antt =====
-- The lifetime of a call under an accepted configuration.
use boilerplate_go_grpc_micr.Common.{
  ◌≡◌, refl, true, false, Option, none, some, [], Bool-cases, inl, inr, arith, ◌⊎◌,
}
use boilerplate_go_grpc_micr.Common.Int.{ℤ, ltb_ℤ}
use boilerplate_go_grpc_micr.Auth.{Strings}
use boilerplate_go_grpc_micr.Config.{
  Problem, Config, when, validate_rest, validate_config, append-nil_parts, when-nil,
}
use boilerplate_go_grpc_micr.Config.Production.{validate_config-IsAccepted}
use boilerplate_go_grpc_micr.Interceptors.{apply_deadline}

ltb_ℤ-irrefl : (z : ℤ) → ltb_ℤ z z ≡ false
ltb_ℤ-irrefl z = ground arith

module _ ⦃s : Strings⦄ where
  timeouts_ordered :
      (c : Config)
      → validate_rest c ≡ []
      → ltb_ℤ c.server.max_timeout c.server.default_timeout ≡ false
  unfolding validate_rest
  timeouts_ordered c h =
      let (_, h1) = append-nil_parts (when _ Problem.reserve_fraction) _ h in
      let (_, h2) = append-nil_parts (when _ Problem.upstream_default_timeout) _ h1 in
      let (_, h3) = append-nil_parts (when _ Problem.upstream_min_budget) _ h2 in
      let (_, h4) = append-nil_parts (when _ Problem.upstream_budget_order) _ h3 in
      let (_, h5) = append-nil_parts (when _ Problem.max_open_conns) _ h4 in
      let (order, _) = append-nil_parts (when _ Problem.timeout_order) _ h5 in
      when-nil _ Problem.timeout_order order

  -- What is left of the time that a call brought, if it brought a deadline.
  abbrev pub IsLifetime : Config → Option ℤ → ℤ → Type 0
  IsLifetime c given left =
      ((given ≡ none) × (left ≡ c.server.default_timeout))
      ⊎ (((given ≡ some left) × (ltb_ℤ c.server.max_timeout left ≡ false))
          ⊎ ((remaining : ℤ) × (given ≡ some remaining)
              × (ltb_ℤ c.server.max_timeout remaining ≡ true)
              × (left ≡ c.server.max_timeout)))

  -- Under an accepted configuration, no unary call has more time left behind the deadline's
  -- interceptor than the longest timeout, whether or not it brought a deadline: without one it has
  -- the default timeout, and a deadline that it brought is changed only if it is later than the
  -- longest timeout.
  pub apply_deadline-IsLifetime :
      (c : Config) (given : Option ℤ)
      → validate_config c ≡ []
      → let left = apply_deadline given c.server.default_timeout c.server.max_timeout in
        (ltb_ℤ c.server.max_timeout left ≡ false) × IsLifetime c given left
  unfolding apply_deadline
  apply_deadline-IsLifetime c none h =
      (timeouts_ordered c ((validate_config-IsAccepted c h).rest), inl (refl, refl))
  apply_deadline-IsLifetime c (some r) h = elim (Bool-cases (ltb_ℤ c.server.max_timeout r)) [
    | inl b ↦ rw b (ltb_ℤ-irrefl c.server.max_timeout, inr (inr (r, refl, b, refl)))
    | inr b ↦ rw b (b, inr (inl (refl, b)))
  ]
