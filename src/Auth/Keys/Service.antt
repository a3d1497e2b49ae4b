-- ===== src/Auth/Keys/Service.antt =====
-- Which key the cache serves: through an outage the ones it has, otherwise those of a document that
-- is recent.
use boilerplate_go_grpc_micr.Common.{
  ℕ, suc, ◌≡◌, refl, ap, sym, ◌∙◌, ◌⊎◌, inl, inr, Bool, true, false, Option, none, some, List, [],
  ◌∷◌, Bool-cases, Option-cases, ◌≢◌, if◌then◌else◌,
}
use boilerplate_go_grpc_micr.Common.Text.{Text}
use boilerplate_go_grpc_micr.Auth.Jwks.{Jwk, Crypto, ParsedKey, KeySet, key_at, usable_keys}
use boilerplate_go_grpc_micr.Auth.Keys.{
  Cache, Fetched, Refresh, refreshed, store_keys, fetch_keys, read_keys, is_limited, is_fresh,
  refresh, key_after, key_first, key_for, limited, limited_cold,
}

module _ ⦃k : Crypto⦄ where
  -- A call is served by its first lookup, or by the lookup behind a refresh.
  abbrev pub ByLookup : Text → ℕ → ℕ → Fetched → Cache → Type 0
  ByLookup kid now after answer c =
      (p : ParsedKey) × (key_for kid now after answer c ≡ (some p, c))
      × (key_at kid c.keys ≡ some p)
      × (is_fresh now c ≡ true)

  abbrev pub ByRefresh : Text → ℕ → ℕ → Fetched → Cache → Type 0
  ByRefresh kid now after answer c =
      (key_for kid now after answer c ≡ key_after kid (refresh now after answer c))
      × ((key_at kid c.keys ≡ none) ⊎ (is_fresh now c ≡ false))

  pub key_for-cases :
      (kid : Text) (now after : ℕ) (answer : Fetched) (c : Cache)
      → ByLookup kid now after answer c ⊎ ByRefresh kid now after answer c
  unfolding key_for key_first
  key_for-cases kid now after answer c = elim (Option-cases (key_at kid c.keys)) [
    | inl e ↦ inr (rw e, inl e)
    | inr (p, e) ↦ elim (Bool-cases (is_fresh now c)) [
      | inl f ↦ inl (p, rw (e, key_first, f), e, f)
      | inr f ↦ inr (rw (e, key_first, f), inr f)
    ]
  ]

  -- What a refresh leaves: the keys as they were, or those of a document that has some.
  abbrev pub RefreshKeys : Fetched → Cache → Refresh × Cache → Type 0
  RefreshKeys answer c (r, c') =
      ((r ≢ refreshed) × (c'.keys ≡ c.keys))
      ⊎ ((r ≡ refreshed) × ((js : List Jwk) × (answer ≡ some js) × (c'.keys ≡ usable_keys js [])))

  store_keys-RefreshKeys :
      (js : List Jwk) (c d : Cache) (after : ℕ) (keys : KeySet)
      → usable_keys js [] ≡ keys
      → d.keys ≡ c.keys
      → RefreshKeys (some js) c (store_keys d after keys)
  unfolding store_keys
  store_keys-RefreshKeys js c d after [] e same = inl ((λ h. cc), same)
  store_keys-RefreshKeys js c d after (x ∷ keys) e same = inr (refl, (js, refl, sym e))

  fetch_keys-RefreshKeys :
      (c d : Cache) (after : ℕ) (answer : Fetched)
      → d.keys ≡ c.keys
      → RefreshKeys answer c (fetch_keys d after answer)
  unfolding fetch_keys read_keys
  fetch_keys-RefreshKeys c d after none same = inl ((λ h. cc), same)
  fetch_keys-RefreshKeys c d after (some js) same =
      store_keys-RefreshKeys js c (record d { requests = suc d.requests }) after (usable_keys js [])
        refl same

  limited_keys :
      (b : Bool) (answer : Fetched) (c : Cache)
      → RefreshKeys answer c (if b then limited else limited_cold, c)
  limited_keys true answer c = inl ((λ h. cc), refl)
  limited_keys false answer c = inl ((λ h. cc), refl)

  pub refresh-RefreshKeys :
      (now after : ℕ) (answer : Fetched) (c : Cache)
      → RefreshKeys answer c (refresh now after answer c)
  unfolding refresh
  refresh-RefreshKeys now after answer c = elim (Bool-cases (is_limited now c)) [
    | inl b ↦ rw b (limited_keys c.warm answer c)
    | inr b ↦ rw b (fetch_keys-RefreshKeys c _ after answer refl)
  ]

  -- Where a key comes from. The cache has it, and it is young enough or no refresh succeeded; or
  -- this call fetched a document, and it has it.
  abbrev pub IsServed : Text → ℕ → ℕ → Fetched → Cache → ParsedKey → Type 0
  IsServed kid now after answer c p =
      ((key_at kid c.keys ≡ some p)
        × ((is_fresh now c ≡ true) ⊎ ((refresh now after answer c).0 ≢ refreshed)))
      ⊎ ((js : List Jwk) × (answer ≡ some js) × (key_at kid (usable_keys js []) ≡ some p))

  after-IsServed :
      (kid : Text) (now after : ℕ) (answer : Fetched) (c : Cache) (p : ParsedKey)
      (m : Refresh × Cache)
      → refresh now after answer c ≡ m
      → RefreshKeys answer c m
      → (key_after kid m).0 ≡ some p
      → IsServed kid now after answer c p
  unfolding key_after
  after-IsServed kid now after answer c p (r, c') e (inl (quiet, same)) h =
      inl (rw (← same) h, inr (λ done. quiet (ap (λ (x : Refresh × Cache). x.0) (sym e) ∙ done)))
  after-IsServed kid now after answer c p (r, c') e (inr (_, (js, a, fresh))) h =
      inr (js, a, rw (← fresh) h)

  -- Whatever key a call is served, the cache has it, and it is young enough or no refresh
  -- succeeded; or this call fetched a document that has it.
  pub key_for-IsServed :
      (kid : Text) (now after : ℕ) (answer : Fetched) (c : Cache) (p : ParsedKey)
      → (key_for kid now after answer c).0 ≡ some p
      → IsServed kid now after answer c p
  key_for-IsServed kid now after answer c p h = elim (key_for-cases kid now after answer c) [
    | inl (q, e, found, fresh) ↦
        let same : some q ≡ some p = ap (λ (x : Option ParsedKey × Cache). x.0) (sym e) ∙ h in
        inl (found ∙ same, inl fresh)
    | inr (e, _) ↦
        after-IsServed kid now after answer c p (refresh now after answer c) refl
          (refresh-RefreshKeys now after answer c)
          (ap (λ (x : Option ParsedKey × Cache). x.0) (sym e) ∙ h)
  ]

  -- A refresh that brings nothing keeps the keys.
  refresh-outage : (now after : ℕ) (c : Cache) → (refresh now after none c).1.keys ≡ c.keys
  unfolding refresh fetch_keys read_keys
  refresh-outage now after c = elim (Bool-cases (is_limited now c)) [ inl b ↦ rw b | inr b ↦ rw b ]

  -- While no document can be fetched, a call is answered with exactly the key that the cache has
  -- under the id, however old, and the cache keeps its keys.
  pub key_for-outage :
      (kid : Text) (now after : ℕ) (c : Cache)
      → ((key_for kid now after none c).0 ≡ key_at kid c.keys)
        × ((key_for kid now after none c).1.keys ≡ c.keys)
  unfolding key_after
  key_for-outage kid now after c = elim (key_for-cases kid now after none c) [
    | inl (q, e, found, _) ↦ (rw e (sym found), rw e)
    | inr (e, _) ↦ let same = refresh-outage now after c in (rw e (ap (key_at kid) same), rw e same)
  ]
