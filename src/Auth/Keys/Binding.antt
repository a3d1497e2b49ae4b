-- ===== src/Auth/Keys/Binding.antt =====
-- Which key a token is verified with.
use boilerplate_go_grpc_micr.Common.{
  ℕ, ◌≡◌, refl, sym, ◌⊎◌, inl, inr, true, false, not, ◌&&◌, Option, none, some, [], ◌∷◌, All,
  Bool-cases, ap, ◌∙◌, ◌++◌, take, ◌||◌, Bool,
}
use mathlib.Core.Path.{subst}
use boilerplate_go_grpc_micr.Common.Text.{Text, is_empty, text_eq, text_eq→eq, codes}
use boilerplate_go_grpc_micr.Auth.Jwks.{
  PublicKey, Crypto, ParsedKey, KeySet, key_at, usable_keys, rsa, ecdsa,
}
use boilerplate_go_grpc_micr.Auth.Jwks.Usable.{IsKey, IsUsable, usable_keys-IsKey}
use boilerplate_go_grpc_micr.Auth.Keys.{
  Cache, Fetched, Refresh, refresh, key_after, key_for, family_fits, bind_alg, key_func, has_prefix,
}
use boilerplate_go_grpc_micr.Auth.Keys.Service.{
  key_for-cases, RefreshKeys, refresh-RefreshKeys, IsServed, key_for-IsServed,
}

-- The algorithm begins with two letters.
abbrev pub Begins : Text → Text → Type 0
Begins letters alg = (rest : Text) × (alg ≡ letters ++ rest)

-- The algorithms that go with a key: of RSA by both paddings, or of elliptic curves.
abbrev pub IsFamily : PublicKey → Text → Type 0
IsFamily (rsa n e) alg = Begins (codes "RS") alg ⊎ Begins (codes "PS") alg
IsFamily (ecdsa crv x y) alg = Begins (codes "ES") alg

-- The algorithm of the token is the one that the key was published for, if one was, and it is of
-- the family of the key.
abbrev pub IsBound : Text → ParsedKey → Type 0
IsBound alg p = ((is_empty p.alg ≡ true) ⊎ (p.alg ≡ alg)) × IsFamily p.key alg

two_letters : (alg : Text) → Begins (take 2 alg) alg
two_letters [] = ([], refl)
two_letters (b ∷ []) = ([], refl)
two_letters (b ∷ c ∷ rest) = (rest, refl)

has_prefix-Begins : (letters alg : Text) → has_prefix letters alg ≡ true → Begins letters alg
has_prefix-Begins letters alg h =
    subst (λ (front : Text). Begins front alg) (text_eq→eq _ _ h) (two_letters alg)

either : (a b : Bool) → (a || b) ≡ true → (a ≡ true) ⊎ (b ≡ true)
either true b h = inl refl
either false b h = inr h

family_fits-IsFamily :
    (key : PublicKey) (alg : Text) → family_fits key alg ≡ true → IsFamily key alg
unfolding family_fits
family_fits-IsFamily (rsa n e) alg h = elim (either _ _ h) [
  | inl r ↦ inl (has_prefix-Begins (codes "RS") alg r)
  | inr r ↦ inr (has_prefix-Begins (codes "PS") alg r)
]
family_fits-IsFamily (ecdsa crv x y) alg h = has_prefix-Begins (codes "ES") alg h

some_same : {a b : PublicKey} → some a ≡ some b → a ≡ b
some_same h = cc

none-some : {a : PublicKey} → ¬ (none ≡ some a)
none-some h = cc

bind_alg-IsBound :
    (alg : Text) (o : Option ParsedKey) (key : PublicKey)
    → bind_alg alg o ≡ some key
    → (p : ParsedKey) × (o ≡ some p) × (p.key ≡ key) × IsBound alg p
unfolding bind_alg
bind_alg-IsBound alg none key h = absurd cc
bind_alg-IsBound alg (some p) key h =
    elim (Bool-cases (not (is_empty p.alg) && not (text_eq p.alg alg))) [
      | inl b ↦ let no_key = rw b at h in absurd cc
      | inr b ↦ elim (Bool-cases (family_fits p.key alg)) [
        | inl fits ↦ (
          p,
          refl,
          some_same (rw (b, fits) at h),
          (declared p b, family_fits-IsFamily p.key alg fits),
        )
        | inr unfit ↦ let no_key = rw (b, unfit) at h in absurd cc
      ]
    ]
  where
    declared :
        (p : ParsedKey)
        → (not (is_empty p.alg) && not (text_eq p.alg alg)) ≡ false
        → (is_empty p.alg ≡ true) ⊎ (p.alg ≡ alg)
    declared p b = elim (Bool-cases (is_empty p.alg)) [
      | inl e ↦ inl e
      | inr e ↦ elim (Bool-cases (text_eq p.alg alg)) [
        | inl f ↦ inr (text_eq→eq _ _ f)
        | inr f ↦ let no_key = rw (e, f) at b in absurd cc
      ]
    ]

key_at-IsKey :
    (kid : Text) (keys : KeySet) (p : ParsedKey)
    → All IsKey keys
    → key_at kid keys ≡ some p
    → IsUsable p.key
unfolding key_at
key_at-IsKey kid [] p h e = absurd cc
key_at-IsKey kid ((j, i) ∷ keys) p h e = elim (Bool-cases (text_eq j kid)) [
  | inl b ↦
      let same : i ≡ p = found (rw b at e) in subst (λ (q : ParsedKey). IsUsable q.key) same (h.0.1)
  | inr b ↦ key_at-IsKey kid keys p h.1 (rw b at e)
]
  where
    found : {i p : ParsedKey} → some i ≡ some p → i ≡ p
    found e = cc

module _ ⦃k : Crypto⦄ where
  RefreshKeys-IsKey :
      (answer : Fetched) (c : Cache) (m : Refresh × Cache)
      → All IsKey c.keys
      → RefreshKeys answer c m
      → All IsKey m.1.keys
  RefreshKeys-IsKey answer c (r, c') h (inl (_, same)) = rw (same) h
  RefreshKeys-IsKey answer c (r, c') h (inr (_, (js, _, fresh))) =
      rw (fresh) (usable_keys-IsKey js [] tt)

  key_for-IsKey :
      (kid : Text) (now after : ℕ) (answer : Fetched) (c : Cache)
      → All IsKey c.keys
      → All IsKey (key_for kid now after answer c).1.keys
  unfolding key_after
  key_for-IsKey kid now after answer c h = elim (key_for-cases kid now after answer c) [
    | inl (_, e, _, _) ↦ rw e h
    | inr (e, _) ↦ rw e (
        RefreshKeys-IsKey answer c (refresh now after answer c) h
          (refresh-RefreshKeys now after answer c))
  ]

  IsServed-IsUsable :
      (kid : Text) (now after : ℕ) (answer : Fetched) (c : Cache) (p : ParsedKey)
      → All IsKey c.keys
      → IsServed kid now after answer c p
      → IsUsable p.key
  IsServed-IsUsable kid now after answer c p h (inl (found, _)) = key_at-IsKey kid c.keys p h found
  IsServed-IsUsable kid now after answer c p h (inr (js, _, found)) =
      key_at-IsKey kid (usable_keys js []) p (usable_keys-IsKey js [] tt) found

  key_func-unnamed :
      (kid alg : Text) (now after : ℕ) (answer : Fetched) (c : Cache)
      → is_empty kid ≡ true
      → key_func kid alg now after answer c ≡ (none, c)
  unfolding key_func
  key_func-unnamed kid alg now after answer c e = rw (key_func, e)

  key_func-named :
      (kid alg : Text) (now after : ℕ) (answer : Fetched) (c : Cache)
      → is_empty kid ≡ false
      → let r = key_for kid now after answer c in
        key_func kid alg now after answer c ≡ (bind_alg alg r.0, r.1)
  unfolding key_func
  key_func-named kid alg now after answer c e = rw (key_func, e)

  -- What a token that names a key and an algorithm is verified with.
  abbrev pub Verifies : Text → Text → ℕ → ℕ → Fetched → Cache → PublicKey → Type 0
  Verifies kid alg now after answer c key =
      (p : ParsedKey) × (p.key ≡ key)
      × (is_empty kid ≡ false)
      × IsServed kid now after answer c p
      × IsUsable key
      × IsBound alg p

  -- If the keys of the cache are usable and a token is verified with some key, then this is a
  -- usable key that is published under the id that the token's header names, which the cache serves
  -- by its rules of age, and the algorithm is of the key's family and the one that the key was
  -- published for, if there is one; and the keys of the cache are usable afterwards.
  pub key_func-Verifies :
      (kid alg : Text) (now after : ℕ) (answer : Fetched) (c : Cache) (key : PublicKey)
      → All IsKey c.keys
      → (key_func kid alg now after answer c).0 ≡ some key
      → Verifies kid alg now after answer c key
        × All IsKey (key_func kid alg now after answer c).1.keys
  key_func-Verifies kid alg now after answer c key h e = elim (Bool-cases (is_empty kid)) [
    | inl b ↦
        let same = ap (λ m. m.0) (key_func-unnamed kid alg now after answer c b) in
        let no_key = sym same ∙ e in absurd (none-some no_key)
    | inr b ↦
        let same = key_func-named kid alg now after answer c b in
        let (p, found, equal, bound) =
          bind_alg-IsBound alg (key_for kid now after answer c).0 key
            (sym (ap (λ m. m.0) same) ∙ e) in
        let served = key_for-IsServed kid now after answer c p found in
        (
          (
            p,
            equal,
            b,
            served,
            subst IsUsable equal (IsServed-IsUsable kid now after answer c p h served),
            bound,
          ),
          subst (λ (m : Option PublicKey × Cache). All IsKey m.1.keys) (sym same)
              (key_for-IsKey kid now after answer c h),
        )
  ]
