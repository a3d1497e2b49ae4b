-- ===== src/Auth/Jwks/Usable.antt =====
-- Whatever an issuer publishes, only keys fit for verification are kept.
use boilerplate_go_grpc_micr.Common.{
  ℕ, ◌≡◌, ◌≤◌, ◌<◌, ◌%◌, ◌^◌, refl, ◌⊎◌, inl, inr, true, false, not, ◌&&◌, ◌||◌, Option, none, some,
  List, [], ◌∷◌, All, arith, Bool-cases, length, ◌==◌, ltb, and-eq-true, leb→le, ltb→lt, ◌-◌, sym,
}
use boilerplate_go_grpc_micr.Common.Text.{Text, codes, is_empty, text_eq, text_eq→eq}
use boilerplate_go_grpc_micr.Auth.Jwks.{
  Jwk, PublicKey, rsa, ecdsa, Crypto, b64, big_endian, rsa_checks, rsa_of_bytes, parse_rsa,
  curve_size, ec_of_bytes, ec_of_size, parse_ec, parse_jwk, ParsedKey, KeySet, set_key, keep_key,
  usable_keys,
}

-- A modulus of 2048 to 8192 bits with an odd exponent from 3 that fits 32 bits, or a point of a
-- curve that is supported.
abbrev pub IsUsable : PublicKey → Type 0
IsUsable (rsa n e) = (2 ^ 2047 ≤ n) × (n < 2 ^ 8192) × (3 ≤ e) × (e < 2 ^ 32) × (e % 2 ≡ 1)
IsUsable (ecdsa crv x y) = (crv ≡ codes "P-256") ⊎ ((crv ≡ codes "P-384") ⊎ (crv ≡ codes "P-521"))

-- An entry of a key set: its name is not empty, and its key is usable.
abbrev pub IsKey : Text × ParsedKey → Type 0
IsKey e = (is_empty e.0 ≡ false) × IsUsable e.1.key

below : (e : ℕ) → e ≤ 2 ^ 32 - 1 → e < 2 ^ 32
below e h = omega arith

odd_exponent : (e : ℕ) → not (e % 2 == 0) ≡ true → e % 2 ≡ 1
odd_exponent e h = ground arith

rsa_checks-IsUsable : (n e : ℕ) → rsa_checks n e ≡ true → IsUsable (rsa n e)
unfolding rsa_checks
rsa_checks-IsUsable n e h =
    let (fits, rest) = and-eq-true _ _ h in
    let (_, more) = and-eq-true _ _ rest in
    let (exponent, size) = and-eq-true _ _ more in
    let (least, odd) = and-eq-true _ _ exponent in
    let (large, small) = and-eq-true _ _ size in
    (
      leb→le _ _ large,
      ltb→lt _ _ small,
      leb→le _ _ least,
      below e (leb→le _ _ fits),
      odd_exponent e odd,
    )

some_same : {k l : PublicKey} → some k ≡ some l → k ≡ l
some_same h = cc

rsa_of_bytes-IsUsable :
    (n e : Option (List ℕ)) (k : PublicKey) → rsa_of_bytes n e ≡ some k → IsUsable k
unfolding rsa_of_bytes
rsa_of_bytes-IsUsable none e k h = absurd cc
rsa_of_bytes-IsUsable (some n) none k h = absurd cc
rsa_of_bytes-IsUsable (some n) (some e) k h =
    elim (Bool-cases (length e == 0 || ltb 8 (length e))) [
      | inl b ↦ let no = rw b at h in absurd cc
      | inr b ↦ elim (Bool-cases (rsa_checks (big_endian 0 n) (big_endian 0 e))) [
        | inl good ↦ rw (← some_same (rw (b, good) at h)) (rsa_checks-IsUsable _ _ good)
        | inr bad ↦ let no = rw (b, bad) at h in absurd cc
      ]
    ]

IsCurve-size :
    (crv : Text) (size : ℕ)
    → curve_size crv ≡ some size
    → (crv ≡ codes "P-256") ⊎ ((crv ≡ codes "P-384") ⊎ (crv ≡ codes "P-521"))
unfolding curve_size
IsCurve-size crv size h = elim (Bool-cases (text_eq crv (codes "P-256"))) [
  | inl a ↦ inl (text_eq→eq _ _ a)
  | inr a ↦ elim (Bool-cases (text_eq crv (codes "P-384"))) [
    | inl b ↦ inr (inl (text_eq→eq _ _ b))
    | inr b ↦ elim (Bool-cases (text_eq crv (codes "P-521"))) [
      | inl c ↦ inr (inr (text_eq→eq _ _ c))
      | inr c ↦ let no = rw (a, b, c) at h in absurd cc
    ]
  ]
]

module _ ⦃c : Crypto⦄ where
  ec_of_bytes-curve :
      (crv : Text) (size : ℕ) (x y : Option (List ℕ)) (k : PublicKey)
      → ec_of_bytes crv size x y ≡ some k
      → (a : ℕ) × (b : ℕ) × (k ≡ ecdsa crv a b)
  unfolding ec_of_bytes
  ec_of_bytes-curve crv size none y k h = absurd cc
  ec_of_bytes-curve crv size (some x) none k h = absurd cc
  ec_of_bytes-curve crv size (some x) (some y) k h =
      elim (Bool-cases (not (length x == size) || not (length y == size))) [
        | inl b ↦ let no = rw b at h in absurd cc
        | inr b ↦ elim (Bool-cases (c.on_curve crv x y)) [
          | inl good ↦ (big_endian 0 x, big_endian 0 y, sym (some_same (rw (b, good) at h)))
          | inr bad ↦ let no = rw (b, bad) at h in absurd cc
        ]
      ]

  ec_of_size-IsUsable :
      (j : Jwk) (size : Option ℕ) (k : PublicKey)
      → curve_size j.crv ≡ size
      → ec_of_size j size ≡ some k
      → IsUsable k
  unfolding ec_of_size
  ec_of_size-IsUsable j none k e h = absurd cc
  ec_of_size-IsUsable j (some size) k e h =
      let (a, b, same) = ec_of_bytes-curve j.crv size (b64 j.x) (b64 j.y) k h in
      rw (same) (IsCurve-size j.crv size e)

  -- Whatever a JSON Web Key says, the public key that is made of it is usable.
  pub parse_jwk-IsUsable : (j : Jwk) (k : PublicKey) → parse_jwk j ≡ some k → IsUsable k
  unfolding parse_jwk parse_rsa parse_ec
  parse_jwk-IsUsable j k h =
      elim (Bool-cases (not (is_empty j.use_for) && not (text_eq j.use_for (codes "sig")))) [
        | inl b ↦ let no = rw b at h in absurd cc
        | inr b ↦ elim (Bool-cases (text_eq j.kty (codes "RSA"))) [
          | inl r ↦ rsa_of_bytes-IsUsable (b64 j.n) (b64 j.e) k (rw (b, r) at h)
          | inr r ↦ elim (Bool-cases (text_eq j.kty (codes "EC"))) [
            | inl e ↦ ec_of_size-IsUsable j (curve_size j.crv) k refl (rw (b, r, e) at h)
            | inr e ↦ let no = rw (b, r, e) at h in absurd cc
          ]
        ]
      ]

  set_key-All :
      (kid : Text) (p : ParsedKey) (keys : KeySet)
      → IsKey (kid, p)
      → All IsKey keys
      → All IsKey (set_key kid p keys)
  unfolding set_key
  set_key-All kid p [] h hs = (h, tt)
  set_key-All kid p ((j, i) ∷ keys) h hs = elim (Bool-cases (text_eq j kid)) [
    | inl e ↦ rw e (h, hs.1)
    | inr e ↦ rw e (hs.0, set_key-All kid p keys h hs.1)
  ]

  keep_key-All :
      (j : Jwk) (o : Option PublicKey) (out : KeySet)
      → parse_jwk j ≡ o
      → All IsKey out
      → All IsKey (keep_key j o out)
  unfolding keep_key
  keep_key-All j none out e h = h
  keep_key-All j (some key) out e h = elim (Bool-cases (is_empty j.kid)) [
    | inl b ↦ rw b h
    | inr b ↦ rw b (set_key-All j.kid _ out (b, parse_jwk-IsUsable j key e) h)
  ]

  -- Every key that is kept of a document has a name and is usable: a modulus of 2048 to 8192 bits
  -- with an odd exponent, or a point of a supported curve. So no symmetric key is ever kept.
  pub usable_keys-IsKey :
      (js : List Jwk) (out : KeySet) → All IsKey out → All IsKey (usable_keys js out)
  unfolding usable_keys
  usable_keys-IsKey [] out h = h
  usable_keys-IsKey (j ∷ js) out h =
      usable_keys-IsKey js (keep_key j (parse_jwk j) out) (keep_key-All j (parse_jwk j) out refl h)
