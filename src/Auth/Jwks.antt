-- ===== src/Auth/Jwks.antt =====
-- internal/platform/auth/jwks.go: which JSON Web Keys become public keys.
pub mod Usable
use boilerplate_go_grpc_micr.Common.{
  ℕ, ◌+◌, ◌-◌, ◌*◌, ◌%◌, ◌^◌, Bool, true, false, not, ◌&&◌, ◌||◌, Option, none, some, List, [], ◌∷◌,
  ltb, leb, ◌==◌, if◌then◌else◌, length,
}
use boilerplate_go_grpc_micr.Common.Text.{Text, codes, is_empty, text_eq}

pub record Jwk : Type 0 where
  pub kty : Text
  pub kid : Text
  pub use_for : Text
  pub alg : Text
  pub n : Text
  pub e : Text
  pub crv : Text
  pub x : Text
  pub y : Text

-- The key types of the standard library that occur: a modulus with an exponent, or a curve with a
-- point.
pub data PublicKey : Type 0 where
  rsa : ℕ → ℕ → PublicKey
  ecdsa : Text → ℕ → ℕ → PublicKey

-- `base64.RawURLEncoding.DecodeString`, and whether `ecdh` takes the coordinates for a point of the
-- curve.
pub record Crypto : Type 0 where
  pub decode_url : Text → Option (List ℕ)
  pub on_curve : Text → List ℕ → List ℕ → Bool

-- `strings.TrimRight(s, "=")`
unfoldable pub trim_padding : Text → Text
trim_padding [] = []
trim_padding (c ∷ s) =
    let rest = trim_padding s in if is_empty rest && c == b'=' then [] else c ∷ rest

-- `b64`
unfoldable pub b64 : ⦃k : Crypto⦄ → Text → Option (List ℕ)
b64 ⦃k⦄ s = if is_empty s then none else k.decode_url (trim_padding s)

-- `SetBytes`: the number with these bytes, the first of which weighs most.
unfoldable pub big_endian : ℕ → List ℕ → ℕ
big_endian acc [] = acc
big_endian acc (b ∷ bs) = big_endian (acc * 256 + b) bs

abbrev pub min_rsa_bits : ℕ
min_rsa_bits = 2048

abbrev pub max_rsa_bits : ℕ
max_rsa_bits = 8192

-- The checks of `parseRSA` on the numbers. A number has at least k bits just when it is at least
-- 2 ^ (k - 1), and more than k bits just when it is at least 2 ^ k.
unfoldable pub rsa_checks : ℕ → ℕ → Bool
rsa_checks n e =
    leb e (2 ^ 32 - 1)
    && (ltb 0 n && ((leb 3 e && not (e % 2 == 0)) && (leb (2 ^ 2047) n && ltb n (2 ^ 8192))))

unfoldable pub rsa_of_bytes : Option (List ℕ) → Option (List ℕ) → Option PublicKey
rsa_of_bytes none e_bytes = none
rsa_of_bytes (some n_bytes) none = none
rsa_of_bytes (some n_bytes) (some e_bytes) =
    if length e_bytes == 0 || ltb 8 (length e_bytes)
    then none
    else if rsa_checks (big_endian 0 n_bytes) (big_endian 0 e_bytes)
    then some (rsa (big_endian 0 n_bytes) (big_endian 0 e_bytes))
    else none

-- The sizes of the coordinates.
unfoldable pub curve_size : Text → Option ℕ
curve_size crv =
    if text_eq crv (codes "P-256")
    then some 32
    else if text_eq crv (codes "P-384")
    then some 48
    else if text_eq crv (codes "P-521")
    then some 66
    else none

module _ ⦃k : Crypto⦄ where
  unfoldable pub parse_rsa : Jwk → Option PublicKey
  unfolding rsa_of_bytes
  parse_rsa j = rsa_of_bytes (b64 j.n) (b64 j.e)

  unfoldable pub ec_of_bytes : Text → ℕ → Option (List ℕ) → Option (List ℕ) → Option PublicKey
  ec_of_bytes crv size none y_bytes = none
  ec_of_bytes crv size (some x_bytes) none = none
  ec_of_bytes crv size (some x_bytes) (some y_bytes) =
      if not (length x_bytes == size) || not (length y_bytes == size)
      then none
      else if k.on_curve crv x_bytes y_bytes
      then some (ecdsa crv (big_endian 0 x_bytes) (big_endian 0 y_bytes))
      else none

  unfoldable pub ec_of_size : Jwk → Option ℕ → Option PublicKey
  unfolding ec_of_bytes
  ec_of_size j none = none
  ec_of_size j (some size) = ec_of_bytes j.crv size (b64 j.x) (b64 j.y)

  unfoldable pub parse_ec : Jwk → Option PublicKey
  unfolding ec_of_size
  parse_ec j = ec_of_size j (curve_size j.crv)

  -- `jwk.parse`; symmetric keys and unknown types are refused.
  unfoldable pub parse_jwk : Jwk → Option PublicKey
  parse_jwk j =
      if not (is_empty j.use_for) && not (text_eq j.use_for (codes "sig"))
      then none
      else if text_eq j.kty (codes "RSA")
      then parse_rsa j
      else if text_eq j.kty (codes "EC")
      then parse_ec j
      else none

-- `parsedKey`
pub record ParsedKey : Type 0 where
  pub key : PublicKey
  pub alg : Text

abbrev pub KeySet : Type 0
KeySet = List (Text × ParsedKey)

-- `keys[kid]`
unfoldable pub key_at : Text → KeySet → Option ParsedKey
key_at kid [] = none
key_at kid ((j, k) ∷ keys) = if text_eq j kid then some k else key_at kid keys

-- `out[kid] = k`
unfoldable pub set_key : Text → ParsedKey → KeySet → KeySet
set_key kid k [] = (kid, k) ∷ []
set_key kid k ((j, i) ∷ keys) =
    if text_eq j kid then (kid, k) ∷ keys else (j, i) ∷ set_key kid k keys

-- The loop of `fetch` over the entries of the document.
unfoldable pub keep_key : Jwk → Option PublicKey → KeySet → KeySet
keep_key j none out = out
keep_key j (some key) out =
    if is_empty j.kid then out else set_key j.kid (record { key = key; alg = j.alg }) out

unfoldable pub usable_keys : ⦃k : Crypto⦄ → List Jwk → KeySet → KeySet
unfolding keep_key
usable_keys [] out = out
usable_keys (j ∷ js) out = usable_keys js (keep_key j (parse_jwk j) out)
