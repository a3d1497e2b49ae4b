-- ===== src/Tests/Keys.antt =====
-- The cache of keys, on concrete documents.
use boilerplate_go_grpc_micr.Common.{
  ℕ, ◌+◌, ◌*◌, ◌≡◌, ◌≤◌, refl, true, none, some, [], ◌∷◌, arith, false, All,
}
use boilerplate_go_grpc_micr.Common.Text.{codes, is_empty, text_eq}
use boilerplate_go_grpc_micr.Auth.Jwks.{
  Jwk, Crypto, PublicKey, ecdsa, big_endian, b64, trim_padding, curve_size, parse_ec, parse_jwk,
  set_key, usable_keys, key_at,
}
use boilerplate_go_grpc_micr.Auth.Keys.{
  Cache, Fetched, new_key_cache, key_func, key_for, refresh, is_limited, fetch_keys, family_fits,
}
use boilerplate_go_grpc_micr.Auth.Keys.Binding.{Verifies, key_func-Verifies}
use boilerplate_go_grpc_micr.Auth.Keys.Fetches.{Call, call_all, requests-rate}
use boilerplate_go_grpc_micr.Auth.Jwks.Usable.{IsKey}

-- Coordinates that are written as they are, every two of which make a point.
abbrev toy : Crypto
toy = record { decode_url = λ t. some t; on_curve = λ _ _ _. true }

abbrev curve_key : Jwk
curve_key = record {
  kty = codes "EC";
  kid = codes "k";
  use_for = codes "sig";
  alg = [];
  n = [];
  e = [];
  crv = codes "P-256";
  x = codes "abcdefghijklmnopqrstuvwxyz012345";
  y = codes "543210zyxwvutsrqponmlkjihgfedcba";
}

abbrev cold : Cache
cold = record {
  min_refresh = 30;
  max_age = 900;
  keys = [];
  fetched_at = none;
  last_attempt = none;
  requests = 0;
  warm = false;
}

made : new_key_cache 30 900 ≡ cold
unfolding new_key_cache
made = refl

abbrev document : Fetched
document = some (curve_key ∷ [])

-- The key of the document.
abbrev point : PublicKey
point = ecdsa (codes "P-256") (big_endian 0 curve_key.x) (big_endian 0 curve_key.y)

served : (key_func ⦃k = toy⦄ (codes "k") (codes "ES256") 5 6 document cold).0 ≡ some point
unfolding key_func is_empty key_for key_at refresh is_limited fetch_keys usable_keys parse_jwk
    text_eq parse_ec curve_size b64 trim_padding set_key family_fits
served = refl

key_func-Verifies_example :
    Verifies ⦃k = toy⦄ (codes "k") (codes "ES256") 5 6 document cold point
    × All IsKey (key_func ⦃k = toy⦄ (codes "k") (codes "ES256") 5 6 document cold).1.keys
key_func-Verifies_example =
    key_func-Verifies ⦃k = toy⦄ (codes "k") (codes "ES256") 5 6 document cold point tt served

-- Tokens that name unknown keys.
abbrev unknown : ℕ → Call
unknown t = record { kid = codes "x"; now = t; after = t; answer = document }

requests-rate_example :
    (call_all ⦃k = toy⦄ (unknown 5 ∷ unknown 6 ∷ unknown 40 ∷ []) (new_key_cache 30 0)).requests
        * 30
      + 5
    ≤ 41 + 30
requests-rate_example =
    requests-rate ⦃k = toy⦄ (unknown 5 ∷ unknown 6 ∷ unknown 40 ∷ []) 30 0 5 41
      (omega arith, (omega arith, (omega arith, omega arith)))
