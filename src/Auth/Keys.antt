-- ===== src/Auth/Keys.antt =====
-- internal/platform/auth/jwks.go and oidc.go: the cache of verification keys, and the choice of a
-- token's key. Durations are not negative. A call is one step: it reads the clock before a fetch
-- and once more after it, and what the fetch brings is an input.
pub mod Service
pub mod Fetches
pub mod Binding
use boilerplate_go_grpc_micr.Common.{
  ℕ, suc, ◌-◌, ◌*◌, Bool, true, false, not, ◌&&◌, ◌||◌, Option, none, some, List, [], ◌∷◌, ltb,
  ◌==◌, if◌then◌else◌, take,
}
use boilerplate_go_grpc_micr.Common.Text.{Text, codes, is_empty, text_eq}
use boilerplate_go_grpc_micr.Auth.Jwks.{
  Jwk, PublicKey, rsa, ecdsa, Crypto, ParsedKey, KeySet, key_at, usable_keys,
}

-- `keyCache`; `none` is the zero time. The requests that were made are counted beside it.
pub record Cache : Type 0 where
  pub min_refresh : ℕ
  pub max_age : ℕ
  pub keys : KeySet
  pub fetched_at : Option ℕ
  pub last_attempt : Option ℕ
  pub warm : Bool
  pub requests : ℕ

-- Fifteen minutes, in nanoseconds.
abbrev pub default_max_age : ℕ
default_max_age = 15 * 60 * 1000000000

-- `newKeyCache`
unfoldable pub new_key_cache : ℕ → ℕ → Cache
new_key_cache min_refresh max_age = record {
  min_refresh = min_refresh;
  max_age = if max_age == 0 then default_max_age else max_age;
  keys = [];
  fetched_at = none;
  last_attempt = none;
  warm = false;
  requests = 0;
}

-- `time.Since(t) < d`; since the zero time more has passed than any duration.
unfoldable pub since_below : ℕ → Option ℕ → ℕ → Bool
since_below now none d = false
since_below now (some t) d = ltb (now - t) d

-- The second result of `lookup`, whose others are those of `key_at`.
unfoldable pub is_fresh : ℕ → Cache → Bool
is_fresh now c = c.max_age == 0 || since_below now c.fetched_at c.max_age

-- What the request for the key set brings: a document, or no document that can be read.
abbrev pub Fetched : Type 0
Fetched = Option (List Jwk)

-- The errors of `refresh`.
pub data Refresh : Type 0 where
  refreshed limited limited_cold failed no_keys : Refresh

module _ ⦃k : Crypto⦄ where
  -- `refresh` past its window: the attempt counts, whatever comes of it.
  unfoldable pub store_keys : Cache → ℕ → KeySet → Refresh × Cache
  store_keys c after [] = (no_keys, c)
  store_keys c after (e ∷ keys) =
      (refreshed, record c { keys = e ∷ keys; fetched_at = some after; warm = true })

  unfoldable pub read_keys : Cache → ℕ → Fetched → Refresh × Cache
  unfolding store_keys
  read_keys c after none = (failed, c)
  read_keys c after (some js) = store_keys c after (usable_keys js [])

  -- The request for the document, and what is made of its answer.
  unfoldable pub fetch_keys : Cache → ℕ → Fetched → Refresh × Cache
  unfolding read_keys
  fetch_keys c after answer = read_keys (record c { requests = suc c.requests }) after answer

  -- The window in which no fetch is made.
  unfoldable pub is_limited : ℕ → Cache → Bool
  unfolding since_below
  is_limited now c = ltb 0 c.min_refresh && since_below now c.last_attempt c.min_refresh

  unfoldable pub refresh : ℕ → ℕ → Fetched → Cache → Refresh × Cache
  refresh now after answer c =
      if is_limited now c
      then (if c.warm then limited else limited_cold, c)
      else fetch_keys (record c { last_attempt = some now }) after answer

  -- `keyFor` behind its first lookup; `none` stands for each of its errors.
  unfoldable pub key_after : Text → Refresh × Cache → Option ParsedKey × Cache
  key_after kid (r, c) = (key_at kid c.keys, c)

  unfoldable pub key_first :
      Text → Option ParsedKey → ℕ → ℕ → Fetched → Cache → Option ParsedKey × Cache
  unfolding key_after
  key_first kid none now after answer c = key_after kid (refresh now after answer c)
  key_first kid (some p) now after answer c =
      if is_fresh now c then (some p, c) else key_after kid (refresh now after answer c)

  -- `keyFor`
  unfoldable pub key_for : Text → ℕ → ℕ → Fetched → Cache → Option ParsedKey × Cache
  unfolding key_first
  key_for kid now after answer c = key_first kid (key_at kid c.keys) now after answer c

-- Two letters at the front of a text.
abbrev pub has_prefix : Text → Text → Bool
has_prefix p s = text_eq (take 2 s) p

-- The family of algorithms that may use the key.
unfoldable pub family_fits : PublicKey → Text → Bool
family_fits (rsa n e) alg = has_prefix (codes "RS") alg || has_prefix (codes "PS") alg
family_fits (ecdsa crv x y) alg = has_prefix (codes "ES") alg

-- The checks of `keyFunc` on the key that it found.
unfoldable pub bind_alg : Text → Option ParsedKey → Option PublicKey
bind_alg alg none = none
bind_alg alg (some pk) =
    if not (is_empty pk.alg) && not (text_eq pk.alg alg)
    then none
    else if family_fits pk.key alg
    then some pk.key
    else none

-- `keyFunc`, of a token whose header has these texts for `kid` and `alg`, the empty one where it
-- has none.
unfoldable pub key_func :
    ⦃k : Crypto⦄ → Text → Text → ℕ → ℕ → Fetched → Cache → Option PublicKey × Cache
unfolding bind_alg
key_func kid alg now after answer c =
    if is_empty kid
    then (none, c)
    else let r = key_for kid now after answer c in (bind_alg alg r.0, r.1)
