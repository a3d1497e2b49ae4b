-- ===== src/Auth/Keys/Fetches.antt =====
-- How often the issuer is asked for its keys.
use boilerplate_go_grpc_micr.Common.{
  ℕ, suc, ◌+◌, ◌*◌, ◌≡◌, ◌≤◌, refl, ◌∙◌, inl, inr, Bool, true, false, not, ◌&&◌, Option, none, some,
  List, [], ◌∷◌, Bool-cases, arith, if◌then◌else◌, and-eq-true,
}
use boilerplate_go_grpc_micr.Common.Text.{Text}
use boilerplate_go_grpc_micr.Auth.Jwks.{Crypto, ParsedKey, KeySet, key_at, usable_keys}
use boilerplate_go_grpc_micr.Auth.Keys.{
  Cache, Fetched, store_keys, fetch_keys, read_keys, is_limited, since_below, is_fresh, refresh,
  key_after, key_first, key_for, new_key_cache,
}

-- One call of `keyFor`.
pub record Call : Type 0 where
  pub kid : Text
  pub now : ℕ
  pub after : ℕ
  pub answer : Fetched

-- The calls read the clock in their order, from `t` on and up to `u`.
abbrev pub IsTimed : ℕ → ℕ → List Call → Type 0
IsTimed t u [] = t ≤ u
IsTimed t u (a ∷ calls) = (t ≤ a.now) × IsTimed a.now u calls

earlier : (t s u : ℕ) (calls : List Call) → t ≤ s → IsTimed s u calls → IsTimed t u calls
earlier t s u [] le h = omega arith
earlier t s u (a ∷ calls) le (h, hs) = (omega arith, hs)

-- One request more, a window later.
another : (n k m t s u : ℕ) → t + m ≤ s → n * m + s ≤ u + suc k * m → n * m + t ≤ u + k * m
another n k m t s u h e = omega (arith, e, h)

first : (n k m t s u : ℕ) → t ≤ s → n * m + s ≤ u + suc k * m → n * m + t ≤ u + k * m + m
first n k m t s u h e = omega (arith, e, h)

moved : (n k k' m m' t u : ℕ) → k ≡ k' → m ≡ m' → n * m + t ≤ u + k * m → n * m' + t ≤ u + k' * m'
moved n k k' m m' t u e w h = rw (← e, ← w) h

shifted :
    (n k k' m m' t u : ℕ)
    → k ≡ k'
    → m ≡ m'
    → n * m + t ≤ u + k * m + m
    → n * m' + t ≤ u + k' * m' + m'
shifted n k k' m m' t u e w h = rw (← e, ← w) h

none_before : (n m t u : ℕ) → n * m + t ≤ u + 0 * m + m → n * m + t ≤ u + m
none_before n m t u h = omega (arith, h)

not-true : (b : Bool) → not b ≡ true → b ≡ false
not-true true h = cc
not-true false h = refl

module _ ⦃k : Crypto⦄ where
  -- Whether a call asks the issuer.
  asks_for : Option ParsedKey → ℕ → Cache → Bool
  asks_for none now c = not (is_limited now c)
  asks_for (some p) now c = not (is_fresh now c) && not (is_limited now c)

  unfoldable pub asks : Text → ℕ → Cache → Bool
  unfolding asks_for
  asks kid now c = asks_for (key_at kid c.keys) now c

  -- The cache after the calls.
  unfoldable pub call_all : List Call → Cache → Cache
  call_all [] c = c
  call_all (a ∷ calls) c = call_all calls (key_for a.kid a.now a.after a.answer c).1

  -- What a call leaves of the fields that limit and count the requests.
  abbrev Limits : Cache → Option ℕ → ℕ → Cache → Type 0
  Limits c last n c' =
      (c'.min_refresh ≡ c.min_refresh) × (c'.last_attempt ≡ last) × (c'.requests ≡ n)

  store_keys-Limits :
      (c d : Cache) (after : ℕ) (keys : KeySet) (last : Option ℕ) (n : ℕ)
      → Limits c last n d
      → Limits c last n (store_keys d after keys).1
  unfolding store_keys
  store_keys-Limits c d after [] last n h = h
  store_keys-Limits c d after (x ∷ keys) last n h = h

  read_keys-Limits :
      (c d : Cache) (after : ℕ) (answer : Fetched) (last : Option ℕ) (n : ℕ)
      → Limits c last n d
      → Limits c last n (read_keys d after answer).1
  unfolding read_keys
  read_keys-Limits c d after none last n h = h
  read_keys-Limits c d after (some js) last n h =
      store_keys-Limits c d after (usable_keys js []) last n h

  -- The attempt is noted, just when a request is made.
  refresh-Limits :
      (now after : ℕ) (answer : Fetched) (c : Cache)
      → Limits c
          (if is_limited now c then c.last_attempt else some now)
          (if is_limited now c then c.requests else suc c.requests)
          (refresh now after answer c).1
  unfolding refresh fetch_keys
  refresh-Limits now after answer c = elim (Bool-cases (is_limited now c)) [
    | inl b ↦ rw b (refl, refl, refl)
    | inr b ↦ rw b (
        read_keys-Limits c (record c { last_attempt = some now; requests = suc c.requests }) after
          answer (some now) (suc c.requests) (refl, refl, refl))
  ]

  key_first-Limits :
      (kid : Text) (o : Option ParsedKey) (now after : ℕ) (answer : Fetched) (c : Cache)
      → Limits c
          (if asks_for o now c then some now else c.last_attempt)
          (if asks_for o now c then suc c.requests else c.requests)
          (key_first kid o now after answer c).1
  unfolding key_first key_after asks_for
  key_first-Limits kid none now after answer c = elim (Bool-cases (is_limited now c)) [
    | inl b ↦ let r = rw b at (refresh-Limits now after answer c) in rw b r
    | inr b ↦ let r = rw b at (refresh-Limits now after answer c) in rw b r
  ]
  key_first-Limits kid (some p) now after answer c = elim (Bool-cases (is_fresh now c)) [
    | inl f ↦ rw f (refl, refl, refl)
    | inr f ↦ rw f (elim (Bool-cases (is_limited now c)) [
      | inl b ↦ let r = rw b at (refresh-Limits now after answer c) in rw b r
      | inr b ↦ let r = rw b at (refresh-Limits now after answer c) in rw b r
    ])
  ]

  unlimited :
      (now t : ℕ) (c : Cache)
      → is_limited now c ≡ false
      → c.last_attempt ≡ some t
      → t ≤ now
      → t + c.min_refresh ≤ now
  unfolding is_limited since_below
  unlimited now t c h e le = let h' = rw e at h in ground arith

  -- A call that asks comes at least the window after the last attempt.
  asks-spaced :
      (o : Option ParsedKey) (now t : ℕ) (c : Cache)
      → asks_for o now c ≡ true
      → c.last_attempt ≡ some t
      → t ≤ now
      → t + c.min_refresh ≤ now
  unfolding asks_for
  asks-spaced none now t c h e le = unlimited now t c (not-true _ h) e le
  asks-spaced (some p) now t c h e le = unlimited now t c (not-true _ (and-eq-true _ _ h).1) e le

  asked :
      (a : Call) (c : Cache)
      → asks a.kid a.now c ≡ true
      → Limits c (some a.now) (suc c.requests) (key_for a.kid a.now a.after a.answer c).1
  unfolding asks key_for
  asked a c b = rw b at (key_first-Limits a.kid (key_at a.kid c.keys) a.now a.after a.answer c)

  unasked :
      (a : Call) (c : Cache)
      → asks a.kid a.now c ≡ false
      → Limits c c.last_attempt c.requests (key_for a.kid a.now a.after a.answer c).1
  unfolding asks key_for
  unasked a c b = rw b at (key_first-Limits a.kid (key_at a.kid c.keys) a.now a.after a.answer c)

  -- After an attempt at `t`, the requests until `u` fit between the two, one in each window.
  call_all-after :
      (calls : List Call) (c : Cache) (t u : ℕ)
      → c.last_attempt ≡ some t
      → IsTimed t u calls
      → (call_all calls c).requests * c.min_refresh + t ≤ u + c.requests * c.min_refresh
  unfolding call_all asks
  call_all-after [] c t u e h = omega (arith, h)
  call_all-after (a ∷ calls) c t u e (le, h) =
      let c' = (key_for a.kid a.now a.after a.answer c).1 in
      let n = (call_all calls c').requests in
      elim (Bool-cases (asks a.kid a.now c)) [
        | inl b ↦
            let (window, last, count) = asked a c b in
            another n c.requests c.min_refresh t a.now u
              (asks-spaced (key_at a.kid c.keys) a.now t c b e le)
              (moved n c'.requests (suc c.requests) c'.min_refresh c.min_refresh a.now u count
                window (call_all-after calls c' a.now u last h))
        | inr b ↦
            let (window, last, count) = unasked a c b in
            moved n c'.requests c.requests c'.min_refresh c.min_refresh t u count window
              (call_all-after calls c' t u (last ∙ e) (earlier t a.now u calls le h))
      ]

  from_idle :
      (calls : List Call) (c : Cache) (t u : ℕ)
      → c.last_attempt ≡ none
      → IsTimed t u calls
      → (call_all calls c).requests * c.min_refresh + t
        ≤ u + c.requests * c.min_refresh + c.min_refresh
  unfolding call_all
  from_idle [] c t u e h = omega (arith, h)
  from_idle (a ∷ calls) c t u e (le, h) =
      let c' = (key_for a.kid a.now a.after a.answer c).1 in
      let n = (call_all calls c').requests in
      elim (Bool-cases (asks a.kid a.now c)) [
        | inl b ↦
            let (window, last, count) = asked a c b in
            first n c.requests c.min_refresh t a.now u le (
              moved n c'.requests (suc c.requests) c'.min_refresh c.min_refresh a.now u count window
                (call_all-after calls c' a.now u last h))
        | inr b ↦
            let (window, last, count) = unasked a c b in
            shifted n c'.requests c.requests c'.min_refresh c.min_refresh t u count window
              (from_idle calls c' t u (last ∙ e) (earlier t a.now u calls le h))
      ]

  -- If the refresh window is not zero, then whatever calls are made of a new cache, one after
  -- another, between two instants, by however many unknown keys, the requests for the issuer's keys
  -- are at most one, and one more for each full refresh window between the instants.
  pub requests-rate :
      (calls : List Call) (min_refresh max_age t u : ℕ)
      → IsTimed t u calls
      → (call_all calls (new_key_cache min_refresh max_age)).requests * min_refresh + t
        ≤ u + min_refresh
  unfolding new_key_cache
  requests-rate calls min_refresh max_age t u h =
      none_before (call_all calls (new_key_cache min_refresh max_age)).requests min_refresh t u
        (from_idle calls (new_key_cache min_refresh max_age) t u refl h)
