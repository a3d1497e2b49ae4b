-- ===== src/Client/Retries/Accepted.antt =====
-- What grpc-go is handed: a configuration that it does not refuse.
use boilerplate_go_grpc_micr.Common.{◌≡◌, refl, inr, true, false, List, [], ◌∷◌, All}
use boilerplate_go_grpc_micr.Common.Int.{ℤ, pos, ltb_ℤ}
use boilerplate_go_grpc_micr.Common.Text.{Text, codes, eq→text_eq}
use boilerplate_go_grpc_micr.Config.{at_most_zero}
use boilerplate_go_grpc_micr.Client.Retries.{Retry, MethodConfig, split_method, joined, is_seen}
use boilerplate_go_grpc_micr.Client.Retries.Names.{IsName}

-- What grpc-go asks of one policy.
abbrev pub IsRunnable : Retry → Type 0
IsRunnable r =
    (ltb_ℤ r.max_attempts (pos 2) ≡ false)
    × (ltb_ℤ (pos 0) r.initial_backoff ≡ true)
    × (ltb_ℤ (pos 0) r.max_backoff ≡ true)
    × (at_most_zero r.backoff_multiplier ≡ false)

abbrev pub name_of : MethodConfig → Text × Text
name_of c = (c.service, c.method)

-- The names are pairwise different.
abbrev pub HasNoTwins : List MethodConfig → Type 0
HasNoTwins [] = Unit
HasNoTwins (c ∷ cs) = All (λ d. name_of c ≡ name_of d → ⊥) cs × HasNoTwins cs

module _ (seconds : ℤ → Text) where
  -- Each policy has one entry, under the name it gives, in the order given.
  abbrev pub AreEntries : List Retry → List MethodConfig → Type 0
  AreEntries [] [] = Unit
  AreEntries [] (c ∷ cs) = ⊥
  AreEntries (r ∷ rs) [] = ⊥
  AreEntries (r ∷ rs) (c ∷ cs) =
      (split_method r.method ≡ inr (name_of c))
      × (c.max_attempts ≡ r.max_attempts)
      × (c.initial_backoff ≡ seconds r.initial_backoff)
      × (c.max_backoff ≡ seconds r.max_backoff)
      × (c.backoff_multiplier ≡ r.backoff_multiplier)
      × (c.retryable_status_codes ≡ codes "UNAVAILABLE" ∷ [])
      × IsRunnable r
      × AreEntries rs cs

-- A key that is among those seen before is found.
is_seen-later : (k : Text) (seen : List Text) → is_seen k (k ∷ seen) ≡ true
unfolding is_seen
is_seen-later k seen = rw (eq→text_eq k k refl) refl

module _ (seconds : ℤ → Text) where
  -- What the loop gives for the policies behind `seen`.
  IsGiven : List Text → List Retry → List MethodConfig → Type 0
  IsGiven seen rs cs =
      AreEntries seconds rs cs
      × All (λ c. is_seen (joined (name_of c)) seen ≡ false) cs
      × All (λ c. IsName (name_of c)) cs
      × HasNoTwins cs
