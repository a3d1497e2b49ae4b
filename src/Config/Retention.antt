-- ===== src/Config/Retention.antt =====
-- What the pruner of an accepted configuration may forget.
use boilerplate_go_grpc_micr.Common.{
  ℕ, ◌+◌, ◌-◌, ◌≡◌, ◌<◌, refl, ap, sym, ◌∙◌, inl, inr, Bool, true, false, not, ◌&&◌, Option, none,
  some, List, [], ◌∷◌, Bool-cases, arith, leb, keep,
}
use boilerplate_go_grpc_micr.Common.Int.{ℤ, pos, pos_part, ltb_ℤ}
use boilerplate_go_grpc_micr.Outbox.{Row, Table}
use boilerplate_go_grpc_micr.Outbox.Prune.{
  Processed, Turn, Deleted, is_aged, is_forgotten, delete_in_batches, Pruned, prune, prune_first,
  prune_second,
}
use boilerplate_go_grpc_micr.Outbox.Prune.Batches.{delete_in_batches-keeps}
use boilerplate_go_grpc_micr.Auth.{Strings}
use boilerplate_go_grpc_micr.Config.{
  Config, validate_retention, validate_config, append-nil_parts, when-nil,
}
use boilerplate_go_grpc_micr.Config.Production.{validate_config-IsAccepted}
use mathlib.Core.Path.{subst}

-- What one test keeps of what a weaker one keeps.
keep-keep :
    (p q : Processed → Bool) (xs : List Processed)
    → ((r : Processed) → p r ≡ true → q r ≡ true)
    → keep p (keep q xs) ≡ keep p xs
keep-keep p q [] h = refl
keep-keep p q (x ∷ xs) h = elim (Bool-cases (q x)) [
  | inl e ↦ elim (Bool-cases (p x)) [
    | inl f ↦ rw (e, f) (ap (λ (ys : List Processed). x ∷ ys) (keep-keep p q xs h))
    | inr f ↦ rw (e, f) (keep-keep p q xs h)
  ]
  | inr e ↦ elim (Bool-cases (p x)) [
    | inl f ↦ let no_row = h x f in absurd cc
    | inr f ↦ rw (e, f) (keep-keep p q xs h)
  ]
]

-- The broker may still deliver the message of the row at `now`: it keeps messages for `max_age`,
-- and stored this one no later than it was processed.
abbrev pub is_deliverable : ℕ → ℕ → Processed → Bool
is_deliverable now max_age r = leb now (r.processed_at + max_age)

remembered :
    (now age max_age : ℕ) (r : Processed)
    → max_age < age
    → is_deliverable now max_age r ≡ true
    → not (is_forgotten (now - age) r) ≡ true
unfolding is_forgotten
remembered now age max_age r h k = ground arith

same_processed : {q p : Pruned} → some q ≡ some p → q.processed ≡ p.processed
same_processed h = cc

-- The second table after a prune is what the second loop leaves, or as it was.
prune_processed :
    (P : List Processed → Type 0) (first : Option (Deleted Row)) (ps : List Processed)
    (second : Option (Deleted Processed)) (p : Pruned)
    → P ps
    → ((d : Deleted Processed) → second ≡ some d → P d.rows)
    → prune_first first ps second ≡ some p
    → P p.processed
unfolding prune_first prune_second
prune_processed P none ps second p h k e = absurd cc
prune_processed P (some d) ps none p h k e = elim (Bool-cases d.succeeded) [
  | inl b ↦ let no_turn = rw b at e in absurd cc
  | inr b ↦ subst P (same_processed (rw b at e)) h
]
prune_processed P (some d) ps (some d') p h k e = elim (Bool-cases d.succeeded) [
  | inl b ↦ subst P (same_processed (rw b at e)) (k d' refl)
  | inr b ↦ subst P (same_processed (rw b at e)) h
]

floor_of :
    (z w : ℤ)
    → (ltb_ℤ (pos 0) w && not (ltb_ℤ z w)) ≡ false
    → not (ltb_ℤ (pos 0) w) ≡ false
    → pos_part z < pos_part w
floor_of z w h k = ground arith

module _ ⦃s : Strings⦄ where
  -- The floor that an accepted configuration keeps.
  floor_kept :
      (c : Config)
      → validate_retention c ≡ []
      → pos_part c.nats.stream_max_age < pos_part c.retention.processed_events
  unfolding validate_retention
  floor_kept c h =
      let (a, rest) = append-nil_parts _ _ h in
      let (_, more) = append-nil_parts _ _ rest in
      let (b, _) = append-nil_parts _ _ more in
      floor_of c.nats.stream_max_age c.retention.processed_events (when-nil _ _ a) (when-nil _ _ b)

  -- Under an accepted configuration, a prune, however it ends, keeps the record of every event that
  -- the broker may still deliver again.
  pub prune-remembers :
      (c : Config) (fuel size now outbox_age : ℕ) (turn turn' : ℕ → Turn) (t : Table)
      (ps : List Processed) (p : Pruned)
      → validate_config c ≡ []
      → prune fuel size turn turn' now outbox_age (pos_part c.retention.processed_events) t ps
        ≡ some p
      → keep (is_deliverable now (pos_part c.nats.stream_max_age)) p.processed
        ≡ keep (is_deliverable now (pos_part c.nats.stream_max_age)) ps
  unfolding prune
  prune-remembers c fuel size now outbox_age turn turn' t ps p accepted e =
      let age = pos_part c.retention.processed_events in
      let max_age = pos_part c.nats.stream_max_age in
      let floor = floor_kept c ((validate_config-IsAccepted c accepted).retention) in
      let young = is_deliverable now max_age in
      let forgotten = is_forgotten (now - age) in
      let weaker = λ (r : Processed). remembered now age max_age r floor in
      prune_processed (λ qs. keep young qs ≡ keep young ps)
        (delete_in_batches fuel (is_aged (now - outbox_age)) size turn 0 0 t) ps
        (delete_in_batches fuel forgotten size turn' 0 0 ps) p refl
        (λ d found.
          sym (keep-keep young (λ r. not (forgotten r)) d.rows weaker)
          ∙ (ap (keep young) (delete_in_batches-keeps forgotten size turn' fuel 0 0 ps d found)
              ∙ keep-keep young (λ r. not (forgotten r)) ps weaker))
        e
