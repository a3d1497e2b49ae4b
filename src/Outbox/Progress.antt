-- ===== src/Outbox/Progress.antt =====
-- A drain that nothing disturbs publishes and stamps its whole batch.
use boilerplate_go_grpc_micr.Common.{
  ℕ, zero, suc, ◌≡◌, refl, ap, sym, ◌∙◌, some, inl, inr, Bool, true, false, not, ◌&&◌, List, [],
  ◌∷◌, map, ◌==◌, length, All, arith, Bool-cases, take, keep,
}
use mathlib.Core.Path.{subst}
use boilerplate_go_grpc_micr.Outbox.{
  Row, Table, Answer, accepted, Weather, all_sent, is_null, is_pending, claim, publish_batch,
  has_id, affected, stamp, finish, drain_once, published,
}

-- No two rows share an id.
abbrev pub HasDistinctIds : Table → Type 0
HasDistinctIds [] = Unit
HasDistinctIds (r ∷ t) = All (λ s. r.id == s.id ≡ false) t × HasDistinctIds t

-- The broker takes every message and no statement fails.
pub record IsCalm (broker : Row → Answer) (w : Weather) : Type 0 where
  pub accepts : (r : Row) → broker r ≡ accepted
  pub begins : w.begins ≡ true
  pub claims : w.claims ≡ true
  pub marks : w.marks ≡ true
  pub commits : w.commits ≡ true

has_id-absent :
    (id n : ℕ) (p : Row → Bool) (t : Table)
    → All (λ s. id == s.id ≡ false) t
    → has_id id (take n (keep p t)) ≡ false
has_id-absent id zero p t h = refl
has_id-absent id (suc n) p [] h = refl
has_id-absent id (suc n) p (s ∷ t) h = elim (Bool-cases (p s)) [
  | inl e ↦ rw e (ground (arith, has_id-absent id n p t h.1, h.0))
  | inr e ↦ rw e (has_id-absent id (suc n) p t h.1)
]

-- A row that is not in the table does not matter to what is kept of it.
keep-has_id :
    (r : Row) (b t : Table)
    → All (λ s. r.id == s.id ≡ false) t
    → keep (λ s. has_id s.id (r ∷ b)) t ≡ keep (λ s. has_id s.id b) t
keep-has_id r b [] h = refl
keep-has_id r b (s ∷ t) h = rw (h.0, keep-has_id r b t h.1)

keep-none : (t : Table) → length (keep (λ s. has_id s.id []) t) ≡ 0
keep-none [] = refl
keep-none (r ∷ t) = keep-none t

eqb_self : (n : ℕ) → n == n ≡ true
eqb_self n = ground arith

affected-cons :
    (r : Row) (b t : Table)
    → All (λ s. r.id == s.id ≡ false) t
    → affected b t ≡ length b
    → affected (r ∷ b) (r ∷ t) ≡ suc (length b)
unfolding affected
affected-cons r b t h e = rw (eqb_self r.id, keep-has_id r b t h) (ap suc e)

kept : (p : Row → Bool) (r : Row) (t : Table) → p r ≡ true → keep p (r ∷ t) ≡ r ∷ keep p t
kept p r t e = rw e

dropped : (p : Row → Bool) (r : Row) (t : Table) → p r ≡ false → keep p (r ∷ t) ≡ keep p t
dropped p r t e = rw e

affected-taken :
    (n : ℕ) (p : Row → Bool) (t : Table)
    → HasDistinctIds t
    → affected (take n (keep p t)) t ≡ length (take n (keep p t))
unfolding affected
affected-taken zero p t h = keep-none t
affected-taken (suc n) p [] h = refl
affected-taken (suc n) p (r ∷ t) h = elim (Bool-cases (p r)) [
  | inl e ↦
      subst (λ k. affected (take (suc n) k) (r ∷ t) ≡ length (take (suc n) k)) (sym (kept p r t e))
        (affected-cons r (take n (keep p t)) t h.0 (affected-taken n p t h.1))
  | inr e ↦
      subst (λ k. affected (take (suc n) k) (r ∷ t) ≡ length (take (suc n) k))
        (sym (dropped p r t e))
        (rw (has_id-absent r.id (suc n) p t h.0) (affected-taken (suc n) p t h.1))
]

publish_batch-calm :
    (broker : Row → Answer) (batch : List Row)
    → ((r : Row) → broker r ≡ accepted)
    → publish_batch broker batch ≡ (all_sent, batch)
unfolding publish_batch
publish_batch-calm broker [] h = refl
publish_batch-calm broker (m ∷ ms) h = rw (publish_batch, h m, publish_batch-calm broker ms h)

stamp-none : (now : ℕ) (t : Table) → map (stamp now []) t ≡ t
unfolding stamp
stamp-none now [] = refl
stamp-none now (r ∷ t) = ap (λ (x : Table). r ∷ x) (stamp-none now t)

nil_of : (b : Table) → length b == 0 ≡ true → b ≡ []
nil_of [] h = refl
nil_of (r ∷ b) h = absurd (ground arith)

claim-affected :
    (locked : Row → Bool) (n : ℕ) (t : Table)
    → HasDistinctIds t
    → affected (claim locked n t) t == length (claim locked n t) ≡ true
unfolding claim
claim-affected locked n t h =
    rw (affected-taken n (λ r. is_pending r && not (locked r)) t h) (eqb_self _)

-- The rows of the batch have the instant of publication, and nothing else has changed.
abbrev pub IsPublished : ℕ → List Row → Table → Table → Type 0
IsPublished now batch [] [] = Unit
IsPublished now batch [] (r' ∷ t') = ⊥
IsPublished now batch (r ∷ t) [] = ⊥
IsPublished now batch (r ∷ t) (r' ∷ t') =
    ((has_id r.id batch ≡ true) → r' ≡ record r { published_at = some now })
    × ((has_id r.id batch ≡ false) → r' ≡ r)
    × IsPublished now batch t t'

stamp-IsPublished :
    (now : ℕ) (batch : List Row) (t : Table) → IsPublished now batch t (map (stamp now batch) t)
unfolding stamp
stamp-IsPublished now batch [] = tt
stamp-IsPublished now batch (r ∷ t) =
    ((λ b. rw b refl), (λ b. rw b refl), stamp-IsPublished now batch t)

-- The oldest rows, up to `n`, that are neither published nor set aside nor locked.
abbrev pub oldest : ℕ → (Row → Bool) → Table → List Row
oldest n locked t =
    take n (keep (λ r. (is_null r.published_at && is_null r.failed_at) && not (locked r)) t)

claim-oldest : (n : ℕ) (locked : Row → Bool) (t : Table) → claim locked n t ≡ oldest n locked t
unfolding claim is_pending
claim-oldest n locked t = refl

calm_drain :
    (n : ℕ) (broker : Row → Answer) (w : Weather) (now : ℕ) (t : Table)
    → HasDistinctIds t
    → IsCalm broker w
    → let batch = claim w.locked n t in
      ((drain_once n broker w now t).drained ≡ published (length batch))
      × ((drain_once n broker w now t).sent ≡ batch)
      × ((drain_once n broker w now t).table ≡ map (stamp now batch) t)
unfolding drain_once finish
calm_drain n broker w now t h c =
    let batch = claim w.locked n t in
    elim (Bool-cases (length batch == 0)) [
      | inl z ↦
          rw (c.begins, c.claims, z, c.commits, nil_of batch z) (refl, refl, sym (stamp-none now t))
      | inr z ↦
          rw
            (
              c.begins,
              c.claims,
              z,
              publish_batch-calm broker batch c.accepts,
              c.marks,
              claim-affected w.locked n t h,
              c.commits,
            )
            (refl, refl, refl)
    ]

-- If the ids of the rows are distinct, the broker takes every message and no statement fails, then
-- a drain sends exactly the oldest rows that are neither published nor set aside nor locked, up to
-- the size of a batch, and reports their number; it gives each of them the instant of the drain as
-- that of its publication, and changes nothing else.
pub drain_once-calm :
    (n : ℕ) (broker : Row → Answer) (w : Weather) (now : ℕ) (t : Table)
    → HasDistinctIds t
    → IsCalm broker w
    → ((drain_once n broker w now t).drained ≡ published (length (oldest n w.locked t)))
      × ((drain_once n broker w now t).sent ≡ oldest n w.locked t)
      × IsPublished now (oldest n w.locked t) t (drain_once n broker w now t).table
drain_once-calm n broker w now t h c =
    let (drained, sent, table) = calm_drain n broker w now t h c in
    let same = claim-oldest n w.locked t in
    (
      drained ∙ ap (λ (b : List Row). published (length b)) same,
      sent ∙ same,
      subst (λ (b : List Row). IsPublished now b t (drain_once n broker w now t).table) same
          (subst (IsPublished now (claim w.locked n t) t) (sym table)
            (stamp-IsPublished now (claim w.locked n t) t)),
    )
