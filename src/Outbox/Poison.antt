-- ===== src/Outbox/Poison.antt =====
-- A message that the broker never takes does not stop the others.
use boilerplate_go_grpc_micr.Common.{
  ℕ, zero, suc, ◌≡◌, refl, sym, ◌∙◌, inl, inr, Bool, true, false, not, ◌&&◌, List, [], ◌∷◌, ◌++◌,
  map, ◌==◌, length, All, arith, Bool-cases, take, keep,
}
use boilerplate_go_grpc_micr.Common.Text.{Text}
use boilerplate_go_grpc_micr.Outbox.{
  Row, Table, Answer, Weather, Ending, all_sent, stopped, is_null, affected, stamp, is_pending,
  claim, publish_batch, has_id, finish, set_aside, drain_once,
}
use boilerplate_go_grpc_micr.Outbox.Delivery.{Drain, drain_all}
use mathlib.Core.Bool.{false≢true}

-- No row of that id can be claimed.
abbrev pub IsSkipped : ℕ → Row → Type 0
IsSkipped id r = r.id == id ≡ true → is_pending r ≡ false

skipped : (now : ℕ) (m : Row) (cause : Text) (r : Row) → IsSkipped m.id (set_aside now m cause r)
unfolding set_aside is_pending
skipped now m cause r = elim (Bool-cases (r.id == m.id && is_null r.published_at)) [
  | inl b ↦ rw b (λ _. ground arith)
  | inr b ↦ rw b (λ h. ground arith)
]

set_aside-IsSkipped :
    (now : ℕ) (m : Row) (cause : Text) (t : List Row)
    → All (IsSkipped m.id) (map (set_aside now m cause) t)
set_aside-IsSkipped now m cause [] = tt
set_aside-IsSkipped now m cause (r ∷ t) = (skipped now m cause r, set_aside-IsSkipped now m cause t)

keep-skipped :
    (id : ℕ) (p : Row → Bool) (t : List Row)
    → All (IsSkipped id) t
    → has_id id (keep (λ r. is_pending r && p r) t) ≡ false
keep-skipped id p [] h = refl
keep-skipped id p (r ∷ t) h = elim (Bool-cases (is_pending r && p r)) [
  | inl b ↦ rw b (ground (arith, keep-skipped id p t h.1, h.0))
  | inr b ↦ rw b (keep-skipped id p t h.1)
]

has_id-take : (id n : ℕ) (xs : List Row) → has_id id xs ≡ false → has_id id (take n xs) ≡ false
has_id-take id zero xs h = refl
has_id-take id (suc n) [] h = refl
has_id-take id (suc n) (x ∷ xs) h = ground (arith, has_id-take id n xs)

claim-skipped :
    (id n : ℕ) (locked : Row → Bool) (t : Table)
    → All (IsSkipped id) t
    → has_id id (claim locked n t) ≡ false
unfolding claim
claim-skipped id n locked t h = has_id-take id n _ (keep-skipped id (λ r. not (locked r)) t h)

stopped-some :
    (broker : Row → Answer) (batch : List Row) (m : Row) (cause : Text)
    → (publish_batch broker batch).0 ≡ stopped m cause true
    → length batch == 0 ≡ false
unfolding publish_batch
stopped-some broker [] m cause e = cc
stopped-some broker (x ∷ xs) m cause e = ground arith

drained-stopped :
    (n : ℕ) (broker : Row → Answer) (w : Weather) (now : ℕ) (t : Table) (m : Row) (cause : Text)
    → w.begins ≡ true
    → w.claims ≡ true
    → w.quarantines ≡ true
    → (publish_batch broker (claim w.locked n t)).0 ≡ stopped m cause true
    → (drain_once n broker w now t).table ≡ map (set_aside now m cause) t
unfolding drain_once finish
drained-stopped n broker w now t m cause b c q e =
    elim (Bool-cases (length (claim w.locked n t) == 0)) [
      | inl z ↦ absurd (false≢true (sym (stopped-some broker (claim w.locked n t) m cause e) ∙ z))
      | inr z ↦ rw (b, c, z, e, q) refl
    ]

-- A row that cannot be claimed stays so: a stamp gives it an instant, a quarantine another one.
stamp-IsSkipped :
    (id now : ℕ) (batch : List Row) (r : Row) → IsSkipped id r → IsSkipped id (stamp now batch r)
unfolding stamp is_pending
stamp-IsSkipped id now batch r h = elim (Bool-cases (has_id r.id batch)) [
  | inl b ↦ rw b (λ _. refl)
  | inr b ↦ rw b h
]

stamp-keeps :
    (id now : ℕ) (batch : List Row) (t : Table)
    → All (IsSkipped id) t
    → All (IsSkipped id) (map (stamp now batch) t)
stamp-keeps id now batch [] h = tt
stamp-keeps id now batch (r ∷ t) (h, hs) =
    (stamp-IsSkipped id now batch r h, stamp-keeps id now batch t hs)

spared :
    (id now : ℕ) (m : Row) (cause : Text) (r : Row)
    → IsSkipped id r
    → IsSkipped id (set_aside now m cause r)
unfolding set_aside is_pending
spared id now m cause r h = elim (Bool-cases (r.id == m.id && is_null r.published_at)) [
  | inl b ↦ rw b (λ _. ground arith)
  | inr b ↦ rw b h
]

set_aside-keeps :
    (id now : ℕ) (m : Row) (cause : Text) (t : Table)
    → All (IsSkipped id) t
    → All (IsSkipped id) (map (set_aside now m cause) t)
set_aside-keeps id now m cause [] h = tt
set_aside-keeps id now m cause (r ∷ t) (h, hs) =
    (spared id now m cause r h, set_aside-keeps id now m cause t hs)

finish-keeps :
    (id : ℕ) (batch sent : List Row) (w : Weather) (now : ℕ) (t : Table) (e : Ending)
    → All (IsSkipped id) t
    → All (IsSkipped id) (finish batch sent w now t e).table
unfolding finish
finish-keeps id batch sent w now t (stopped m cause b) h = elim (Bool-cases (b && w.quarantines)) [
  | inl q ↦ rw q (set_aside-keeps id now m cause t h)
  | inr q ↦ rw q h
]
finish-keeps id batch sent w now t all_sent h =
    elim (Bool-cases (w.marks && (affected batch t == length batch && w.commits))) [
      | inl q ↦ rw q (stamp-keeps id now batch t h)
      | inr q ↦ rw q h
    ]

drain_once-keeps :
    (id n : ℕ) (broker : Row → Answer) (w : Weather) (now : ℕ) (t : Table)
    → All (IsSkipped id) t
    → All (IsSkipped id) (drain_once n broker w now t).table
unfolding drain_once
drain_once-keeps id n broker w now t h =
    let batch = claim w.locked n t in
    elim (Bool-cases (not (w.begins && w.claims))) [
      | inl b ↦ rw b h
      | inr b ↦ elim (Bool-cases (length batch == 0)) [
        | inl z ↦ rw (b, z) h
        | inr z ↦
            rw (b, z)
              (finish-keeps id batch (publish_batch broker batch).1 w now t
                (publish_batch broker batch).0 h)
      ]
    ]

drain_all-keeps :
    (id : ℕ) (ds : List Drain) (t log : List Row)
    → All (IsSkipped id) t
    → All (IsSkipped id) (drain_all ds t log).0
drain_all-keeps id [] t log h = h
drain_all-keeps id (d ∷ ds) t log h =
    let o = drain_once d.batch_size d.broker d.weather d.at t in
    drain_all-keeps id ds o.table (log ++ o.sent)
      (drain_once-keeps id d.batch_size d.broker d.weather d.at t h)

-- If a drain stops at a message that the broker refuses for good, and its quarantine succeeds, then
-- after any sequence of later drains, by any relays and with any failures of the broker and of the
-- database, no claim returns a row of that id, whichever rows are locked and however many are asked
-- for.
pub drain_once-quarantine :
    (n : ℕ) (broker : Row → Answer) (w : Weather) (now : ℕ) (t : Table) (m : Row) (cause : Text)
    (ds : List Drain) (locked : Row → Bool) (k : ℕ)
    → w.begins ≡ true
    → w.claims ≡ true
    → w.quarantines ≡ true
    → (publish_batch broker (claim w.locked n t)).0 ≡ stopped m cause true
    → has_id m.id (claim locked k (drain_all ds (drain_once n broker w now t).table []).0) ≡ false
drain_once-quarantine n broker w now t m cause ds locked k b c q e = claim-skipped m.id k locked _ (
    drain_all-keeps m.id ds (drain_once n broker w now t).table []
      (rw (drained-stopped n broker w now t m cause b c q e) (set_aside-IsSkipped now m cause t)))
