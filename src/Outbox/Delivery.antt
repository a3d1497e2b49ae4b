-- ===== src/Outbox/Delivery.antt =====
-- At least once: a row is stamped only after the broker has taken its message.
use boilerplate_go_grpc_micr.Common.{
  ℕ, ◌≡◌, refl, ap, inl, inr, Bool, true, false, not, ◌&&◌, List, [], ◌∷◌, ◌++◌, map, ◌==◌, length,
  All, arith, Bool-cases,
}
use boilerplate_go_grpc_micr.Common.Text.{Text}
use boilerplate_go_grpc_micr.Outbox.{
  finish, Row, Table, Answer, accepted, transient, permanent, Weather, Ending, all_sent, stopped,
  is_null, claim, publish_batch, has_id, stamp, affected, set_aside, drain_once,
}

-- The message of the row is in the log of what the broker took, if the row is stamped.
abbrev pub IsDelivered : List Row → Row → Type 0
IsDelivered log r = is_null r.published_at ≡ false → has_id r.id log ≡ true

pub has_id-append :
    (id : ℕ) (log more : List Row) → has_id id log ≡ true → has_id id (log ++ more) ≡ true
has_id-append id [] more h = cc
has_id-append id (m ∷ ms) more h = ground (arith, has_id-append id ms more)

pub has_id-behind :
    (id : ℕ) (log more : List Row) → has_id id more ≡ true → has_id id (log ++ more) ≡ true
has_id-behind id [] more h = h
has_id-behind id (m ∷ ms) more h = ground (arith, has_id-behind id ms more)

stopped_early : (m : Row) (c : Text) (b : Bool) → ¬ (stopped m c b ≡ all_sent)
stopped_early m c b h = cc

-- The loop that reaches its end has sent the whole batch.
pub publish_batch-all :
    (broker : Row → Answer) (batch : List Row)
    → (publish_batch broker batch).0 ≡ all_sent
    → (publish_batch broker batch).1 ≡ batch
unfolding publish_batch
publish_batch-all broker [] h = refl
publish_batch-all broker (m ∷ ms) h = go (broker m) refl (publish_batch-all broker ms)
  where
    go :
        (a : Answer)
        → broker m ≡ a
        → ((publish_batch broker ms).0 ≡ all_sent → (publish_batch broker ms).1 ≡ ms)
        → (publish_batch broker (m ∷ ms)).1 ≡ m ∷ ms
    go accepted e again =
        rw (publish_batch, e) (ap (λ (r : List Row). m ∷ r) (again (rw (publish_batch, e) at h)))
    go (transient c) e again = absurd (stopped_early m c false (rw (publish_batch, e) at h))
    go (permanent c) e again = absurd (stopped_early m c true (rw (publish_batch, e) at h))

-- Stamping keeps delivery, when the whole batch was sent.
stamp-IsDelivered :
    (now : ℕ) (log batch : List Row) (r : Row)
    → IsDelivered log r
    → IsDelivered (log ++ batch) (stamp now batch r)
unfolding stamp
stamp-IsDelivered now log batch r h = elim (Bool-cases (has_id r.id batch)) [
  | inl b ↦ rw b (λ _. has_id-behind r.id log batch b)
  | inr b ↦ rw b (λ p. has_id-append r.id log batch (h p))
]

stamp-All :
    (now : ℕ) (log batch t : List Row)
    → All (IsDelivered log) t
    → All (IsDelivered (log ++ batch)) (map (stamp now batch) t)
stamp-All now log batch [] h = tt
stamp-All now log batch (r ∷ t) h =
    (stamp-IsDelivered now log batch r h.0, stamp-All now log batch t h.1)

set_aside-IsDelivered :
    (now : ℕ) (log : List Row) (m : Row) (cause : Text) (r : Row)
    → IsDelivered log r
    → IsDelivered log (set_aside now m cause r)
unfolding set_aside
set_aside-IsDelivered now log m cause r h =
    elim (Bool-cases (r.id == m.id && is_null r.published_at)) [ inl b ↦ rw b h | inr b ↦ rw b h ]

set_aside-All :
    (now : ℕ) (log : List Row) (m : Row) (cause : Text) (t : List Row)
    → All (IsDelivered log) t
    → All (IsDelivered log) (map (set_aside now m cause) t)
set_aside-All now log m cause [] h = tt
set_aside-All now log m cause (r ∷ t) h =
    (set_aside-IsDelivered now log m cause r h.0, set_aside-All now log m cause t h.1)

more-All : (log more t : List Row) → All (IsDelivered log) t → All (IsDelivered (log ++ more)) t
more-All log more [] h = tt
more-All log more (r ∷ t) h = ((λ p. has_id-append r.id log more (h.0 p)), more-All log more t h.1)

-- What a log records, the end of a drain keeps recorded.
finish-IsDelivered :
    (batch sent : List Row) (w : Weather) (now : ℕ) (t log : List Row) (e : Ending)
    → (e ≡ all_sent → sent ≡ batch)
    → All (IsDelivered log) t
    → All
        (IsDelivered (log ++ (finish batch sent w now t e).sent))
        (finish batch sent w now t e).table
unfolding finish
finish-IsDelivered batch sent w now t log (stopped m cause b) whole h =
    elim (Bool-cases (b && w.quarantines)) [
      | inl q ↦ rw q (more-All log sent _ (set_aside-All now log m cause t h))
      | inr q ↦ rw q (more-All log sent t h)
    ]
finish-IsDelivered batch sent w now t log all_sent whole h =
    elim (Bool-cases (w.marks && (affected batch t == length batch && w.commits))) [
      | inl q ↦ rw (q, whole refl) (stamp-All now log batch t h)
      | inr q ↦ rw q (more-All log sent t h)
    ]

-- One drain keeps delivery, whatever the broker and the database do.
pub drain_once-IsDelivered :
    (n : ℕ) (broker : Row → Answer) (w : Weather) (now : ℕ) (t log : List Row)
    → All (IsDelivered log) t
    → All
        (IsDelivered (log ++ (drain_once n broker w now t).sent))
        (drain_once n broker w now t).table
unfolding drain_once
drain_once-IsDelivered n broker w now t log h =
    let batch = claim w.locked n t in
    elim (Bool-cases (not (w.begins && w.claims))) [
      | inl b ↦ rw b (more-All log [] t h)
      | inr b ↦ elim (Bool-cases (length batch == 0)) [
        | inl z ↦ rw (b, z) (more-All log [] t h)
        | inr z ↦
            rw (b, z)
              (finish-IsDelivered batch (publish_batch broker batch).1 w now t log
                (publish_batch broker batch).0 (publish_batch-all broker batch) h)
      ]
    ]

-- The inputs of one drain, of any relay.
pub record Drain : Type 0 where
  pub batch_size : ℕ
  pub broker : Row → Answer
  pub weather : Weather
  pub at : ℕ

-- A sequence of drains: the table, and the log of all that the broker took.
abbrev pub drain_all : List Drain → Table → List Row → Table × List Row
drain_all [] t log = (t, log)
drain_all (d ∷ ds) t log =
    let o = drain_once d.batch_size d.broker d.weather d.at t in
    drain_all ds o.table (log ++ o.sent)

-- After any sequence of drains, by any relays and with any failures of the broker and of the
-- database, the broker has taken the message of every row that is stamped, if that held of the
-- table at the start.
pub drain_all-IsDelivered :
    (ds : List Drain) (t log : List Row)
    → All (IsDelivered log) t
    → All (IsDelivered (drain_all ds t log).1) (drain_all ds t log).0
drain_all-IsDelivered [] t log h = h
drain_all-IsDelivered (d ∷ ds) t log h =
    let o = drain_once d.batch_size d.broker d.weather d.at t in
    drain_all-IsDelivered ds o.table (log ++ o.sent)
      (drain_once-IsDelivered d.batch_size d.broker d.weather d.at t log h)
