-- ===== src/Outbox/Custody.antt =====
-- Writers, relays and the pruner on one table: no event is lost between them.
use boilerplate_go_grpc_micr.Common.{
  ℕ, ◌≡◌, refl, ◌⊎◌, inl, inr, Bool, true, false, not, ◌&&◌, none, some, List, [], ◌∷◌, ◌++◌, map,
  ◌==◌, All, All-append, keep, arith, Bool-cases, Option-cases, length,
}
use boilerplate_go_grpc_micr.Common.Text.{Text}
use boilerplate_go_grpc_micr.Outbox.{
  Row, Table, Ending, all_sent, stopped, Weather, is_null, has_id, claim, publish_batch, stamp,
  affected, set_aside, finish, drain_once,
}
use boilerplate_go_grpc_micr.Outbox.Delivery.{
  IsDelivered, Drain, drain_once-IsDelivered, has_id-append, has_id-behind,
}
use boilerplate_go_grpc_micr.Outbox.Prune.{Turn, Deleted, delete_in_batches, is_aged}
use boilerplate_go_grpc_micr.Outbox.Prune.Batches.{delete_in_batches-keeps, delete_in_batches-All}

-- The table, what the broker took, and the rows that writers have inserted.
pub record System : Type 0 where
  pub table : Table
  pub sent : List Row
  pub written : List Row

-- The initial state.
abbrev pub empty : System
empty = record { table = []; sent = []; written = [] }

abbrev pub drained : System → Drain → System
drained s d =
    let o = drain_once d.batch_size d.broker d.weather d.at s.table in
    record s { table = o.table; sent = s.sent ++ o.sent }

-- A committed insert, one drain of a relay, or one run of the pruner over the table, ended or
-- interrupted in any way.
pub data Step : System → System → Type 0 where
  insert :
      (s : System) (r : Row)
      → r.published_at ≡ none
      → Step s (record s { table = s.table ++ r ∷ []; written = s.written ++ r ∷ [] })
  drain : (s : System) (d : Drain) → Step s (drained s d)
  prune :
      (s : System) (cutoff size fuel : ℕ) (turn : ℕ → Turn) (d : Deleted Row)
      → delete_in_batches fuel (is_aged cutoff) size turn 0 0 s.table ≡ some d
      → Step s (record s { table = d.rows })

pub data Reach (s : System) : System → Type 0 where
  here : Reach s s
  next : {t u : System} → Reach s t → Step t u → Reach s u

-- The event is still in the table, or the broker has taken it.
abbrev pub IsKept : System → ℕ → Type 0
IsKept s id = (has_id id s.table ≡ true) ⊎ (has_id id s.sent ≡ true)

pub record HasCustody (s : System) : Type 0 where
  pub delivered : All (IsDelivered s.sent) s.table
  pub kept : (id : ℕ) → has_id id s.written ≡ true → IsKept s id

-- Neither UPDATE changes an id.
has_id-map :
    (f : Row → Row) (id : ℕ) (t : Table)
    → ((r : Row) → (f r).id ≡ r.id)
    → has_id id (map f t) ≡ has_id id t
has_id-map f id [] h = refl
has_id-map f id (r ∷ t) h = rw (h r, has_id-map f id t h)

stamp-id : (now : ℕ) (batch : List Row) (r : Row) → (stamp now batch r).id ≡ r.id
unfolding stamp
stamp-id now batch r = ground arith

set_aside-id : (now : ℕ) (m : Row) (cause : Text) (r : Row) → (set_aside now m cause r).id ≡ r.id
unfolding set_aside
set_aside-id now m cause r = elim (Bool-cases (r.id == m.id && is_null r.published_at)) [
  | inl e ↦ rw e
  | inr e ↦ rw e
]

finish-has_id :
    (id : ℕ) (batch sent : List Row) (w : Weather) (now : ℕ) (t : Table) (e : Ending)
    → has_id id (finish batch sent w now t e).table ≡ has_id id t
unfolding finish
finish-has_id id batch sent w now t (stopped m cause b) = elim (Bool-cases (b && w.quarantines)) [
  | inl q ↦ rw q (has_id-map (set_aside now m cause) id t (set_aside-id now m cause))
  | inr q ↦ rw q
]
finish-has_id id batch sent w now t all_sent =
    elim (Bool-cases (w.marks && (affected batch t == length batch && w.commits))) [
      | inl q ↦ rw q (has_id-map (stamp now batch) id t (stamp-id now batch))
      | inr q ↦ rw q
    ]

drain_once-has_id :
    (id : ℕ) (d : Drain) (t : Table)
    → has_id id (drain_once d.batch_size d.broker d.weather d.at t).table ≡ has_id id t
unfolding drain_once
drain_once-has_id id d t =
    let batch = claim d.weather.locked d.batch_size t in
    let loop = publish_batch d.broker batch in
    elim (Bool-cases (not (d.weather.begins && d.weather.claims))) [
      | inl b ↦ rw b
      | inr b ↦ elim (Bool-cases (length batch == 0)) [
        | inl z ↦ rw (b, z)
        | inr z ↦ rw (b, z) (finish-has_id id batch loop.1 d.weather d.at t loop.0)
      ]
    ]

-- A row that is old enough for the pruner is stamped.
aged_stamped : (cutoff : ℕ) (r : Row) → is_aged cutoff r ≡ true → is_null r.published_at ≡ false
unfolding is_aged
aged_stamped cutoff r h = elim (Option-cases r.published_at) [
  | inl e ↦ absurd cc
  | inr (at, e) ↦ rw e
]

-- Of a table whose stamped rows are delivered, what is not old enough still has the row, or the
-- broker took it.
spared_or_sent :
    (cutoff id : ℕ) (log : List Row) (t : Table)
    → All (IsDelivered log) t
    → has_id id t ≡ true
    → (has_id id (keep (λ r. not (is_aged cutoff r)) t) ≡ true) ⊎ (has_id id log ≡ true)
spared_or_sent cutoff id log [] h k = absurd cc
spared_or_sent cutoff id log (r ∷ t) h k = elim (Bool-cases (is_aged cutoff r)) [
  | inl old ↦ rw old (elim (Bool-cases (r.id == id)) [
    | inl e ↦
        inr (let same : r.id ≡ id = ground arith in rw (← same) (h.0 (aged_stamped cutoff r old)))
    | inr e ↦ spared_or_sent cutoff id log t h.1 (rw e at k)
  ])
  | inr young ↦ rw young (elim (Bool-cases (r.id == id)) [
    | inl e ↦ inl (rw e)
    | inr e ↦ rw e (spared_or_sent cutoff id log t h.1 (rw e at k))
  ])
]

has_id-keep :
    (p : Row → Bool) (id : ℕ) (t : Table) → has_id id (keep p t) ≡ true → has_id id t ≡ true
has_id-keep p id [] h = h
has_id-keep p id (r ∷ t) h = elim (Bool-cases (p r)) [
  | inl e ↦ let h' = rw e at h in ground (arith, has_id-keep p id t)
  | inr e ↦ let h' = has_id-keep p id t (rw e at h) in ground arith
]

insert-IsKept :
    (r : Row) (s : System) (id : ℕ)
    → IsKept s id
    → IsKept (record s { table = s.table ++ r ∷ [] }) id
insert-IsKept r s id (inl e) = inl (has_id-append id s.table (r ∷ []) e)
insert-IsKept r s id (inr e) = inr e

-- An inserted row is the last of both lists.
has_id-insert :
    (id : ℕ) (r : Row) (written : List Row) (s : System)
    → (has_id id written ≡ true → IsKept s id)
    → has_id id (written ++ r ∷ []) ≡ true
    → IsKept (record s { table = s.table ++ r ∷ [] }) id
has_id-insert id r [] s k h = inl (has_id-behind id s.table (r ∷ []) h)
has_id-insert id r (w ∷ ws) s k h = elim (Bool-cases (w.id == id)) [
  | inl e ↦ insert-IsKept r s id (k (rw e))
  | inr e ↦ has_id-insert id r ws s (λ x. k (rw e x)) (rw e at h)
]

Step-HasCustody : {s u : System} → Step s u → HasCustody s → HasCustody u
Step-HasCustody (insert s r fresh) h = record {
  delivered =
      All-append (IsDelivered s.sent) s.table (r ∷ []) h.delivered ((λ stamped. absurd cc), tt);
  kept = λ id. has_id-insert id r s.written s (h.kept id);
}
Step-HasCustody (drain s d) h = record {
  delivered =
      drain_once-IsDelivered d.batch_size d.broker d.weather d.at s.table s.sent h.delivered;
  kept = λ id w. elim (h.kept id w) [
    | inl e ↦ inl (rw (drain_once-has_id id d s.table) e)
    | inr e ↦ inr (has_id-append id s.sent _ e)
  ];
}
Step-HasCustody (prune s cutoff size fuel turn d e) h = record {
  delivered =
      delete_in_batches-All (is_aged cutoff) size turn (IsDelivered s.sent) fuel 0 0 s.table d
        h.delivered e;
  kept = λ id w. elim (h.kept id w) [
    | inl k ↦ elim (spared_or_sent cutoff id s.sent s.table h.delivered k) [
      | inl l ↦ inl (
          has_id-keep (λ r. not (is_aged cutoff r)) id d.rows
            (rw (delete_in_batches-keeps (is_aged cutoff) size turn fuel 0 0 s.table d e) l))
      | inr l ↦ inr l
    ]
    | inr k ↦ inr k
  ];
}

-- In every state that inserts, drains of relays and runs of pruners reach from the empty one, in
-- any order and with any failures of the broker and of the database, the broker has taken the
-- message of each stamped row, and each event that a writer has inserted is still in the table or
-- was taken by the broker.
pub Reach-HasCustody : {s : System} → Reach empty s → HasCustody s
Reach-HasCustody here = record { delivered = tt; kept = λ id h. inl h }
Reach-HasCustody (next r st) = Step-HasCustody st (Reach-HasCustody r)
