-- ===== src/Outbox/Prune.antt =====
-- internal/platform/outbox/prune.go: the deletion of rows that nothing will read again, one
-- bounded batch at a time. A table is the list of its rows in the order in which a scan meets
-- them; what happens before and in each batch is an input.
pub mod Batches
use boilerplate_go_grpc_micr.Common.{
  ℕ, zero, suc, ◌+◌, ◌-◌, Bool, true, false, Option, none, some, List, [], ◌∷◌, ltb, leb, ◌==◌,
  if◌then◌else◌, length, keep,
}
use boilerplate_go_grpc_micr.Common.Text.{Text}
use boilerplate_go_grpc_micr.Outbox.{Row, Table}

-- A row of `processed_events`.
pub record Processed : Type 0 where
  pub consumer : Text
  pub message_id : Text
  pub processed_at : ℕ

-- `published_at IS NOT NULL AND published_at < $1`
unfoldable pub is_aged : ℕ → Row → Bool
is_aged cutoff r = elim r.published_at [ none ↦ false | some at ↦ ltb at cutoff ]

-- `processed_at < $1`
unfoldable pub is_forgotten : ℕ → Processed → Bool
is_forgotten cutoff r = ltb r.processed_at cutoff

-- What meets one round of the loop: the context is done, the statement fails, its number of rows
-- cannot be read, or it goes through.
pub data Turn : Type 0 where
  interrupted failing uncounted goes : Turn

-- How the loop ends: with no error, or with one.
pub record Deleted {ℓ} (A : Type ℓ) : Type ℓ where
  pub succeeded : Bool
  pub total : ℕ
  pub rows : List A

module _ {ℓ} {A : Type ℓ} where
  -- The DELETE, of the first rows that qualify, as many as the limit allows.
  unfoldable pub delete_batch : (A → Bool) → ℕ → List A → ℕ × List A
  delete_batch p limit [] = (0, [])
  delete_batch p zero (r ∷ t) = (0, r ∷ t)
  delete_batch p (suc limit) (r ∷ t) =
      let less = delete_batch p limit t in
      let same = delete_batch p (suc limit) t in
      if p r then (suc less.0, less.1) else (same.0, r ∷ same.1)

  -- What a round leaves: its rows `t`, or those that its DELETE spares, or what follows a DELETE
  -- that went through.
  unfoldable pub after_delete : Turn → ℕ → List A → List A → Option (Deleted A) → Option (Deleted A)
  after_delete interrupted total t spared next =
      some (record { succeeded = false; total = total; rows = t })
  after_delete failing total t spared next =
      some (record { succeeded = false; total = total; rows = t })
  after_delete uncounted total t spared next =
      some (record { succeeded = false; total = total; rows = spared })
  after_delete goes total t spared next = next

  -- `deleteInBatches`, with the number of rounds so far; `none` if the fuel runs out.
  unfoldable pub delete_in_batches :
      ℕ → (A → Bool) → ℕ → (ℕ → Turn) → ℕ → ℕ → List A → Option (Deleted A)
  delete_in_batches zero p size turn round total t = none
  delete_in_batches (suc fuel) p size turn round total t =
      let b = delete_batch p size t in
      let again = delete_in_batches fuel p size turn (suc round) (total + b.0) b.1 in
      after_delete (turn round) total t b.1 (
        if ltb b.0 size
        then some (record { succeeded = true; total = total + b.0; rows = b.1 })
        else again)

-- `NewPruner`
unfoldable pub new_pruner : ℕ → ℕ
new_pruner batch_size = if batch_size == 0 then 1000 else batch_size

pub record Pruned : Type 0 where
  pub succeeded : Bool
  pub outbox : ℕ
  pub processed_events : ℕ
  pub table : Table
  pub processed : List Processed

-- The second half of `Prune`.
unfoldable pub prune_second : Deleted Row → Option (Deleted Processed) → Option Pruned
prune_second d none = none
prune_second d (some d') = some (record {
  succeeded = d'.succeeded;
  outbox = d.total;
  processed_events = d'.total;
  table = d.rows;
  processed = d'.rows;
})

-- What follows the first half: an error returns at once.
unfoldable pub prune_first :
    Option (Deleted Row) → List Processed → Option (Deleted Processed) → Option Pruned
prune_first none ps second = none
prune_first (some d) ps second =
    if d.succeeded
    then prune_second d second
    else some (record {
      succeeded = false;
      outbox = d.total;
      processed_events = 0;
      table = d.rows;
      processed = ps;
    })

-- `Prune`; the rounds of the second loop are counted from zero again.
unfoldable pub prune :
    ℕ → ℕ → (ℕ → Turn) → (ℕ → Turn) → ℕ → ℕ → ℕ → Table → List Processed → Option Pruned
unfolding prune_first prune_second
prune fuel size turn turn' now outbox_age processed_age t ps =
    prune_first (delete_in_batches fuel (is_aged (now - outbox_age)) size turn 0 0 t) ps
      (delete_in_batches fuel (is_forgotten (now - processed_age)) size turn' 0 0 ps)

-- `Eligible`, the two counts of a dry run.
unfoldable pub eligible : ℕ → ℕ → ℕ → Table → List Processed → ℕ × ℕ
eligible now outbox_age processed_age t ps = (
  length (keep (is_aged (now - outbox_age)) t),
  length (keep (is_forgotten (now - processed_age)) ps),
)
