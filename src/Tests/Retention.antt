-- ===== src/Tests/Retention.antt =====
-- The pruner, and writers, relays and the pruner together, on concrete tables.
use boilerplate_go_grpc_micr.Common.{◌≡◌, refl, true, some, [], ◌∷◌, keep, not, ◌<◌, arith}
use boilerplate_go_grpc_micr.Common.Text.{codes}
use boilerplate_go_grpc_micr.Outbox
use boilerplate_go_grpc_micr.Outbox.{Row, Table, drain_once, publish_batch, claim, is_pending}
use boilerplate_go_grpc_micr.Outbox.Delivery.{Drain}
use boilerplate_go_grpc_micr.Outbox.Prune.{
  Processed, goes, prune, eligible, is_aged, is_forgotten, delete_in_batches, delete_batch,
  after_delete,
}
use boilerplate_go_grpc_micr.Outbox.Prune.Batches.{prune-eligible}
use boilerplate_go_grpc_micr.Outbox.Custody.{
  System, empty, drained, insert, drain, prune as prune_step, here, next, HasCustody,
  Reach-HasCustody,
}
use boilerplate_go_grpc_micr.Tests.Messages.{row, fair, willing}

abbrev stamped : Row
stamped = record (row 3) { published_at = some 4 }

abbrev seen : Processed
seen = record { consumer = codes "projection"; message_id = codes "orders-3"; processed_at = 6 }

abbrev rows : Table
rows = row 1 ∷ stamped ∷ row 2 ∷ []

counted :
    ((eligible 100 90 95 rows (seen ∷ [])).0 < 9) × ((eligible 100 90 95 rows (seen ∷ [])).1 < 9)
unfolding eligible is_aged is_forgotten
counted = (omega arith, omega arith)

-- Of three rows one is old enough; the other table has no such row.
prune-eligible_example :
    prune 9 1 (λ _. goes) (λ _. goes) 100 90 95 rows (seen ∷ [])
    ≡ some (record {
      succeeded = true;
      outbox = (eligible 100 90 95 rows (seen ∷ [])).0;
      processed_events = (eligible 100 90 95 rows (seen ∷ [])).1;
      table = keep (λ r. not (is_aged 10 r)) rows;
      processed = keep (λ r. not (is_forgotten 5 r)) (seen ∷ []);
    })
prune-eligible_example =
    prune-eligible 1 (λ _. goes) (λ _. goes) 100 90 95 9 rows (seen ∷ []) (λ _. refl) (λ _. refl)
      (omega arith) counted.0 counted.1

abbrev one_row : System
one_row = record { table = row 1 ∷ []; sent = []; written = row 1 ∷ [] }

abbrev round : Drain
round = record { batch_size = 10; broker = willing; weather = fair; at = 9 }

-- The state after an insert and a drain.
abbrev sent_row : System
sent_row = drained one_row round

pruned :
    delete_in_batches 5 (is_aged 100) 10 (λ _. goes) 0 0 sent_row.table
    ≡ some (record { succeeded = true; total = 1; rows = [] })
unfolding delete_in_batches delete_batch after_delete is_aged drain_once publish_batch claim
    is_pending Outbox.finish Outbox.stamp Outbox.affected
pruned = refl

-- The event was inserted, sent and pruned.
Reach-HasCustody_example : HasCustody (record sent_row { table = [] })
Reach-HasCustody_example = Reach-HasCustody {s = record sent_row { table = [] }} (
    next (next (next here (insert empty (row 1) refl)) (drain one_row round)) (
      prune_step sent_row 100 10 5 (λ _. goes) (record { succeeded = true; total = 1; rows = [] })
        pruned))
