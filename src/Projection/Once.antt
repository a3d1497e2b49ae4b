-- ===== src/Projection/Once.antt =====
-- Each event is counted once, however often it is delivered.
use boilerplate_go_grpc_micr.Common.{
  ℕ, suc, ◌+◌, ◌≡◌, refl, ap, sym, ◌∙◌, ◌⊎◌, inl, inr, true, false, Option, List, [], ◌∷◌, arith,
  if◌then◌else◌, Bool-cases, Option-cases, length,
}
use boilerplate_go_grpc_micr.Common.Text.{Text, codes, is_empty, text_eq, text_eq_self}
use boilerplate_go_grpc_micr.Events.{Event, Handled, done}
use boilerplate_go_grpc_micr.Projection.{
  Count, Db, Luck, is_processed, count_one, apply_event, handle,
}
use mathlib.Core.Path.{subst}

abbrev pub total : List Count → ℕ
total [] = 0
total (c ∷ cs) = c.orders + total cs

-- No event stands twice in the table.
abbrev pub IsDistinct : List (Text × Text) → Type 0
IsDistinct [] = Unit
IsDistinct ((c, i) ∷ rows) = (is_processed c i rows ≡ false) × IsDistinct rows

-- The counts add up to the number of events processed, all different.
pub record IsCounted (db : Db) : Type 0 where
  pub counted : total db.counts ≡ length db.processed
  pub distinct : IsDistinct db.processed

total-count_one :
    (tenant : Text) (at : ℕ) (cs : List Count) → total (count_one tenant at cs) ≡ suc (total cs)
unfolding count_one
total-count_one tenant at [] = refl
total-count_one tenant at (c ∷ cs) = ground (arith, total-count_one tenant at cs)

-- What the transaction leaves: the tables as they were, or one more event, now counted.
abbrev pub Applies : Text → Event → Db → Handled × Db → Type 0
Applies consumer e db (r, db') =
    (db' ≡ db)
    ⊎ ((r ≡ done)
        × (is_processed consumer e.id db.processed ≡ false)
        × (db'.processed ≡ (consumer, e.id) ∷ db.processed)
        × (total db'.counts ≡ suc (total db.counts)))

apply_event-Applies :
    (consumer : Text) (l : Luck) (tenant : Text) (e : Event) (db : Db)
    → Applies consumer e db (apply_event consumer l tenant e db)
unfolding apply_event
apply_event-Applies consumer l tenant e db = elim (Bool-cases l.begins) [
  | inr a ↦ rw a (inl refl)
  | inl a ↦ elim (Bool-cases l.claims) [
    | inr b ↦ rw (a, b) (inl refl)
    | inl b ↦ elim (Bool-cases (is_processed consumer e.id db.processed)) [
      | inl c ↦ rw (a, b, c) (inl refl)
      | inr c ↦ elim (Bool-cases l.projects) [
        | inr d ↦ rw (a, b, c, d) (inl refl)
        | inl d ↦ elim (Bool-cases l.commits) [
          | inr f ↦ rw (a, b, c, d, f) (inl refl)
          | inl f ↦
              rw (a, b, c, d, f)
                (inr (refl, refl, refl, total-count_one tenant e.occurred_at db.counts))
        ]
      ]
    ]
  ]
]

handle_lem :
    (P : Handled × Db → Type 0) (consumer : Text) (decode : Text → Option Text) (l : Luck)
    (e : Event) (db : Db)
    → ((r : Handled) → P (r, db))
    → ((tenant : Text) → P (apply_event consumer l tenant e db))
    → P (handle consumer decode l e db)
unfolding handle
handle_lem P consumer decode l e db skips applies =
    elim (Bool-cases (text_eq e.event_type (codes "order.v1.OrderCreated"))) [
      | inr a ↦ rw a (skips done)
      | inl a ↦ elim (Option-cases (decode e.payload)) [
        | inl b ↦ rw (a, b) (skips _)
        | inr (t, b) ↦
            elim (Bool-cases (is_empty (if is_empty e.tenant_id then t else e.tenant_id))) [
              | inl c ↦ rw (a, b, c) (skips _)
              | inr c ↦ rw (a, b, c) (applies _)
            ]
      ]
    ]

pub handle-Applies :
    (consumer : Text) (decode : Text → Option Text) (l : Luck) (e : Event) (db : Db)
    → Applies consumer e db (handle consumer decode l e db)
handle-Applies consumer decode l e db =
    handle_lem (Applies consumer e db) consumer decode l e db (λ _. inl refl)
      (λ t. apply_event-Applies consumer l t e db)

apply_event-known :
    (consumer : Text) (l : Luck) (tenant : Text) (e : Event) (db : Db)
    → is_processed consumer e.id db.processed ≡ true
    → (apply_event consumer l tenant e db).1 ≡ db
unfolding apply_event
apply_event-known consumer l tenant e db h = elim (Bool-cases l.begins) [
  | inr a ↦ rw a refl
  | inl a ↦ elim (Bool-cases l.claims) [ inr b ↦ rw (a, b) refl | inl b ↦ rw (a, b, h) refl ]
]

just_processed :
    (consumer id : Text) (rows more : List (Text × Text))
    → more ≡ (consumer, id) ∷ rows
    → is_processed consumer id more ≡ true
unfolding is_processed
just_processed consumer id rows more h = rw (h, text_eq_self consumer, text_eq_self id) refl

-- Of two deliveries of one event, whatever fails in either, at most one has an effect on the
-- tables.
pub handle_twice :
    (consumer : Text) (decode : Text → Option Text) (l l' : Luck) (e : Event) (db : Db)
    → let db' = (handle consumer decode l e db).1 in
      (db' ≡ db) ⊎ ((handle consumer decode l' e db').1 ≡ db')
handle_twice consumer decode l l' e db =
    let db' = (handle consumer decode l e db).1 in
    elim (handle-Applies consumer decode l e db) [
      | inl same ↦ inl same
      | inr (_, _, rows, _) ↦ inr (
          handle_lem (λ r. r.1 ≡ db') consumer decode l' e db' (λ _. refl)
            (λ t.
              apply_event-known consumer l' t e db'
                (just_processed consumer e.id db.processed db'.processed rows)))
    ]

handle-IsCounted :
    (consumer : Text) (decode : Text → Option Text) (l : Luck) (e : Event) (db : Db)
    → IsCounted db
    → IsCounted (handle consumer decode l e db).1
handle-IsCounted consumer decode l e db h = elim (handle-Applies consumer decode l e db) [
  | inl same ↦ subst IsCounted (sym same) h
  | inr (_, fresh, rows, sum) ↦ record {
    counted = sum ∙ ap suc h.counted ∙ sym (ap length rows);
    distinct = subst IsDistinct (sym rows) (fresh, h.distinct);
  }
]

-- The tables after a sequence of deliveries, each with what fails in it.
abbrev pub handle_all : Text → (Text → Option Text) → List (Luck × Event) → Db → Db
handle_all consumer decode [] db = db
handle_all consumer decode ((l, e) ∷ rest) db =
    handle_all consumer decode rest (handle consumer decode l e db).1

-- After any sequence of deliveries, with repetitions and failures of the database, the counts of
-- all tenants together are the number of events processed, and no event stands twice among those,
-- if that holds at the start.
pub handle_all-IsCounted :
    (consumer : Text) (decode : Text → Option Text) (ds : List (Luck × Event)) (db : Db)
    → IsCounted db
    → IsCounted (handle_all consumer decode ds db)
handle_all-IsCounted consumer decode [] db h = h
handle_all-IsCounted consumer decode ((l, e) ∷ rest) db h =
    handle_all-IsCounted consumer decode rest _ (handle-IsCounted consumer decode l e db h)
