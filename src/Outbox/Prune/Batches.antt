-- ===== src/Outbox/Prune/Batches.antt =====
-- What the batches delete, and that they come to an end.
use boilerplate_go_grpc_micr.Common.{
  ℕ, zero, suc, ◌+◌, ◌-◌, ◌<◌, ◌≡◌, refl, ap, sym, ◌∙◌, inl, inr, Bool, true, not, Option, some,
  List, [], ◌∷◌, ltb, if◌then◌else◌, length, keep, arith, Bool-cases, ltb→lt, All,
}
use boilerplate_go_grpc_micr.Outbox.{Table}
use boilerplate_go_grpc_micr.Outbox.Prune.{
  Turn, goes, interrupted, failing, uncounted, Deleted, delete_batch, delete_in_batches, Processed,
  prune, eligible, is_aged, is_forgotten, after_delete,
}

module _ {ℓ} {A : Type ℓ} (p : A → Bool) where
  -- A batch takes rows that qualify and no others, as many as it may.
  delete_batch-keeps :
      (limit : ℕ) (t : List A)
      → keep (λ r. not (p r)) (delete_batch p limit t).1 ≡ keep (λ r. not (p r)) t
  unfolding delete_batch
  delete_batch-keeps limit [] = refl
  delete_batch-keeps zero (r ∷ t) = refl
  delete_batch-keeps (suc limit) (r ∷ t) = elim (Bool-cases (p r)) [
    | inl e ↦ rw (e, delete_batch-keeps limit t)
    | inr e ↦ rw (e, e, delete_batch-keeps (suc limit) t)
  ]

  delete_batch-counts :
      (limit : ℕ) (t : List A)
      → (delete_batch p limit t).0 + length (keep p (delete_batch p limit t).1) ≡ length (keep p t)
  unfolding delete_batch
  delete_batch-counts limit [] = refl
  delete_batch-counts zero (r ∷ t) = omega arith
  delete_batch-counts (suc limit) (r ∷ t) = elim (Bool-cases (p r)) [
    | inl e ↦ rw e (omega (arith, delete_batch-counts limit t))
    | inr e ↦ rw (e, e) (omega (arith, delete_batch-counts (suc limit) t))
  ]

  -- A batch that is not full leaves no row that qualifies.
  delete_batch-short :
      (limit : ℕ) (t : List A)
      → (delete_batch p limit t).0 < limit
      → keep (λ r. not (p r)) t ≡ (delete_batch p limit t).1
  unfolding delete_batch
  delete_batch-short limit [] h = refl
  delete_batch-short zero (r ∷ t) h = absurd (omega arith)
  delete_batch-short (suc limit) (r ∷ t) h = elim (Bool-cases (p r)) [
    | inl e ↦ rw e (delete_batch-short limit t (omega (arith, rw e at h)))
    | inr e ↦ rw e (ap (λ (xs : List A). r ∷ xs) (delete_batch-short (suc limit) t (rw e at h)))
  ]

rows_of {ℓ} : {A : Type ℓ} {c d : Deleted A} → some c ≡ some d → c.rows ≡ d.rows
rows_of e = cc

module _ {ℓ} {A : Type ℓ} (p : A → Bool) (size : ℕ) (turn : ℕ → Turn) where
  -- A round keeps the rows that do not qualify, if what follows it does.
  after_delete-keeps :
      (u : Turn) (total : ℕ) (t spared : List A) (next : Option (Deleted A)) (d : Deleted A)
      → keep (λ r. not (p r)) spared ≡ keep (λ r. not (p r)) t
      → (next ≡ some d → keep (λ r. not (p r)) d.rows ≡ keep (λ r. not (p r)) t)
      → after_delete u total t spared next ≡ some d
      → keep (λ r. not (p r)) d.rows ≡ keep (λ r. not (p r)) t
  unfolding after_delete
  after_delete-keeps interrupted total t spared next d h k e = cc
  after_delete-keeps failing total t spared next d h k e = cc
  after_delete-keeps uncounted total t spared next d h k e = cc
  after_delete-keeps goes total t spared next d h k e = k e

  -- Whatever interrupts the loop, no row is gone but one that qualifies.
  pub delete_in_batches-keeps :
      (fuel round total : ℕ) (t : List A) (d : Deleted A)
      → delete_in_batches fuel p size turn round total t ≡ some d
      → keep (λ r. not (p r)) d.rows ≡ keep (λ r. not (p r)) t
  unfolding delete_in_batches
  delete_in_batches-keeps zero round total t d e = cc
  delete_in_batches-keeps (suc fuel) round total t d e =
      let b = delete_batch p size t in
      after_delete-keeps (turn round) total t b.1
        (if ltb b.0 size
          then some (record { succeeded = true; total = total + b.0; rows = b.1 })
          else delete_in_batches fuel p size turn (suc round) (total + b.0) b.1)
        d (delete_batch-keeps p size t)
        (λ k. elim (Bool-cases (ltb b.0 size)) [
          | inl short ↦ let last = rw short at k in cc (delete_batch-keeps p size t)
          | inr full ↦
              delete_in_batches-keeps fuel (suc round) (total + b.0) b.1 d (rw full at k)
              ∙ delete_batch-keeps p size t
        ])
        e

  -- Nothing is in what is left but rows of the table.
  delete_batch-All {κ} :
      (P : A → Type κ) (limit : ℕ) (t : List A) → All P t → All P (delete_batch p limit t).1
  unfolding delete_batch
  delete_batch-All P limit [] h = tt
  delete_batch-All P zero (r ∷ t) h = h
  delete_batch-All P (suc limit) (r ∷ t) h = elim (Bool-cases (p r)) [
    | inl e ↦ rw e (delete_batch-All P limit t h.1)
    | inr e ↦ rw e (h.0, delete_batch-All P (suc limit) t h.1)
  ]

  after_delete-All {κ} :
      (P : A → Type κ) (u : Turn) (total : ℕ) (t spared : List A) (next : Option (Deleted A))
      (d : Deleted A)
      → All P t
      → All P spared
      → (next ≡ some d → All P d.rows)
      → after_delete u total t spared next ≡ some d
      → All P d.rows
  unfolding after_delete
  after_delete-All P interrupted total t spared next d h k l e = rw (← rows_of e) h
  after_delete-All P failing total t spared next d h k l e = rw (← rows_of e) h
  after_delete-All P uncounted total t spared next d h k l e = rw (← rows_of e) k
  after_delete-All P goes total t spared next d h k l e = l e

  pub delete_in_batches-All {κ} :
      (P : A → Type κ) (fuel round total : ℕ) (t : List A) (d : Deleted A)
      → All P t
      → delete_in_batches fuel p size turn round total t ≡ some d
      → All P d.rows
  unfolding delete_in_batches
  delete_in_batches-All P zero round total t d h e = absurd cc
  delete_in_batches-All P (suc fuel) round total t d h e =
      let b = delete_batch p size t in
      after_delete-All P (turn round) total t b.1
        (if ltb b.0 size
          then some (record { succeeded = true; total = total + b.0; rows = b.1 })
          else delete_in_batches fuel p size turn (suc round) (total + b.0) b.1)
        d h (delete_batch-All P size t h)
        (λ k. elim (Bool-cases (ltb b.0 size)) [
          | inl short ↦ rw (← rows_of (rw short at k)) (delete_batch-All P size t h)
          | inr full ↦
              delete_in_batches-All P fuel (suc round) (total + b.0) b.1 d
                (delete_batch-All P size t h) (rw full at k)
        ])
        e

  none_left : (t : List A) → length (keep p (keep (λ r. not (p r)) t)) ≡ 0
  none_left [] = refl
  none_left (r ∷ t) = elim (Bool-cases (p r)) [
    | inl e ↦ rw e (none_left t)
    | inr e ↦ rw (e, e) (none_left t)
  ]

  Deleted-eq :
      {n k : ℕ} {t u : List A}
      → n ≡ k
      → t ≡ u
      → ◌≡◌ {A = Option (Deleted A)}
          (some (record { succeeded = true; total = n; rows = t }))
          (some (record { succeeded = true; total = k; rows = u }))
  Deleted-eq e h = cc

  -- A batch that is full takes at least one row, so the loop ends: with fuel for one round more
  -- than there are rows that qualify, and no disturbance, it deletes those rows, all of them and no
  -- others, and counts them.
  pub delete_in_batches-exact :
      (fuel round total : ℕ) (t : List A)
      → ((i : ℕ) → turn i ≡ goes)
      → 0 < size
      → length (keep p t) < fuel
      → delete_in_batches fuel p size turn round total t
        ≡ some (record {
          succeeded = true;
          total = total + length (keep p t);
          rows = keep (λ r. not (p r)) t;
        })
  unfolding delete_in_batches after_delete
  delete_in_batches-exact zero round total t calm pos enough = absurd (omega arith)
  delete_in_batches-exact (suc fuel) round total t calm pos enough =
      let b = delete_batch p size t in
      let counts = delete_batch-counts p size t in
      elim (Bool-cases (ltb b.0 size)) [
        | inl short ↦
            let spared = delete_batch-short p size t (ltb→lt _ _ short) in
            rw (calm round, after_delete, short)
              (Deleted-eq
                (omega (arith, counts, ap (λ (r : List A). length (keep p r)) spared, none_left t))
                (sym spared))
        | inr full ↦
            rw (calm round, after_delete, full)
              (delete_in_batches-exact fuel (suc round) (total + b.0) b.1 calm pos (ground arith)
                ∙ Deleted-eq (omega (arith, counts)) (delete_batch-keeps p size t))
      ]

module _ (size : ℕ) (turn turn' : ℕ → Turn) (now outbox_age processed_age : ℕ) where
  -- If nothing disturbs a prune whose batches are not empty, then with fuel for more rounds than
  -- there are rows to delete in either table it succeeds, reports exactly the two numbers that a
  -- dry run on the same tables at the same time reports, and keeps of each table the rows that are
  -- not old enough, in their order.
  pub prune-eligible :
      (fuel : ℕ) (t : Table) (ps : List Processed)
      → ((i : ℕ) → turn i ≡ goes)
      → ((i : ℕ) → turn' i ≡ goes)
      → 0 < size
      → (eligible now outbox_age processed_age t ps).0 < fuel
      → (eligible now outbox_age processed_age t ps).1 < fuel
      → prune fuel size turn turn' now outbox_age processed_age t ps
        ≡ some (record {
          succeeded = true;
          outbox = (eligible now outbox_age processed_age t ps).0;
          processed_events = (eligible now outbox_age processed_age t ps).1;
          table = keep (λ r. not (is_aged (now - outbox_age) r)) t;
          processed = keep (λ r. not (is_forgotten (now - processed_age) r)) ps;
        })
  unfolding prune eligible
  prune-eligible fuel t ps calm calm' pos h k =
      rw
        (
          delete_in_batches-exact (is_aged (now - outbox_age)) size turn fuel 0 0 t calm pos h,
          delete_in_batches-exact (is_forgotten (now - processed_age)) size turn' fuel 0 0 ps calm'
              pos k,
        )
        (ground arith)
