-- ===== src/Events/Fate.antt =====
-- The fate of a delivery: what ends redelivery, and when.
use boilerplate_go_grpc_micr.Common.{
  ℕ, ◌≡◌, ◌≢◌, ◌≤◌, refl, sym, ◌∙◌, ◌⊎◌, inl, inr, ◌↔◌, Bool, true, false, ◌||◌, some, List, [],
  ◌∷◌, arith, leb, if◌then◌else◌, Bool-cases, contrary,
}
use boilerplate_go_grpc_micr.Common.Text.{Text}
use boilerplate_go_grpc_micr.Events.{
  Msg, Event, event_from, Handled, done, failing, permanently, Command, ack, nak, store_copy, term,
  dead_letter, dispatch,
}

-- The command by which the consumer ends the delivery of a message.
abbrev pub ends : Command → Bool
ends ack = true
ends nak = false
ends (store_copy _ _ _ _) = false
ends (term _) = true

abbrev pub ends_delivery : List Command → Bool
ends_delivery [] = false
ends_delivery (c ∷ cs) = ends c || ends_delivery cs

abbrev pub copies : List Command → Bool
copies [] = false
copies (store_copy _ _ _ _ ∷ cs) = true
copies (_ ∷ cs) = copies cs

-- The handler has given the message up: at its last delivery, or for good.
abbrev pub IsGivenUp : ℕ → Msg → Handled → Type 0
IsGivenUp max_deliver m done = ⊥
IsGivenUp max_deliver m (failing _) = max_deliver ≤ m.num_delivered
IsGivenUp max_deliver m (permanently _) = Unit

-- The commands for what the handler returned.
unfoldable pub decided : Text → ℕ → Bool → Msg → Handled → List Command
decided prefix max_deliver stored m done = ack ∷ []
decided prefix max_deliver stored m (permanently cause) =
    dead_letter prefix stored m (event_from m) cause
decided prefix max_deliver stored m (failing cause) =
    if leb max_deliver (event_from m).deliveries
    then dead_letter prefix stored m (event_from m) cause
    else nak ∷ []

abbrev Fate : ℕ → Msg → Bool → Handled → List Command → Type 0
Fate max_deliver m stored r cs =
    ((copies cs ≡ true) ↔ IsGivenUp max_deliver m r)
    × ((ends_delivery cs ≡ true) ↔ ((r ≡ done) ⊎ ((copies cs ≡ true) × (stored ≡ true))))

dead_letter-copies :
    (prefix : Text) (stored : Bool) (m : Msg) (e : Event) (cause : Text)
    → copies (dead_letter prefix stored m e cause) ≡ true
unfolding dead_letter
dead_letter-copies prefix stored m e cause = refl

dead_letter-ends :
    (prefix : Text) (stored : Bool) (m : Msg) (e : Event) (cause : Text)
    → ends_delivery (dead_letter prefix stored m e cause) ≡ stored
unfolding dead_letter
dead_letter-ends prefix true m e cause = refl
dead_letter-ends prefix false m e cause = refl

not_done : {r : Handled} {t : Text} → ((r ≡ failing t) ⊎ (r ≡ permanently t)) → ¬ (r ≡ done)
not_done (inl h) k = cc
not_done (inr h) k = cc

dead_letter-Fate :
    (prefix : Text) (max_deliver : ℕ) (stored : Bool) (m : Msg) (r : Handled) (cause : Text)
    → ((r ≡ failing cause) ⊎ (r ≡ permanently cause))
    → IsGivenUp max_deliver m r
    → Fate max_deliver m stored r (dead_letter prefix stored m (event_from m) cause)
dead_letter-Fate prefix max_deliver stored m r cause k given =
    let c = dead_letter-copies prefix stored m (event_from m) cause in
    let e = dead_letter-ends prefix stored m (event_from m) cause in
    (
      ((λ _. given), (λ _. c)),
      (
        (λ h. inr (c, sym e ∙ h)),
        (λ h. elim h [ inl d ↦ absurd (not_done k d) | inr (_, b) ↦ e ∙ b ]),
      ),
    )

decided-Fate :
    (prefix : Text) (max_deliver : ℕ) (stored : Bool) (m : Msg) (r : Handled)
    → Fate max_deliver m stored r (decided prefix max_deliver stored m r)
unfolding decided event_from
decided-Fate prefix max_deliver stored m done =
    (((λ h. absurd cc), (λ h. absurd h)), ((λ _. inl refl), (λ _. refl)))
decided-Fate prefix max_deliver stored m (permanently c) =
    dead_letter-Fate prefix max_deliver stored m (permanently c) c (inr refl) tt
decided-Fate prefix max_deliver stored m (failing c) =
    elim (Bool-cases (leb max_deliver (event_from m).deliveries)) [
      | inl b ↦
          rw b
            (dead_letter-Fate prefix max_deliver stored m (failing c) c (inl refl) (ground arith))
      | inr b ↦ rw b (
        ((λ h. absurd cc), (λ h. absurd (ground arith))),
        ((λ h. absurd cc), (λ h. elim h [ inl d ↦ absurd cc | inr (d, _) ↦ absurd cc ])),
      )
    ]

arms :
    (prefix : Text) (max_deliver : ℕ) (stored : Bool) (m : Msg) (r : Handled)
    → elim r [
      | done ↦ ack ∷ []
      | permanently cause ↦ dead_letter prefix stored m (event_from m) cause
      | failing cause ↦
          if leb max_deliver (event_from m).deliveries
          then dead_letter prefix stored m (event_from m) cause
          else nak ∷ []
    ]
      ≡ decided prefix max_deliver stored m r
unfolding decided
arms prefix max_deliver stored m done = refl
arms prefix max_deliver stored m (permanently c) = refl
arms prefix max_deliver stored m (failing c) = refl

pub dispatch-decided :
    (prefix : Text) (max_deliver : ℕ) (handler : Event → Handled) (stored : Bool) (m : Msg)
    → dispatch prefix max_deliver handler stored (some m)
      ≡ decided prefix max_deliver stored m (handler (event_from m))
unfolding dispatch
dispatch-decided prefix max_deliver handler stored m =
    arms prefix max_deliver stored m (handler (event_from m))

-- JetStream delivers a message again unless it is acked or terminated, or was delivered
-- `max_deliver` times.
abbrev pub IsOver : ℕ → Msg → List Command → Type 0
IsOver max_deliver m cs = (ends_delivery cs ≡ true) ⊎ (max_deliver ≤ m.num_delivered)

-- A message that was not handled comes no more, and no copy of it is stored.
abbrev pub IsLost : ℕ → Msg → Bool → Handled → List Command → Type 0
IsLost max_deliver m kept r cs =
    (r ≢ done) × IsOver max_deliver m cs × ¬ ((copies cs ≡ true) × (kept ≡ true))

copied_at_last :
    (max_deliver : ℕ) (m : Msg) (r : Handled)
    → r ≢ done
    → max_deliver ≤ m.num_delivered
    → IsGivenUp max_deliver m r
copied_at_last max_deliver m done fails last = absurd (fails refl)
copied_at_last max_deliver m (failing c) fails last = last
copied_at_last max_deliver m (permanently c) fails last = tt

Fate-IsLost :
    (max_deliver : ℕ) (m : Msg) (kept : Bool) (r : Handled) (cs : List Command)
    → Fate max_deliver m kept r cs
    → IsLost max_deliver m kept r cs
      ↔ ((r ≢ done) × (max_deliver ≤ m.num_delivered) × (kept ≡ false))
Fate-IsLost max_deliver m kept r cs (copied, ended) = (to, from)
  where
    not_kept : (b : Bool) → ¬ (b ≡ true) → b ≡ false
    not_kept true h = absurd (h refl)
    not_kept false h = refl

    to :
        IsLost max_deliver m kept r cs
        → (r ≢ done) × (max_deliver ≤ m.num_delivered) × (kept ≡ false)
    to (fails, inl e, uncopied) = elim (ended.0 e) [
      | inl d ↦ absurd (fails d)
      | inr c ↦ absurd (uncopied c)
    ]
    to (fails, inr last, uncopied) = (
      fails,
      last,
      not_kept kept (λ k. uncopied (copied.1 (copied_at_last max_deliver m r fails last), k)),
    )

    from :
        (r ≢ done) × (max_deliver ≤ m.num_delivered) × (kept ≡ false)
        → IsLost max_deliver m kept r cs
    from (fails, last, lacking) = (fails, inr last, (λ (_, k). contrary k lacking))

-- A dead letter is sent just for a message that its handler has given up: it failed for good, or
-- at the last delivery. The consumer acks or terminates a message just when the handler succeeded,
-- or a dead letter was sent and its copy stored. A message that was not handled is lost, with no
-- copy stored and no delivery to come, just when its copy cannot be stored at the last of the
-- deliveries that JetStream makes.
pub dispatch-Fate :
    (prefix : Text) (max_deliver : ℕ) (handler : Event → Handled) (stored : Bool) (m : Msg)
    → ((copies (dispatch prefix max_deliver handler stored (some m)) ≡ true)
        ↔ IsGivenUp max_deliver m (handler (event_from m)))
      × ((ends_delivery (dispatch prefix max_deliver handler stored (some m)) ≡ true) ↔ (
          (handler (event_from m) ≡ done)
          ⊎ ((copies (dispatch prefix max_deliver handler stored (some m)) ≡ true)
              × (stored ≡ true))))
      × (IsLost max_deliver m stored
            (handler (event_from m))
            (dispatch prefix max_deliver handler stored (some m))
          ↔ ((handler (event_from m) ≢ done) × (max_deliver ≤ m.num_delivered) × (stored ≡ false)))
dispatch-Fate prefix max_deliver handler stored m =
    rw (dispatch-decided prefix max_deliver handler stored m) (
      let fate = decided-Fate prefix max_deliver stored m (handler (event_from m)) in
      (
        fate.0,
        fate.1,
        Fate-IsLost max_deliver m stored (handler (event_from m))
            (decided prefix max_deliver stored m (handler (event_from m))) fate,
      ))
