-- ===== src/Config/DeadLetters.antt =====
-- The dead letters of an accepted configuration never come back.
use boilerplate_go_grpc_micr.Common.{
  ℕ, ◌≡◌, refl, ◌⊎◌, inl, inr, Bool, true, false, ◌||◌, Option, none, some, [], ◌∷◌, ◌++◌, ◌==◌,
  All, Bool-cases, contrary, arith, and-eq-true, leb,
}
use boilerplate_go_grpc_micr.Common.Text.{Text, is_empty, text_eq, text_eq→eq}
use boilerplate_go_grpc_micr.Events.{
  Msg, Event, event_from, Handled, done, failing, permanently, Command, ack, nak, store_copy, term,
  dead_letter, dispatch,
}
use boilerplate_go_grpc_micr.Auth.{Strings}
use boilerplate_go_grpc_micr.Config.{
  Config, has_prefix, prefixed, validate_nats, validate_config, append-nil_parts, when-nil,
}
use boilerplate_go_grpc_micr.Config.Production.{validate_config-IsAccepted}
use boilerplate_go_grpc_micr.Events.Fate.{decided, dispatch-decided}

-- Of two prefixes of a text, one is a prefix of the other.
prefixes_nest :
    (a b l : Text)
    → has_prefix a l ≡ true
    → has_prefix b l ≡ true
    → (has_prefix a b ≡ true) ⊎ (has_prefix b a ≡ true)
unfolding has_prefix
prefixes_nest [] b l h k = inl refl
prefixes_nest (x ∷ a) [] l h k = inr refl
prefixes_nest (x ∷ a) (y ∷ b) [] h k = cc
prefixes_nest (x ∷ a) (y ∷ b) (z ∷ l) h k =
    let (xz, h') = and-eq-true (x == z) (has_prefix a l) h in
    let (yz, k') = and-eq-true (y == z) (has_prefix b l) k in
    elim (prefixes_nest a b l h' k') [ inl r ↦ inl (ground arith) | inr r ↦ inr (ground arith) ]

has_prefix-dot : (q rest : Text) → has_prefix (q ++ b'.' ∷ []) (q ++ b'.' ∷ rest) ≡ true
unfolding has_prefix
has_prefix-dot [] rest = refl
has_prefix-dot (c ∷ q) rest = ground (arith, has_prefix-dot q rest)

-- A prefix with a dot at its end, of another: the texts are equal, or the first is inside the
-- second.
dotted : (p q : Text) → has_prefix (p ++ b'.' ∷ []) (q ++ b'.' ∷ []) ≡ true → prefixed q p ≡ true
unfolding prefixed has_prefix text_eq
dotted [] [] h = refl
dotted [] (y ∷ q) h = h
dotted (x ∷ []) [] h = absurd (ground arith)
dotted (x ∷ z ∷ p) [] h = absurd (ground arith)
dotted (x ∷ p) (y ∷ q) h = ground (arith, dotted p q)

or_true : (a b : Bool) → b ≡ true → (a || b) ≡ true
or_true true b h = refl
or_true false b h = h

-- Neither prefix inside the other: nothing that is sent under one is read under the other.
apart :
    (p q rest : Text)
    → prefixed q p ≡ false
    → prefixed p q ≡ false
    → prefixed (q ++ b'.' ∷ rest) p ≡ false
unfolding prefixed
apart p q rest h k = elim (Bool-cases (text_eq (q ++ b'.' ∷ rest) p)) [
  | inl e ↦ absurd (contrary (inside (text_eq→eq _ _ e)) k)
  | inr e ↦ elim (Bool-cases (has_prefix (p ++ b'.' ∷ []) (q ++ b'.' ∷ rest))) [
    | inl f ↦ elim (prefixes_nest _ _ _ f (has_prefix-dot q rest)) [
      | inl a ↦ absurd (contrary (dotted p q a) h)
      | inr b ↦ absurd (contrary (dotted q p b) k)
    ]
    | inr f ↦ rw (e, f)
  ]
]
  where
    inside : q ++ b'.' ∷ rest ≡ p → prefixed p q ≡ true
    inside e = rw (← e) (or_true _ _ (has_prefix-dot q rest))

-- The consumer's filter takes no copy that a list of commands stores.
abbrev pub IsUnread : Text → Command → Type 0
IsUnread prefix (store_copy subject _ _ _) = prefixed subject prefix ≡ false
IsUnread prefix ack = Unit
IsUnread prefix nak = Unit
IsUnread prefix (term _) = Unit

module _ (prefix dlq : Text) (h : prefixed dlq prefix ≡ false)
    (k : prefixed prefix dlq ≡ false) where
  dead_letter_apart :
      (stored : Bool) (m : Msg) (e : Event) (cause : Text)
      → All (IsUnread prefix) (dead_letter dlq stored m e cause)
  unfolding dead_letter
  dead_letter_apart true m e cause = (apart prefix dlq m.subject h k, (tt, tt))
  dead_letter_apart false m e cause = (apart prefix dlq m.subject h k, (tt, tt))

  decided_apart :
      (max_deliver : ℕ) (stored : Bool) (m : Msg) (r : Handled)
      → All (IsUnread prefix) (decided dlq max_deliver stored m r)
  unfolding decided
  decided_apart max_deliver stored m done = (tt, tt)
  decided_apart max_deliver stored m (permanently c) = dead_letter_apart stored m (event_from m) c
  decided_apart max_deliver stored m (failing c) =
      elim (Bool-cases (leb max_deliver (event_from m).deliveries)) [
        | inl b ↦ rw b (dead_letter_apart stored m (event_from m) c)
        | inr b ↦ rw b (tt, tt)
      ]

  dispatch_apart :
      (max_deliver : ℕ) (handler : Event → Handled) (stored : Bool) (m : Option Msg)
      → All (IsUnread prefix) (dispatch dlq max_deliver handler stored m)
  unfolding dispatch
  dispatch_apart max_deliver handler stored none = tt
  dispatch_apart max_deliver handler stored (some m) =
      rw (dispatch-decided dlq max_deliver handler stored m)
        (decided_apart max_deliver stored m (handler (event_from m)))

module _ ⦃s : Strings⦄ where
  dlq_outside :
      (c : Config)
      → is_empty c.nats.url ≡ false
      → validate_nats c ≡ []
      → prefixed c.nats.dlq_subject_prefix c.nats.subject_prefix ≡ false
  unfolding validate_nats
  dlq_outside c url h =
      let (_, rest) = append-nil_parts _ _ (rw url at h) in
      let (a, _) = append-nil_parts _ _ rest in when-nil _ _ a

  -- If a configuration with a broker is accepted, and the prefix of its subjects is not inside that
  -- of its dead letters, then the consumer's own filter takes none of the dead letters that a
  -- dispatch sends, whatever the message, the handler and the broker do.
  pub dispatch-IsUnread :
      (c : Config) (max_deliver : ℕ) (handler : Event → Handled) (stored : Bool) (m : Option Msg)
      → validate_config c ≡ []
      → is_empty c.nats.url ≡ false
      → prefixed c.nats.subject_prefix c.nats.dlq_subject_prefix ≡ false
      → All
          (IsUnread c.nats.subject_prefix)
          (dispatch c.nats.dlq_subject_prefix max_deliver handler stored m)
  dispatch-IsUnread c max_deliver handler stored m h url outside =
      dispatch_apart c.nats.subject_prefix c.nats.dlq_subject_prefix
        (dlq_outside c url (validate_config-IsAccepted c h).nats) outside max_deliver handler stored
        m
