-- ===== src/Events/Subjects.antt =====
-- Subjects are made of legal tokens.
use boilerplate_go_grpc_micr.Common.{
  ◌≡◌, refl, Bool, true, false, none, some, [], ◌∷◌, ◌++◌, arith, Bool-cases, inl, inr,
}
use boilerplate_go_grpc_micr.Common.Text.{Text}
use boilerplate_go_grpc_micr.Events.{tokens_from, valid_tokens, subject}

tokens_from-dot :
    (fresh : Bool) (s t : Text)
    → tokens_from fresh s ≡ true
    → tokens_from true t ≡ true
    → tokens_from fresh (s ++ b'.' ∷ t) ≡ true
unfolding tokens_from
tokens_from-dot fresh [] t h k = ground arith
tokens_from-dot fresh (b ∷ s) t h k =
    ground (arith, tokens_from-dot true s t, tokens_from-dot false s t)

none-some : {s : Text} → ¬ (none ≡ some s)
none-some e = cc

same_some : {s t : Text} → some s ≡ some t → s ≡ t
same_some e = cc

-- The subject built for an event is the prefix, a dot and the event's type, and every token of it
-- is legal again: it has no wildcard, no space and no empty token.
subject-valid :
    (prefix event_type : Text) {s : Text}
    → subject prefix event_type ≡ some s
    → (s ≡ prefix ++ b'.' ∷ event_type) × (valid_tokens s ≡ true)
unfolding subject valid_tokens
subject-valid prefix event_type {s} e = elim (Bool-cases (tokens_from true prefix)) [
  | inr p ↦ absurd (none-some (rw p at e))
  | inl p ↦ elim (Bool-cases (tokens_from true event_type)) [
    | inr t ↦ absurd (none-some (rw (p, t) at e))
    | inl t ↦
        let same = rw (p, t) at e in
        rw⁻¹ (same_some same) (refl, tokens_from-dot true prefix event_type p t)
  ]
]
