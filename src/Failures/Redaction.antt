-- ===== src/Failures/Redaction.antt =====
-- What a client cannot learn.
use boilerplate_go_grpc_micr.Common.{
  ◌≡◌, ap, sym, ◌∙◌, inl, inr, Bool, true, false, none, some, Bool-cases,
}
use boilerplate_go_grpc_micr.Common.Text.{Text}
use boilerplate_go_grpc_micr.Failures.{
  AppError, Failure, from_chain, classify, client_message, redacts, status_of, to_status,
  is_canceled, is_deadline,
}

app_status :
    (attaches : Bool) (where_from : Text) (f : Failure) (e : AppError)
    → from_chain f.chain ≡ some e
    → to_status attaches where_from (some f) ≡ status_of attaches where_from e
unfolding to_status
app_status attaches where_from f e p =
    ap
      (λ m. elim m [
        | some x ↦ status_of attaches where_from x
        | none ↦ status_of attaches where_from (classify f)
      ])
      p

plain_status :
    (attaches : Bool) (where_from : Text) (f : Failure)
    → from_chain f.chain ≡ none
    → to_status attaches where_from (some f) ≡ status_of attaches where_from (classify f)
unfolding to_status
plain_status attaches where_from f p =
    ap
      (λ m. elim m [
        | some x ↦ status_of attaches where_from x
        | none ↦ status_of attaches where_from (classify f)
      ])
      p

status_of-redacts :
    (attaches : Bool) (where_from : Text) (e e' : AppError)
    → redacts e.kind ≡ true
    → e.kind ≡ e'.kind
    → e.reason ≡ e'.reason
    → e.details ≡ e'.details
    → status_of attaches where_from e ≡ status_of attaches where_from e'
unfolding status_of client_message
status_of-redacts attaches where_from e e' r k s d =
    let r' : redacts e'.kind ≡ true = sym (ap redacts k) ∙ r in
    elim (Bool-cases attaches) [ inl b ↦ rw (b, r, r', k, s, d) | inr b ↦ rw (b, r, r', k) ]

-- Two errors of one kind that redacts, with the same reason and details, look the same to a client:
-- whatever their messages, their metadata and the errors they wrap.
to_status-redacts :
    (attaches : Bool) (where_from : Text) (f g : Failure) (e e' : AppError)
    → from_chain f.chain ≡ some e
    → from_chain g.chain ≡ some e'
    → redacts e.kind ≡ true
    → e.kind ≡ e'.kind
    → e.reason ≡ e'.reason
    → e.details ≡ e'.details
    → to_status attaches where_from (some f) ≡ to_status attaches where_from (some g)
unfolding to_status status_of client_message
to_status-redacts attaches where_from f g e e' p q r k s d =
    app_status attaches where_from f e p
    ∙ status_of-redacts attaches where_from e e' r k s d
    ∙ sym (app_status attaches where_from g e' q)

-- Two errors that nothing in their chains classifies look the same to a client, whatever their
-- texts.
to_status-unclassified :
    (attaches : Bool) (where_from : Text) (f g : Failure)
    → from_chain f.chain ≡ none
    → from_chain g.chain ≡ none
    → is_canceled f.chain ≡ false
    → is_canceled g.chain ≡ false
    → is_deadline f.chain ≡ false
    → is_deadline g.chain ≡ false
    → to_status attaches where_from (some f) ≡ to_status attaches where_from (some g)
unfolding to_status status_of client_message classify redacts
to_status-unclassified attaches where_from f g p q a b c d =
    plain_status attaches where_from f p
    ∙ status_of-redacts attaches where_from (classify f) (classify g) (rw (a, c)) (rw (a, c, b, d))
        (rw (a, c, b, d)) (rw (a, c, b, d))
    ∙ sym (plain_status attaches where_from g q)
