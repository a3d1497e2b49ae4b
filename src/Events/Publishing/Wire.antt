-- ===== src/Events/Publishing/Wire.antt =====
-- What a consumer reads of a message that the relay published.
use boilerplate_go_grpc_micr.Common.{
  ℕ, ◌≡◌, refl, ap, sym, ◌↔◌, Bool, true, false, none, some, [], ◌∷◌, if◌then◌else◌,
}
use mathlib.Core.Path.{subst}
use boilerplate_go_grpc_micr.Common.Text.{Text, is_empty}
use boilerplate_go_grpc_micr.Outbox.{Row, accepted}
use boilerplate_go_grpc_micr.Events.{Msg, event_from, subject}
use boilerplate_go_grpc_micr.Events.Publishing.{
  TimeFormat, Message, Reply, stored, max_payload, bad_subject, other, message_id, message_on,
  answer_of, publish, publish_on,
}

-- The broker delivers headers and data as they were published; `Get` of a header that is not set
-- is the empty text.
pub record Carries ⦃t : TimeFormat⦄ (w : Message) (m : Msg) : Type 0 where
  pub on_subject : m.subject ≡ w.subject_name
  pub with_body : m.body ≡ w.body
  pub with_id : m.msg_id ≡ w.message_id_header
  pub with_tenant : m.tenant_id ≡ w.tenant_id_header
  pub with_type : m.event_type ≡ w.event_type_header
  pub with_aggregate : m.aggregate_id ≡ w.aggregate_id_header
  pub with_time : m.occurred_at ≡ t.parse w.occurred_at_header
  pub with_trace : m.trace_parent ≡ elim w.trace_parent_header [ none ↦ [] | some p ↦ p ]

message_id-is_empty : (service : Text) (id : ℕ) → is_empty (message_id service id) ≡ false
unfolding message_id is_empty
message_id-is_empty [] id = refl
message_id-is_empty (c ∷ service) id = refl

trace_kept : (p : Text) → elim (if is_empty p then none else some p) [ none ↦ [] | some q ↦ q ] ≡ p
unfolding is_empty
trace_kept [] = refl
trace_kept (c ∷ p) = refl

-- A consumer reads the row's event.
event_from-message_on :
    ⦃t : TimeFormat⦄ (service name : Text) (r : Row) (m : Msg)
    → t.in_layout_years r.occurred_at ≡ true
    → Carries (message_on service name r) m
    → event_from m ≡ record {
      id = message_id service r.id;
      tenant_id = r.tenant_id;
      event_type = r.event_type;
      aggregate_id = r.aggregate_id;
      payload = r.payload;
      occurred_at = r.occurred_at;
      deliveries = m.num_delivered;
      trace_parent = r.trace_parent;
    }
unfolding event_from message_on
event_from-message_on ⦃t⦄ service name r m years h =
    rw
      (
        h.with_id,
        message_id-is_empty service r.id,
        h.with_tenant,
        h.with_type,
        h.with_aggregate,
        h.with_body,
        h.with_time,
        t.parse-format r.occurred_at years,
        h.with_trace,
        trace_kept r.trace_parent,
      )
      refl

accepted_iff :
    (x : Reply) → (answer_of x ≡ accepted) ↔ ((duplicate : Bool) × (x ≡ stored duplicate))
unfolding answer_of
accepted_iff (stored d) = ((λ _. (d, refl)), (λ _. refl))
accepted_iff (max_payload c) = ((λ h. absurd cc), (λ (d, h). absurd cc))
accepted_iff (bad_subject c) = ((λ h. absurd cc), (λ (d, h). absurd cc))
accepted_iff (other c) = ((λ h. absurd cc), (λ (d, h). absurd cc))

-- If the type of a row's event makes a subject, and the event is of the years 0 to 9999, then
-- `Publish` succeeds just when the broker acknowledges the one message on that subject, as new or
-- as a duplicate; and a consumer that is delivered this message reads the row's event, under the id
-- of the row and the service, whatever the broker noted of the message itself.
pub event_from-publish :
    ⦃t : TimeFormat⦄ (service prefix complaint name : Text) (broker : Message → Reply) (r : Row)
    (m : Msg)
    → subject prefix r.event_type ≡ some name
    → t.in_layout_years r.occurred_at ≡ true
    → Carries (message_on service name r) m
    → ((publish service prefix complaint broker r ≡ accepted)
        ↔ ((duplicate : Bool) × (broker (message_on service name r) ≡ stored duplicate)))
      × (event_from m ≡ record {
        id = message_id service r.id;
        tenant_id = r.tenant_id;
        event_type = r.event_type;
        aggregate_id = r.aggregate_id;
        payload = r.payload;
        occurred_at = r.occurred_at;
        deliveries = m.num_delivered;
        trace_parent = r.trace_parent;
      })
unfolding publish publish_on
event_from-publish service prefix complaint name broker r m on years h = (
  subst
      (λ x.
        (x ≡ accepted)
        ↔ ((duplicate : Bool) × (broker (message_on service name r) ≡ stored duplicate)))
      (sym (ap (λ x. publish_on service x complaint broker r) on))
      (accepted_iff (broker (message_on service name r))),
  event_from-message_on service name r m years h,
)
