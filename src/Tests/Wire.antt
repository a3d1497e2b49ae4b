-- ===== src/Tests/Wire.antt =====
-- The publisher and the consumer at the two ends of the broker, on one row.
use boilerplate_go_grpc_micr.Common.{ℕ, ◌≡◌, refl, ◌↔◌, Bool, true, none, some, [], ◌∷◌}
use boilerplate_go_grpc_micr.Common.Text.{codes, is_empty}
use boilerplate_go_grpc_micr.Events.{
  Msg, event_from, subject, valid_tokens, tokens_from, token_byte,
}
use boilerplate_go_grpc_micr.Outbox.{accepted}
use boilerplate_go_grpc_micr.Events.Publishing.{
  TimeFormat, Message, Reply, other, stored, digits, decimal, message_id, message_on, publish,
}
use boilerplate_go_grpc_micr.Events.Publishing.Wire.{event_from-publish}
use boilerplate_go_grpc_micr.Tests.Messages.{row}

-- An instant as a text of one character.
abbrev one_letter : TimeFormat
one_letter = record {
  format = λ t. t ∷ [];
  parse = λ s. elim s [ [] ↦ none | (t ∷ _) ↦ some t ];
  in_layout_years = λ _. true;
  parse-format = λ t _. refl;
}

abbrev delivered : Msg
delivered = record {
  subject = codes "events.order.v1.OrderCreated";
  msg_id = codes "orders-12";
  tenant_id = codes "acme";
  event_type = codes "order.v1.OrderCreated";
  aggregate_id = codes "o";
  trace_parent = [];
  body = [];
  occurred_at = some 5;
  stored_at = 6;
  sequence_id = codes "EVENTS-seq-1";
  num_delivered = 2;
}

abbrev published : Message
published =
    message_on ⦃t = one_letter⦄ (codes "orders") (codes "events.order.v1.OrderCreated") (row 12)

abbrev full_stream : Message → Reply
full_stream w = other (codes "no space")

on_subject_lem :
    subject (codes "events") (codes "order.v1.OrderCreated")
    ≡ some (codes "events.order.v1.OrderCreated")
unfolding subject valid_tokens tokens_from token_byte
on_subject_lem = refl

event_from-publish_example :
    ((publish ⦃t = one_letter⦄ (codes "orders") (codes "events") [] full_stream (row 12) ≡ accepted)
      ↔ ((duplicate : Bool) × (full_stream published ≡ stored duplicate)))
    × (event_from delivered ≡ record {
      id = message_id (codes "orders") 12;
      tenant_id = codes "acme";
      event_type = codes "order.v1.OrderCreated";
      aggregate_id = codes "o";
      payload = [];
      occurred_at = 5;
      deliveries = 2;
      trace_parent = [];
    })
unfolding message_on message_id decimal digits is_empty
event_from-publish_example =
    event_from-publish ⦃t = one_letter⦄ (codes "orders") (codes "events") []
      (codes "events.order.v1.OrderCreated") full_stream (row 12) delivered on_subject_lem refl
      (record {
        on_subject = refl;
        with_body = refl;
        with_id = refl;
        with_tenant = refl;
        with_type = refl;
        with_aggregate = refl;
        with_time = refl;
        with_trace = refl;
      })

abbrev twelve : ℕ
twelve = 12
