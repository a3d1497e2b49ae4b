-- ===== src/Tests/Calls.antt =====
-- Calls of the order service, on concrete messages.
use boilerplate_go_grpc_micr.Common.{
  ◌+◌, ◌*◌, ◌/◌, ◌%◌, ◌≡◌, refl, false, Option, none, some, [], ◌∷◌, arith,
}
use boilerplate_go_grpc_micr.Common.Int.{pos, wrap64, tdiv, trem, ◌*ℤ◌, ◌+ℤ◌}
use boilerplate_go_grpc_micr.Common.Text.{codes, is_empty, text_eq}
use boilerplate_go_grpc_micr.Auth.{Context, tenant_from}
use boilerplate_go_grpc_micr.Order.Errors.{ok}
use boilerplate_go_grpc_micr.Order.Aggregate.{Order, Time}
use boilerplate_go_grpc_micr.Order.Memory
use boilerplate_go_grpc_micr.Order.Memory.{State, ports}
use boilerplate_go_grpc_micr.Failures
use boilerplate_go_grpc_micr.Failures.{Kind, Reason}
use boilerplate_go_grpc_micr.Grpc.{
  Timestamps, Stamp, WireMoney, WireItem, WireOrder, to_proto_order, from_proto_order,
  from_proto_items,
}
use boilerplate_go_grpc_micr.Grpc.RoundTrip.{from_proto_order-to_proto_order}
use boilerplate_go_grpc_micr.Grpc.Server.{
  CreateOrderRequest, domain, tenant_of, as_app_error, replied, refused, create_order, get_order,
}
use boilerplate_go_grpc_micr.Grpc.Calls.{IsFair, create_order-IsFair, get_order-create_order}
use boilerplate_go_grpc_micr.Order.Service
use boilerplate_go_grpc_micr.Order.Status
use boilerplate_go_grpc_micr.Order.Money
use boilerplate_go_grpc_micr.Order.Money.{valid_currency_code, all_upper}
use boilerplate_go_grpc_micr.Order.Aggregate
use boilerplate_go_grpc_micr.Order.Aggregate.{validate_order, compute_total}
use boilerplate_go_grpc_micr.Grpc
use boilerplate_go_grpc_micr.Tests.Orders.{sample, sample-valid}
use boilerplate_go_grpc_micr.Tests.Samples.{ascii, plain, book}

abbrev read_stamp : Option Stamp → Time
read_stamp none = 0
read_stamp (some (pos seconds, pos nanos)) = seconds * 1000000000 + nanos
read_stamp (some (_, _)) = 0

stamp_back : (t : Time) → read_stamp (some (pos (t / 1000000000), pos (t % 1000000000))) ≡ t
stamp_back t = omega arith

-- Seconds and nanoseconds since the earliest instant.
abbrev clock : Timestamps
clock = record {
  stamp = λ t. (pos (t / 1000000000), pos (t % 1000000000));
  as_time = read_stamp;
  as_time-stamp = stamp_back;
}

from_proto_order-to_proto_order_example :
    from_proto_order ⦃t = clock⦄ (some (to_proto_order ⦃t = clock⦄ sample)) ≡ ok sample
from_proto_order-to_proto_order_example =
    from_proto_order-to_proto_order ⦃c = ascii⦄ ⦃t = clock⦄ sample ((omega arith, omega arith), tt)
      sample-valid

abbrev ann : Context
ann = some (record {
  subject = codes "ann";
  tenant_id = codes "acme";
  scopes = codes "orders:write" ∷ [];
  is_service = false;
})

ann_tenant : tenant_from ann ≡ some (codes "acme")
unfolding tenant_from is_empty
ann_tenant = refl

-- A request with no items, and one for three books.
abbrev nothing : CreateOrderRequest
nothing = record { customer_id = codes "ann"; items = [] }

abbrev books : CreateOrderRequest
books = record {
  customer_id = codes "ann";
  items =
      some (record {
        sku = codes "book";
        quantity = pos 3;
        unit_price =
            some (record { currency_code = codes "USD"; units = pos 1; nanos = pos 500000000 });
      })
      ∷ [];
}

nothing-refused :
    (create_order ⦃t = clock⦄
      (ports ⦃k = plain⦄)
      ann
      ⦃c = ascii⦄
      nothing
      (ok (codes "o1"))
      10
      Memory.new).0
    ≡ refused (domain Kind.invalid_argument Reason.order_has_no_items)
unfolding create_order tenant_of tenant_from is_empty from_proto_items Service.create as_app_error
    Failures.domain_error_kind Failures.reason_for
nothing-refused = refl

create_order-IsFair_example :
    IsFair (domain Kind.invalid_argument Reason.order_has_no_items)
    × ((create_order ⦃t = clock⦄
          (ports ⦃k = plain⦄)
          ann
          ⦃c = ascii⦄
          nothing
          (ok (codes "o1"))
          10
          Memory.new).1
        ≡ Memory.new)
create_order-IsFair_example =
    create_order-IsFair ⦃c = ascii⦄ ⦃k = plain⦄ ⦃t = clock⦄ ann (codes "acme") nothing (codes "o1")
      10 Memory.new (domain Kind.invalid_argument Reason.order_has_no_items) ann_tenant
      nothing-refused

abbrev bought : Order
bought = record {
  id = codes "o1";
  tenant_id = codes "acme";
  customer_id = codes "ann";
  status = Status.pending;
  items = book ∷ [];
  total = record { currency_code = codes "USD"; units = pos 4; nanos = pos 500000000 };
  created_at = 10;
  updated_at = 10;
}

books_created :
    (create_order ⦃t = clock⦄
      (ports ⦃k = plain⦄)
      ann
      ⦃c = ascii⦄
      books
      (ok (codes "o1"))
      10
      Memory.new).0
    ≡ replied (to_proto_order ⦃t = clock⦄ bought)
unfolding create_order tenant_of tenant_from is_empty from_proto_items Grpc.from_proto_item
    Grpc.from_proto_money Service.create Service.create_tx Money.validate valid_currency_code
    all_upper Money.zero_money Money.add Money.combine Money.mul Money.mul_total
    Money.from_total_nanos Money.total_nanos Money.require_same_currency Money.sum_overflows
    Money.beyond_max Money.nanos_out_of_range Money.signs_disagree Money.is_negative validate_order
    compute_total Aggregate.validate_items Aggregate.validate_item Aggregate.add_lines
    Aggregate.line_total Aggregate.same_money Status.status_valid text_eq wrap64 tdiv trem ◌*ℤ◌ ◌+ℤ◌
    Memory.new Memory.in_tx Memory.create Memory.publish Memory.lookup Memory.insert
books_created = refl

get_order-create_order_example :
    let s' =
      (create_order ⦃t = clock⦄
        (ports ⦃k = plain⦄)
        ann
        ⦃c = ascii⦄
        books
        (ok (codes "o1"))
        10
        Memory.new).1 in
    get_order ⦃t = clock⦄ (ports ⦃k = plain⦄) ann (codes "o1") s'
    ≡ (replied (to_proto_order ⦃t = clock⦄ bought), s')
unfolding to_proto_order
get_order-create_order_example =
    get_order-create_order ⦃c = ascii⦄ ⦃k = plain⦄ ⦃t = clock⦄ ann books (ok (codes "o1")) 10
      Memory.new (to_proto_order ⦃t = clock⦄ bought) books_created
