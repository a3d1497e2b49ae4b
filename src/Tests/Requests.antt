-- ===== src/Tests/Requests.antt =====
-- The service over the in-memory store, on concrete requests.
use boilerplate_go_grpc_micr.Common.{
  ℕ, ◌≡◌, refl, sym, inl, inr, false, List, [], ◌∷◌, arith, All, map, keep, length,
}
use mathlib.Core.Path.{subst}
use boilerplate_go_grpc_micr.Common.Int.{pos, wrap64, tdiv, trem, ◌*ℤ◌, ◌+ℤ◌}
use boilerplate_go_grpc_micr.Order.Memory.Map.{NoNul}
use boilerplate_go_grpc_micr.Common.Text.{Text, codes, is_empty, text_eq, text_lt}
use boilerplate_go_grpc_micr.Order.Errors.{ok}
use boilerplate_go_grpc_micr.Order.Money.{Money}
use boilerplate_go_grpc_micr.Order.Money
use boilerplate_go_grpc_micr.Order.Aggregate.{Order, validate_order, compute_total, cancel}
use boilerplate_go_grpc_micr.Order.Aggregate
use boilerplate_go_grpc_micr.Order.Status
use boilerplate_go_grpc_micr.Order.Memory
use boilerplate_go_grpc_micr.Order.Memory.{State, Entries, key, lookup, insert, ports, matches}
use boilerplate_go_grpc_micr.Order.Memory.Paging.{read_all, read_all-listing, listing, IsEncodable}
use boilerplate_go_grpc_micr.Order.Memory.Sorting.{AreComparable}
use boilerplate_go_grpc_micr.Order.Service
use boilerplate_go_grpc_micr.Order.Service.Creating.{Creates, create-Creates}
use boilerplate_go_grpc_micr.Order.Service.Cancelling.{CancelsOrder, cancel_order-CancelsOrder}
use boilerplate_go_grpc_micr.Order.Service.History.{
  serve_all, IsAccounted, serve_all-IsAccounted, get_own,
}
use boilerplate_go_grpc_micr.Tests.Samples.{ascii, plain, book, basket, story, all_orders}

-- The store after the sample requests.
abbrev final : State
final = serve_all ⦃c = ascii⦄ ⦃k = plain⦄ story Memory.new

create-Creates_example :
    Creates ⦃c = ascii⦄ basket
      (ok (codes "o4"))
      50
      final
      (Service.create (ports ⦃k = plain⦄) ⦃c = ascii⦄ basket (ok (codes "o4")) 50 final)
create-Creates_example = create-Creates ⦃c = ascii⦄ ⦃k = plain⦄ basket (ok (codes "o4")) 50 final

cancel_order-CancelsOrder_example :
    CancelsOrder
      (codes "acme")
      (codes "o2")
      60
      final
      (Service.cancel_order (ports ⦃k = plain⦄) (codes "acme") (codes "o2") 60 final)
cancel_order-CancelsOrder_example =
    cancel_order-CancelsOrder ⦃k = plain⦄ (codes "acme") (codes "o2") 60 final

serve_all-IsAccounted_example :
    IsAccounted ⦃c = ascii⦄ (serve_all ⦃c = ascii⦄ ⦃k = plain⦄ story Memory.new)
serve_all-IsAccounted_example = serve_all-IsAccounted ⦃c = ascii⦄ ⦃k = plain⦄ story

-- Three orders and four events; the second order is there.
abbrev second : Order
second = record {
  id = codes "o2";
  tenant_id = codes "acme";
  customer_id = codes "ann";
  status = Status.pending;
  items = book ∷ [];
  total = record { currency_code = codes "USD"; units = pos 4; nanos = pos 500000000 };
  created_at = 20;
  updated_at = 20;
}

-- No tenant of the store has a NUL byte in its name.
final_lem :
    (length final.orders ≡ 3)
    × (length final.events ≡ 4)
    × ((Service.get (ports ⦃k = plain⦄) (codes "acme") (codes "o2") final).0 ≡ ok second)
    × (map (λ e. (e.1).tenant_id) final.orders ≡ codes "acme" ∷ codes "acme" ∷ codes "acme" ∷ [])
unfolding Service.create Service.cancel_order Service.get Service.create_tx Service.cancel_tx
    Memory.create Memory.get Memory.update Memory.publish Memory.in_tx Memory.new lookup insert key
    text_eq is_empty Money.validate Money.valid_currency_code Money.all_upper Money.normalized
    Money.agree Money.zero_money Money.add Money.combine Money.mul Money.mul_total
    Money.from_total_nanos Money.total_nanos Money.require_same_currency Money.sum_overflows
    Money.beyond_max Money.nanos_out_of_range Money.signs_disagree Money.is_negative validate_order
    compute_total cancel Aggregate.validate_items Aggregate.validate_item Aggregate.add_lines
    Aggregate.line_total Aggregate.same_money Status.status_valid Status.can_transition_to wrap64
    tdiv trem ◌*ℤ◌ ◌+ℤ◌
final_lem = (refl, refl, refl, refl)

pub acme-NoNul : NoNul (codes "acme")
acme-NoNul =
    ((λ e. ground arith), ((λ e. ground arith), ((λ e. ground arith), ((λ e. ground arith), tt))))

tenants-NoNul :
    (d : Entries) → All NoNul (map (λ e. (e.1).tenant_id) d) → All (λ e. NoNul (e.1).tenant_id) d
tenants-NoNul [] h = tt
tenants-NoNul (e ∷ d) (h, hs) = (h, tenants-NoNul d hs)

get_own_example :
    (second.tenant_id ≡ codes "acme")
    × (second.id ≡ codes "o2")
    × (validate_order ⦃c = ascii⦄ second ≡ ok tt)
get_own_example =
    get_own ⦃c = ascii⦄ ⦃k = plain⦄ story (codes "acme") (codes "o2") acme-NoNul
      (tenants-NoNul final.orders
        (subst (All NoNul) (sym (final_lem.3)) (acme-NoNul, (acme-NoNul, (acme-NoNul, tt)))))
      (final_lem.2)

acme-given : is_empty (codes "acme") ≡ false
unfolding is_empty
acme-given = refl

-- A store of three orders, two of them made at one instant.
abbrev order_at : Text → ℕ → Order
order_at id at = record second { id = id; created_at = at }

abbrev shelf : State
shelf = record {
  orders =
      (key (codes "acme") (codes "c"), order_at (codes "c") 7)
      ∷ (key (codes "acme") (codes "a"), order_at (codes "a") 9)
      ∷ (key (codes "acme") (codes "b"), order_at (codes "b") 7)
      ∷ [];
  events = [];
}

abbrev shelved : List Order
shelved = order_at (codes "b") 7 ∷ order_at (codes "c") 7 ∷ order_at (codes "a") 9 ∷ []

shelf-listing : listing (codes "acme") all_orders shelf ≡ shelved
unfolding Memory.sorted Memory.insert_sorted Memory.less matches text_eq text_lt is_empty
shelf-listing = refl

shelf-AreComparable :
    AreComparable (keep (matches (codes "acme") all_orders) (map (λ e. e.1) shelf.orders))
unfolding Memory.less matches text_eq text_lt is_empty
shelf-AreComparable = ((inl refl, (inr refl, tt)), ((inr refl, tt), (tt, tt)))

shelved-IsEncodable : All (IsEncodable ⦃k = plain⦄) shelved
unfolding is_empty
shelved-IsEncodable = ((refl, refl), ((refl, refl), ((refl, refl), tt)))

read_all-listing_example :
    read_all ⦃k = plain⦄ 4 (codes "acme") all_orders shelf
    ≡ ok (listing (codes "acme") all_orders shelf)
read_all-listing_example =
    read_all-listing ⦃k = plain⦄ (codes "acme") shelf acme-given 4 all_orders refl
      shelf-AreComparable
      (subst (All (IsEncodable ⦃k = plain⦄)) (sym shelf-listing) shelved-IsEncodable)
      (rw shelf-listing (omega arith))
