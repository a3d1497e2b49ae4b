-- ===== src/Tests/Orders.antt =====
-- Amounts, items and orders, on concrete values.
use boilerplate_go_grpc_micr.Common.{◌≡◌, ◌⊎◌, refl, inr, true, [], ◌∷◌, arith, All}
use boilerplate_go_grpc_micr.Common.Int.{pos, negsuc, wrap64, tdiv, trem, ◌*ℤ◌, ◌+ℤ◌, ◌-ℤ◌}
use boilerplate_go_grpc_micr.Common.Text.{codes, is_empty, text_eq}
use boilerplate_go_grpc_micr.Order.Errors.{ok}
use boilerplate_go_grpc_micr.Order.Money.{
  Money, Casing, valid_currency_code, all_upper, add, sub, mul, new_money, validate, compare_money,
}
use boilerplate_go_grpc_micr.Order.Money
use boilerplate_go_grpc_micr.Order.Aggregate
use boilerplate_go_grpc_micr.Order.Money.Bounds.{IsAmount, value, Exact}
use boilerplate_go_grpc_micr.Order.Money.Exact.{add-sub-Exact}
use boilerplate_go_grpc_micr.Order.Money.Product.{mul-Exact}
use boilerplate_go_grpc_micr.Order.Money.Construct.{new_money-Exact, requested}
use boilerplate_go_grpc_micr.Order.Status.{Status, pending, confirmed, status_valid}
use boilerplate_go_grpc_micr.Order.Aggregate.{Order, compute_total, validate_order, cancel}
use boilerplate_go_grpc_micr.Order.Aggregate.Items.{IsItem}
use boilerplate_go_grpc_micr.Order.Aggregate.Totals.{IsPricedIn, dues}
use boilerplate_go_grpc_micr.Order.Aggregate.Orders.{validate_order-total}
use boilerplate_go_grpc_micr.Tests.Samples.{ascii, price, debt, price-IsAmount, debt-IsAmount, book}

add-sub-Exact_example :
    Exact (codes "USD") (value price +ℤ value debt) (add price debt)
    × Exact (codes "USD") (value price -ℤ value debt) (sub price debt)
add-sub-Exact_example = add-sub-Exact price debt price-IsAmount debt-IsAmount refl

dollars : valid_currency_code (codes "USD") ≡ true
unfolding valid_currency_code all_upper
dollars = refl

mul-Exact_example : Exact (codes "USD") (value price *ℤ negsuc 6) (mul ⦃c = ascii⦄ price (negsuc 6))
mul-Exact_example =
    mul-Exact ⦃c = ascii⦄ price (negsuc 6) price-IsAmount dollars (omega arith, omega arith)

new_money-Exact_example :
    Exact
      (codes "USD")
      (requested (pos 2) (negsuc 1999999999))
      (new_money ⦃c = ascii⦄ (codes "usd") (pos 2) (negsuc 1999999999))
new_money-Exact_example =
    new_money-Exact ⦃c = ascii⦄ (codes "usd") (pos 2) (negsuc 1999999999) dollars
      (omega arith, omega arith) (omega arith, omega arith)

book-IsItem : IsItem book
unfolding is_empty
book-IsItem = record {
  sku_given = refl;
  sku_short = omega arith;
  quantity_positive = (omega arith, refl);
  currency_valid = dollars;
  price_canonical = price-IsAmount;
  price_nonneg = (refl, refl);
}

book-IsPriced : IsPricedIn (codes "USD") book
book-IsPriced = ((book-IsItem, (omega arith, omega arith)), refl)

abbrev pub sample : Order
sample = record {
  id = codes "o2";
  tenant_id = codes "acme";
  customer_id = codes "ann";
  status = pending;
  items = book ∷ [];
  total = record { currency_code = codes "USD"; units = pos 4; nanos = pos 500000000 };
  created_at = 20;
  updated_at = 20;
}

confirmed-known : (confirmed ≡ Status.unspecified) ⊎ (status_valid confirmed ≡ true)
unfolding status_valid
confirmed-known = inr refl

pub sample-valid : validate_order ⦃c = ascii⦄ sample ≡ ok tt
unfolding Money.validate valid_currency_code all_upper Money.zero_money Money.add Money.combine
    Money.mul Money.mul_total Money.from_total_nanos Money.total_nanos Money.require_same_currency
    Money.sum_overflows Money.beyond_max Money.nanos_out_of_range Money.signs_disagree
    Money.is_negative validate_order compute_total Aggregate.validate_items Aggregate.validate_item
    Aggregate.add_lines Aggregate.line_total Aggregate.same_money status_valid is_empty text_eq
    wrap64 tdiv trem ◌*ℤ◌ ◌+ℤ◌
sample-valid = refl

validate_order-total_example :
    All (IsPricedIn (codes "USD")) (book ∷ [])
    × (value sample.total ≡ pos (dues (book ∷ [])))
    × IsAmount sample.total
validate_order-total_example =
    validate_order-total ⦃c = ascii⦄ sample ((omega arith, omega arith), tt) sample-valid
