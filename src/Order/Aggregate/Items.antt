-- ===== src/Order/Aggregate/Items.antt =====
-- What a valid item is.
use boilerplate_go_grpc_micr.Common.{
  ◌≤◌, ◌<◌, ◌≡◌, refl, ◌↔◌, true, false, arith, length, List, [], ◌∷◌, All,
}
use boilerplate_go_grpc_micr.Common.Int.{ℤ, pos, pos_part, neg_part, ltb_ℤ}
use boilerplate_go_grpc_micr.Common.Text.{is_empty}
use boilerplate_go_grpc_micr.Order.Errors.{ok}
use boilerplate_go_grpc_micr.Order.Money.{Money, valid_currency_code, is_negative}
use boilerplate_go_grpc_micr.Order.Money.Bounds.{IsAmount}
use boilerplate_go_grpc_micr.Order.Money.Construct.{validate_iff}
use boilerplate_go_grpc_micr.Order.Aggregate.{Item, validate_item, validate_items}

pub record IsItem (i : Item) : Type 0 where
  pub sku_given : is_empty i.sku ≡ false
  pub sku_short : length i.sku ≤ 64
  pub quantity_positive : (0 < pos_part i.quantity) × (neg_part i.quantity ≡ 0)
  pub currency_valid : valid_currency_code i.unit_price.currency_code ≡ true
  pub price_canonical : IsAmount i.unit_price
  pub price_nonneg : (neg_part i.unit_price.units ≡ 0) × (neg_part i.unit_price.nanos ≡ 0)

pub positive_iff : (q : ℤ) → (ltb_ℤ (pos 0) q ≡ true) ↔ ((0 < pos_part q) × (neg_part q ≡ 0))
positive_iff q = ((λ h. ground arith), (λ h. ground arith))

nonneg_iff :
    (m : Money) → (is_negative m ≡ false) ↔ ((neg_part m.units ≡ 0) × (neg_part m.nanos ≡ 0))
unfolding is_negative
nonneg_iff m = ((λ h. ground arith), (λ h. ground arith))

validate_item-IsItem : (i : Item) → validate_item i ≡ ok tt → IsItem i
unfolding validate_item
validate_item-IsItem i h =
    ground (arith, positive_iff i.quantity, nonneg_iff i.unit_price, validate_iff i.unit_price)

IsItem-validate_item : (i : Item) → IsItem i → validate_item i ≡ ok tt
unfolding validate_item
IsItem-validate_item i v =
    ground (arith, positive_iff i.quantity, nonneg_iff i.unit_price, validate_iff i.unit_price)

-- An item passes validation exactly if it is well formed.
pub validate_item_iff : (i : Item) → (validate_item i ≡ ok tt) ↔ IsItem i
validate_item_iff i = (validate_item-IsItem i, IsItem-validate_item i)

validate_items-All : (items : List Item) → validate_items items ≡ ok tt → All IsItem items
unfolding validate_items
validate_items-All [] h = tt
validate_items-All (i ∷ rest) h = ground (arith, validate_item-IsItem i, validate_items-All rest)

All-validate_items : (items : List Item) → All IsItem items → validate_items items ≡ ok tt
unfolding validate_items
All-validate_items [] h = refl
All-validate_items (i ∷ rest) (v, h) = rw (IsItem-validate_item i v) (All-validate_items rest h)

pub validate_items_iff : (items : List Item) → (validate_items items ≡ ok tt) ↔ All IsItem items
validate_items_iff items = (validate_items-All items, All-validate_items items)
