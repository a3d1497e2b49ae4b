-- ===== src/Order/Rows.antt =====
-- internal/order/orderpg/model.go: the rows of the tables, and the conversion of orders to them and
-- back.
pub mod RoundTrip
use boilerplate_go_grpc_micr.Common.{
  ℕ, suc, All, List, [], ◌∷◌, Option, some, true, ◌≡◌, Bool, leb, ◌*◌, length,
}
use boilerplate_go_grpc_micr.Common.Int.{ℤ}
use boilerplate_go_grpc_micr.Common.Text.{Text}
use boilerplate_go_grpc_micr.Order.Errors.{Result, ok, err, ◌>>=◌}
use boilerplate_go_grpc_micr.Order.Money.{Casing, new_money, valid_currency_code}
use boilerplate_go_grpc_micr.Order.Status.{status_string, parse_status}
use boilerplate_go_grpc_micr.Order.Aggregate.{Item, Order, Time}

-- `orderRow`, less its items, and `itemRow`.
pub record OrderRow : Type 0 where
  pub id : Text
  pub tenant_id : Text
  pub customer_id : Text
  pub status : Text
  pub currency_code : Text
  pub total_units : ℤ
  pub total_nanos : ℤ
  pub created_at : Time
  pub updated_at : Time

pub record ItemRow : Type 0 where
  pub order_id : Text
  pub line_no : ℕ
  pub sku : Text
  pub quantity : ℤ
  pub unit_currency : Text
  pub unit_units : ℤ
  pub unit_nanos : ℤ

-- The texts of an order that a caller chooses pass a test.
abbrev pub AreTexts : (Text → Bool) → Order → Type 0
AreTexts takes o =
    (takes o.tenant_id ≡ true)
    × (takes o.customer_id ≡ true)
    × All (λ i. takes i.sku ≡ true) o.items

-- One INSERT holds the items, which have seven parameters each: the protocol allows 65535.
unfoldable pub fits : {A : Type 0} → List A → Bool
fits xs = leb (7 * length xs) 65535

-- The currencies of an order are codes.
abbrev pub HasCodes : Order → Type 0
HasCodes o =
    (valid_currency_code o.total.currency_code ≡ true)
    × All (λ i. valid_currency_code i.unit_price.currency_code ≡ true) o.items

-- The instant that a `timestamptz` stores for one; the UUID that a `uuid` column stores for a text,
-- if it is one; whether PostgreSQL takes a text, which it does not if it has a NUL byte, is not
-- UTF-8 or is too long to be indexed; and `json.Marshal` of an order as a `jsonb` column takes it,
-- which it does for instants of the years 0 to 9999 and such texts.
pub record Storage : Type 0 where
  pub stored : Time → Time
  pub canonical : Text → Option Text
  pub takes : Text → Bool
  pub marshal : Order → Option Text
  pub in_json_years : Time → Bool
  pub marshal-some :
      (o : Order)
      → in_json_years o.created_at ≡ true
      → in_json_years o.updated_at ≡ true
      → canonical o.id ≡ some o.id
      → AreTexts takes o
      → HasCodes o
      → (t : Text) × (marshal o ≡ some t)

-- `toRow`
unfoldable pub item_row : Text → ℕ → Item → ItemRow
item_row id n i = record {
  order_id = id;
  line_no = n;
  sku = i.sku;
  quantity = i.quantity;
  unit_currency = i.unit_price.currency_code;
  unit_units = i.unit_price.units;
  unit_nanos = i.unit_price.nanos;
}

unfoldable pub item_rows : Text → ℕ → List Item → List ItemRow
item_rows id n [] = []
item_rows id n (i ∷ items) = item_row id n i ∷ item_rows id (suc n) items

unfoldable pub order_row : ⦃s : Storage⦄ → Order → OrderRow
order_row ⦃s⦄ o = record {
  id = o.id;
  tenant_id = o.tenant_id;
  customer_id = o.customer_id;
  status = status_string o.status;
  currency_code = o.total.currency_code;
  total_units = o.total.units;
  total_nanos = o.total.nanos;
  created_at = s.stored o.created_at;
  updated_at = s.stored o.updated_at;
}

-- `toDomain`
module _ ⦃c : Casing⦄ where
  unfoldable pub to_item : ItemRow → Result Item
  to_item r = do
    price ← new_money r.unit_currency r.unit_units r.unit_nanos
    ok (record { sku = r.sku; quantity = r.quantity; unit_price = price })

  unfoldable pub to_items : List ItemRow → Result (List Item)
  to_items [] = ok []
  to_items (r ∷ rs) = do item ← to_item r; rest ← to_items rs; ok (item ∷ rest)

  unfoldable pub to_domain : OrderRow → List ItemRow → Result Order
  to_domain r lines = do
    status ← parse_status r.status
    total ← new_money r.currency_code r.total_units r.total_nanos
    items ← to_items lines
    ok (record {
      id = r.id;
      tenant_id = r.tenant_id;
      customer_id = r.customer_id;
      status = status;
      items = items;
      total = total;
      created_at = r.created_at;
      updated_at = r.updated_at;
    })
