-- ===== src/Tests/Samples.antt =====
-- Concrete data: an upper-casing, a token encoding, amounts, items, orders and requests.
use boilerplate_go_grpc_micr.Common.{
  ℕ, ◌-◌, ◌≡◌, refl, inl, inr, true, false, not, ◌&&◌, Option, none, some, List, [], ◌∷◌, map, leb,
  if◌then◌else◌, arith,
}
use boilerplate_go_grpc_micr.Common.Int.{pos, negsuc}
use boilerplate_go_grpc_micr.Common.Text.{Text, codes, is_empty}
use boilerplate_go_grpc_micr.Order.Errors.{ok}
use boilerplate_go_grpc_micr.Order.Money.{Money, Casing, valid_currency_code, all_upper}
use boilerplate_go_grpc_micr.Order.Money.Bounds.{IsAmount}
use boilerplate_go_grpc_micr.Order.Status.{unspecified}
use boilerplate_go_grpc_micr.Order.Aggregate.{Item}
use boilerplate_go_grpc_micr.Order.Cursor.{TokenCodec, Cursor, ListFilter}
use boilerplate_go_grpc_micr.Order.Service.{CreateCommand}
use boilerplate_go_grpc_micr.Order.Service.History.{Request}

abbrev pub upper : ℕ → ℕ
upper b = if leb b'a' b && leb b b'z' then b - 32 else b

upper_fixed : (s : Text) → all_upper s ≡ true → map upper s ≡ s
unfolding all_upper
upper_fixed [] h = refl
upper_fixed (b ∷ s) h = ground (arith, upper_fixed s)

pub code_fixed : (s : Text) → valid_currency_code s ≡ true → map upper s ≡ s
unfolding valid_currency_code all_upper
code_fixed s h = upper_fixed s (ground arith)

abbrev pub ascii : Casing
ascii = record { to_upper = map upper; to_upper_fixed = code_fixed }

abbrev pub read_token : Text → Option Cursor
read_token (t ∷ h ∷ id) = some (record { created_at = t; id = id; filter_hash = h })
read_token _ = none

pub token_given : (c : Cursor) → is_empty (c.created_at ∷ c.filter_hash ∷ c.id) ≡ false
unfolding is_empty
token_given c = refl

abbrev pub plain : TokenCodec
plain = record {
  encode = λ c. some (c.created_at ∷ c.filter_hash ∷ c.id);
  decode = read_token;
  is_uuid = λ s. not (is_empty s);
  in_json_years = λ _. true;
  decode-encode = λ c _ _. (c.created_at ∷ c.filter_hash ∷ c.id, refl, token_given c, refl);
}

-- One dollar fifty, two of it, and a dollar.
abbrev pub price : Money
price = record { currency_code = codes "USD"; units = pos 1; nanos = pos 500000000 }

abbrev pub debt : Money
debt = record { currency_code = codes "USD"; units = negsuc 1; nanos = negsuc 249999999 }

pub price-IsAmount : IsAmount price
price-IsAmount = record {
  nanos_small = (omega arith, omega arith);
  units_bounded = (omega arith, omega arith);
  pos_agrees = inl refl;
  neg_agrees = inr refl;
}

pub debt-IsAmount : IsAmount debt
debt-IsAmount = record {
  nanos_small = (omega arith, omega arith);
  units_bounded = (omega arith, omega arith);
  pos_agrees = inr refl;
  neg_agrees = inl refl;
}

abbrev pub book : Item
book = record { sku = codes "book"; quantity = pos 3; unit_price = price }

abbrev pub basket : CreateCommand
basket = record { tenant_id = codes "acme"; customer_id = codes "ann"; items = book ∷ [] }

abbrev pub all_orders : ListFilter
all_orders = record { status = unspecified; customer_id = []; page_size = pos 2; page_token = [] }

-- Three orders, one of them cancelled.
abbrev pub story : List Request
story =
    Request.create_order basket (ok (codes "o1")) 10
    ∷ Request.create_order basket (ok (codes "o2")) 20
    ∷ Request.cancel_order (codes "acme") (codes "o1") 30
    ∷ Request.create_order basket (ok (codes "o3")) 40
    ∷ []
