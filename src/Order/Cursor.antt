-- ===== src/Order/Cursor.antt =====
-- internal/order/cursor.go and the page types of internal/order/store.go: keyset pagination.
use Prim.Native.Nat.{bit_xor}
use boilerplate_go_grpc_micr.Common.{
  ℕ, ◌+◌, ◌*◌, ◌/◌, ◌%◌, ◌^◌, ◌≡◌, Bool, true, false, not, Option, none, some, List, [], ◌∷◌, ◌++◌,
  ltb, ◌==◌, if◌then◌else◌,
}
use boilerplate_go_grpc_micr.Common.Int.{ℤ, pos, negsuc}
use boilerplate_go_grpc_micr.Common.Text.{Text, is_empty}
use boilerplate_go_grpc_micr.Order.Errors.{Sentinel, Result, ok, err, ◌>>=◌, ◌>>◌, fail_if}
use boilerplate_go_grpc_micr.Order.Status.{Status, status_number}
use boilerplate_go_grpc_micr.Order.Aggregate.{Order, Time}

pub record ListFilter : Type 0 where
  pub status : Status
  pub customer_id : Text
  pub page_size : ℤ  -- int32
  pub page_token : Text

pub record Page : Type 0 where
  pub orders : List Order
  pub next_page_token : Text

-- `ClampPageSize`
unfoldable pub clamp_page_size : ℤ → ℕ
clamp_page_size (negsuc _) = 50
clamp_page_size (pos n) = if n == 0 then 50 else if ltb 1000 n then 1000 else n

pub record Cursor : Type 0 where
  pub created_at : Time
  pub id : Text
  pub filter_hash : ℕ  -- uint32

-- The encodings around a cursor: JSON under base64url, and `uuid.Validate` of google/uuid. JSON
-- refuses instants outside the years 0 to 9999; every other cursor whose id is a UUID, and so
-- plain ASCII, is encoded by a token that is not empty and that is read back as that cursor.
pub record TokenCodec : Type 0 where
  pub encode : Cursor → Option Text
  pub decode : Text → Option Cursor
  pub is_uuid : Text → Bool
  pub in_json_years : Time → Bool
  pub decode-encode :
      (c : Cursor)
      → is_uuid c.id ≡ true
      → in_json_years c.created_at ≡ true
      → (t : Text) × (encode c ≡ some t) × (is_empty t ≡ false) × (decode t ≡ some c)

-- `%d` of a uint8.
abbrev decimal : ℕ → Text
decimal n =
    if ltb n 10
    then (n + b'0') ∷ []
    else if ltb n 100
    then (n / 10 + b'0') ∷ (n % 10 + b'0') ∷ []
    else (n / 100 + b'0') ∷ (n / 10 % 10 + b'0') ∷ (n % 10 + b'0') ∷ []

-- 32-bit FNV-1a.
fnv32a : ℕ → Text → ℕ
fnv32a h [] = h
fnv32a h (b ∷ bs) = fnv32a (bit_xor h b * 16777619 % 2 ^ 32) bs

unfoldable pub filter_hash : Text → ListFilter → ℕ
unfolding fnv32a
filter_hash tenant f =
    fnv32a 2166136261 (tenant ++ 0 ∷ (decimal (status_number f.status) ++ 0 ∷ f.customer_id))

module _ ⦃k : TokenCodec⦄ where
  unfoldable pub decode_cursor : Text → ℕ → Result Cursor
  decode_cursor token want_hash = elim (k.decode token) [
    | none ↦ err (Sentinel.invalid_page_token ∷ [])
    | some c ↦ do
      fail_if (not (c.filter_hash == want_hash)) (Sentinel.invalid_page_token ∷ [])
      fail_if (not (k.is_uuid c.id)) (Sentinel.invalid_page_token ∷ [])
      ok c
  ]

  unfoldable pub encode_page_token : Text → ListFilter → Order → Result Text
  encode_page_token tenant f last =
      elim (k.encode (record {
        created_at = last.created_at;
        id = last.id;
        filter_hash = filter_hash tenant f;
      })) [ none ↦ err [] | some token ↦ ok token ]

  -- `none` stands for `ok == false`: start at the beginning.
  unfoldable pub decode_page_token : Text → ListFilter → Result (Option (Time × Text))
  decode_page_token tenant f = elim (is_empty f.page_token) [
    | true ↦ ok none
    | false ↦ do
      c ← decode_cursor f.page_token (filter_hash tenant f)
      ok (some (c.created_at, c.id))
  ]
