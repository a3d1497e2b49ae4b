-- ===== src/Order/Memory/Paging.antt =====
-- Following the page tokens of `List` visits the whole listing, once and in order.
use boilerplate_go_grpc_micr.Common.{
  ℕ, zero, suc, ◌-◌, ◌<◌, ◌≡◌, refl, ap, sym, ◌∙◌, inl, inr, true, false, Option, none, some, List,
  [], ◌∷◌, ◌++◌, map, arith, All, length, Bool-cases, take, drop, get_elem?, keep, ltb,
  append_assoc, ltb→lt,
}
use boilerplate_go_grpc_micr.Common.Text.{Text, is_empty}
use boilerplate_go_grpc_micr.Order.Errors.{Result, ok, err}
use boilerplate_go_grpc_micr.Order.Aggregate.{Order, Time}
use boilerplate_go_grpc_micr.Order.Cursor.{
  ListFilter, Page, TokenCodec, clamp_page_size, filter_hash, decode_cursor, encode_page_token,
  decode_page_token, Cursor,
}
use boilerplate_go_grpc_micr.Order.Memory.{
  State, matches, sorted, resume, cut_page, list, skip_until,
}
use boilerplate_go_grpc_micr.Order.Memory.Sorting.{
  IsSorted, AreComparable, sorted-IsSorted, skip_until_lem, All-middle,
}
use boilerplate_go_grpc_micr.Order.Memory.Pages.{
  split_page, length-drop-lt, take-append-drop, All-drop,
}
use mathlib.Core.Path.{subst}

-- All orders that the filter selects, in the order of the listing.
abbrev pub listing : Text → ListFilter → State → List Order
listing tenant f s = sorted (keep (matches tenant f) (map (λ e. e.1) s.orders))

module _ ⦃k : TokenCodec⦄ where
  -- What a client does with an answer: it keeps the orders, and goes on if there is a token.
  abbrev follow : Result Page → (Text → Result (List Order)) → Result (List Order)
  follow (err e) go = err e
  follow (ok page) go = elim (is_empty page.next_page_token) [
    | true ↦ ok page.orders
    | false ↦ elim (go page.next_page_token) [ err e ↦ err e | ok rest ↦ ok (page.orders ++ rest) ]
  ]

  -- The pages that a client reads by passing each token on, joined; the fuel bounds their number.
  pub read_all : ℕ → Text → ListFilter → State → Result (List Order)
  read_all zero tenant f s = err []
  read_all (suc n) tenant f s =
      follow (list tenant f s).0 (λ t. read_all n tenant (record f { page_token = t }) s)

  -- The id of the order is a UUID, and its time has a JSON form.
  abbrev pub IsEncodable : Order → Type 0
  IsEncodable o = (k.is_uuid o.id ≡ true) × (k.in_json_years o.created_at ≡ true)

  filter_hash-token :
      (tenant : Text) (f : ListFilter) (t : Text)
      → filter_hash tenant (record f { page_token = t }) ≡ filter_hash tenant f
  unfolding filter_hash
  filter_hash-token tenant f t = refl

  -- A token made for an element is read back as that element's place, under the same filter.
  token_lem :
      (tenant : Text) (f : ListFilter) (l : Order)
      → IsEncodable l
      → (t : Text) × (encode_page_token tenant f l ≡ ok t)
        × (is_empty t ≡ false)
        × (decode_page_token tenant (record f { page_token = t }) ≡ ok (some (l.created_at, l.id)))
  unfolding encode_page_token decode_page_token decode_cursor
  token_lem tenant f l (uuid, years) =
      let c : Cursor = record {
        created_at = l.created_at;
        id = l.id;
        filter_hash = filter_hash tenant f;
      } in
      let (t, e, ne, d) = k.decode-encode c uuid years in
      (t, ground arith, ne, ground (arith, filter_hash-token tenant f t))

clamp-pos : (n : _) → 0 < clamp_page_size n
unfolding clamp_page_size
clamp-pos n = ground arith

follow_more :
    ⦃k : TokenCodec⦄ (xs rest : List Order) (t : Text) (go : Text → Result (List Order))
    → is_empty t ≡ false
    → go t ≡ ok rest
    → follow (ok (record { orders = xs; next_page_token = t })) go ≡ ok (xs ++ rest)
unfolding is_empty
follow_more xs rest [] go given e = cc
follow_more xs rest (c ∷ t) go given e = rw e

module _ ⦃k : TokenCodec⦄ (tenant : Text) (s : State) (given : is_empty tenant ≡ false) where
  -- One call of `List`, at a place in the listing.
  list_at :
      (f : ListFilter) (cursor : Option (Time × Text)) (post : List Order)
      → decode_page_token tenant f ≡ ok cursor
      → resume cursor (listing tenant f s) ≡ post
      → (list tenant f s).0 ≡ cut_page tenant f post
  unfolding list
  list_at f cursor post dec at = ground (arith, given)

  -- The last page.
  cut_last :
      (f : ListFilter) (post : List Order)
      → ltb (clamp_page_size f.page_size) (length post) ≡ false
      → cut_page tenant f post ≡ ok (record { orders = post; next_page_token = [] })
  unfolding cut_page
  cut_last f post h = rw h

  -- Any other page: as many orders as fit, and the token of the last of them.
  cut_more :
      (f : ListFilter) (post : List Order) (l : Order) (t : Text)
      → ltb (clamp_page_size f.page_size) (length post) ≡ true
      → get_elem? (take (clamp_page_size f.page_size) post) (clamp_page_size f.page_size - 1)
        ≡ some l
      → encode_page_token tenant f l ≡ ok t
      → cut_page tenant f post
        ≡ ok (record { orders = take (clamp_page_size f.page_size) post; next_page_token = t })
  unfolding cut_page
  cut_more f post l t h e enc = rw (h, e, enc)

  -- The token has no part in what is listed.
  listing-token :
      (f : ListFilter) (t : Text)
      → listing tenant (record f { page_token = t }) s ≡ listing tenant f s
  unfolding matches
  listing-token f t = refl

  -- From any place in the listing, the pages that follow join up to the rest of it.
  read_from :
      (n : ℕ) (f : ListFilter) (cursor : Option (Time × Text)) (pre post : List Order)
      → listing tenant f s ≡ pre ++ post
      → IsSorted (pre ++ post)
      → All IsEncodable post
      → decode_page_token tenant f ≡ ok cursor
      → resume cursor (listing tenant f s) ≡ post
      → length post < n
      → read_all n tenant f s ≡ ok post
  unfolding read_all is_empty
  read_from zero f cursor pre post whole order enc dec at h = elim h [ ]
  read_from (suc n) f cursor pre post whole order enc dec at h =
      let size = clamp_page_size f.page_size in
      let go = λ (t : Text). read_all n tenant (record f { page_token = t }) s in
      elim (Bool-cases (ltb size (length post))) [
        | inr last_page ↦
            ap (λ r. follow r go) (list_at f cursor post dec at ∙ cut_last f post last_page)
        | inl more ↦
            let fits = ltb→lt size (length post) more in
            let (l, e, split, taken) = split_page size post (clamp-pos f.page_size) fits in
            let (t, enc_l, given_t, dec_t) = token_lem tenant f l (
              All-middle IsEncodable (take (size - 1) post) l (drop size post)
                (subst (All IsEncodable) split enc)) in
            let f' = record f { page_token = t } in
            let joined = take-append-drop size post in
            let regroup : pre ++ post ≡ (pre ++ take size post) ++ drop size post =
              ap (λ r. pre ++ r) (sym joined)
              ∙ sym (append_assoc pre (take size post) (drop size post)) in
            let whole' : listing tenant f' s ≡ (pre ++ take (size - 1) post) ++ l ∷ drop size post =
              listing-token f t
              ∙ whole
              ∙ ap (λ r. pre ++ r) split
              ∙ sym (append_assoc pre (take (size - 1) post) (l ∷ drop size post)) in
            let order' = subst IsSorted (sym whole ∙ sym (listing-token f t) ∙ whole') order in
            let rest =
              read_from n f' (some (l.created_at, l.id)) (pre ++ take size post) (drop size post)
                (listing-token f t ∙ whole ∙ regroup) (subst IsSorted regroup order)
                (All-drop IsEncodable size post enc) dec_t
                (ap (skip_until (l.created_at, l.id)) whole'
                  ∙ skip_until_lem (pre ++ take (size - 1) post) l (drop size post) order')
                (omega (arith, length-drop-lt size post (clamp-pos f.page_size) fits)) in
            ap (λ r. follow r go) (list_at f cursor post dec at ∙ cut_more f post l t more e enc_l)
            ∙ follow_more (take size post) (drop size post) t go given_t rest
            ∙ ap ok joined
      ]

  -- If the tenant is given, the orders that the filter selects have pairwise different places and
  -- can be written into a token, then a client that starts without a token, passes each answer's
  -- token on and is ready to read more pages than there are such orders gets the whole listing:
  -- every selected order, in the order of time and id.
  pub read_all-listing :
      (n : ℕ) (f : ListFilter)
      → f.page_token ≡ []
      → AreComparable (keep (matches tenant f) (map (λ e. e.1) s.orders))
      → All IsEncodable (listing tenant f s)
      → length (listing tenant f s) < n
      → read_all n tenant f s ≡ ok (listing tenant f s)
  unfolding decode_page_token is_empty
  read_all-listing n f start distinct enc fuel =
      read_from n f none [] (listing tenant f s) refl
        (sorted-IsSorted (keep (matches tenant f) (map (λ e. e.1) s.orders)) distinct) enc
        (rw start) refl fuel
