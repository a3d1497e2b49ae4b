-- ===== src/Order/Postgres/Pages.antt =====
-- `List` over the tables and over the in-memory store: the same pages.
use boilerplate_go_grpc_micr.Common.{
  suc, ◌-◌, ◌≡◌, refl, ap, sym, ◌∙◌, inl, inr, Option, none, some, List, [], ◌∷◌, map, keep, take,
  length, get_elem?, ltb, ltb→lt, All, All-mono, All-both, Bool-cases, true, ◌||◌,
}
use boilerplate_go_grpc_micr.Common.Text.{Text, is_empty}
use boilerplate_go_grpc_micr.Order.Errors.{Result, ok, err, Result-cases}
use boilerplate_go_grpc_micr.Order.Money.{Casing}
use boilerplate_go_grpc_micr.Order.Aggregate.{Order, Time}
use boilerplate_go_grpc_micr.Order.Aggregate.Orders.{validate_order_iff}
use boilerplate_go_grpc_micr.Order.Cursor.{
  ListFilter, Page, TokenCodec, clamp_page_size, encode_page_token, decode_page_token,
}
use boilerplate_go_grpc_micr.Order.Ports.{Action}
use boilerplate_go_grpc_micr.Order.Memory
use boilerplate_go_grpc_micr.Order.Memory.{
  State, Entries, matches, sorted, resume, cut_page, skip_until, is_after,
}
use boilerplate_go_grpc_micr.Order.Memory.Sorting.{sorted-All}
use boilerplate_go_grpc_micr.Order.Memory.Pages.{split_page}
use boilerplate_go_grpc_micr.Order.Rows.{OrderRow, ItemRow, Storage, order_row, to_domain}
use boilerplate_go_grpc_micr.Order.Rows.RoundTrip.{HasStored}
use boilerplate_go_grpc_micr.Order.Postgres.{Tables, sort_lines, lines_of, with_texts}
use boilerplate_go_grpc_micr.Order.Postgres.Listing
use boilerplate_go_grpc_micr.Order.Postgres.Listing.{
  is_selected, is_behind, sort_rows, to_orders, token_page, page_of,
}
use boilerplate_go_grpc_micr.Order.Postgres.Agreement.{
  IsStorable, IsEntry, HasLines, Agree, Alike, read_back,
}
use boilerplate_go_grpc_micr.Order.Postgres.Selecting.{
  behind, IsStoredPlace, keep-map, is_selected-order_row, is_behind-order_row, sort_rows-map,
  with_place-stored, resume-sorted,
}
use boilerplate_go_grpc_micr.Order.Postgres.Cuts.{
  clamp-pos, take-take, ltb-take, take_all, length-take, All-keep, All-take, AreComparable-keep,
  orders_of, All-orders_of, take-map, length-map, rows-orders_of, AreApart-Comparable,
}

module _ ⦃c : Casing⦄ ⦃s : Storage⦄ where
  -- An order that is read back from the tables.
  abbrev IsReadable : List ItemRow → Order → Type 0
  IsReadable items o = to_domain (order_row o) (sort_lines (lines_of o.id items)) ≡ ok o

  to_orders-map :
      (items : List ItemRow) (os : List Order)
      → All (IsReadable items) os
      → to_orders items (map order_row os) ≡ ok os
  unfolding to_orders order_row
  to_orders-map items [] h = refl
  to_orders-map items (o ∷ os) (h, hs) =
      ap
        (λ (x : Result Order). elim x [
          | err e ↦ err e
          | ok p ↦ elim (to_orders items (map order_row os)) [ err e ↦ err e | ok ps ↦ ok (p ∷ ps) ]
        ])
        h
      ∙ ap (λ (x : Result (List Order)). elim x [ err e ↦ err e | ok ps ↦ ok (o ∷ ps) ])
          (to_orders-map items os hs)

  module _ ⦃k : TokenCodec⦄ where
    token_page-cut_page :
        (tenant : Text) (f : ListFilter) (rest : List Order)
        → token_page tenant f
            (ltb (clamp_page_size f.page_size) (length rest))
            (take (clamp_page_size f.page_size) rest)
          ≡ cut_page tenant f rest
    unfolding token_page cut_page
    token_page-cut_page tenant f rest =
        let size = clamp_page_size f.page_size in
        elim (Bool-cases (ltb size (length rest))) [
          | inl more ↦
              let fits = ltb→lt size (length rest) more in
              let (l, e, _, _) = split_page size rest (clamp-pos f.page_size) fits in
              let found : get_elem? (take size rest) (length (take size rest) - 1) ≡ some l =
                ap (λ n. get_elem? (take size rest) (n - 1)) (length-take size rest fits) ∙ e in
              rw more (
                ap
                  (λ (r : Option Order). elim r [
                    | none ↦ ok (record { orders = take size rest; next_page_token = [] })
                    | some last ↦ elim (encode_page_token tenant f last) [
                      | err x ↦ err x
                      | ok token ↦ ok (record { orders = take size rest; next_page_token = token })
                    ]
                  ])
                  found
                ∙ sym (
                    ap
                      (λ (r : Option Order). elim r [
                        | none ↦ err []
                        | some last ↦ elim (encode_page_token tenant f last) [
                          | err x ↦ err x
                          | ok token ↦
                              ok (record { orders = take size rest; next_page_token = token })
                        ]
                      ])
                      e))
          | inr done ↦ rw (done, take_all size rest done) refl
        ]

    page_of-cut_page :
        (tenant : Text) (f : ListFilter) (items : List ItemRow) (rest : List Order)
        → All (IsReadable items) rest
        → page_of tenant f items (take (suc (clamp_page_size f.page_size)) (map order_row rest))
          ≡ cut_page tenant f rest
    unfolding page_of
    page_of-cut_page tenant f items rest h =
        let size = clamp_page_size f.page_size in
        let all = map order_row rest in
        let first = take (suc size) all in
        let fits : take size first ≡ map order_row (take size rest) =
          ap (take size) (take-map (suc size) rest)
          ∙ take-map size (take (suc size) rest)
          ∙ ap (map order_row) (take-take size rest) in
        let more : ltb size (length first) ≡ ltb size (length rest) =
          ap (λ (rs : List OrderRow). ltb size (length rs)) (take-map (suc size) rest)
          ∙ ap (ltb size) (length-map (take (suc size) rest))
          ∙ ltb-take size rest in
        let read =
          ap (to_orders items) fits
          ∙ to_orders-map items (take size rest) (All-take (IsReadable items) size rest h) in
        ap
          (λ (x : Result (List Order)). elim x [
            | err e ↦ err e
            | ok os ↦ token_page tenant f (ltb size (length first)) os
          ])
          read
        ∙ ap (λ b. token_page tenant f b (take size rest)) more
        ∙ token_page-cut_page tenant f rest

    -- What the statement of `List` selects.
    selects :
        (tenant : Text) (f : ListFilter) (cursor : Option (Time × Text)) (m : State) (d : Tables)
        → Agree m d
        → sort_rows (keep (is_behind cursor) (keep (is_selected tenant f) d.orders))
          ≡ map order_row (resume cursor (sorted (keep (matches tenant f) (orders_of m.orders))))
    selects tenant f cursor m d h =
        let os = orders_of m.orders in
        let mine = keep (matches tenant f) os in
        let storable =
          All-orders_of IsStorable m.orders
            (All-mono IsEntry (λ e. IsStorable (e.1)) (λ e (_, x). x) m.orders h.entries) in
        let times = All-mono IsStorable HasStored (λ o x. x.stored) os storable in
        let times_mine = All-keep HasStored (matches tenant f) os times in
        ap (λ rs. sort_rows (keep (is_behind cursor) (keep (is_selected tenant f) rs)))
          (h.same_rows ∙ rows-orders_of m.orders)
        ∙ ap (λ rs. sort_rows (keep (is_behind cursor) rs))
            (keep-map (is_selected tenant f) (matches tenant f) os (
              All-mono IsStorable _
                (λ o x.
                  is_selected-order_row tenant f o ((validate_order_iff o).0 x.valid).status_known)
                os storable))
        ∙ ap sort_rows (
            keep-map (is_behind cursor) (behind cursor) mine
              (All-mono HasStored _ (λ o x. is_behind-order_row cursor o x) mine times_mine))
        ∙ sort_rows-map (keep (behind cursor) mine)
            (All-keep HasStored (behind cursor) mine times_mine)
        ∙ ap (map order_row) (
            sym (
              resume-sorted cursor mine
                (AreComparable-keep (matches tenant f) os (AreApart-Comparable m.orders h.apart))))

    resume-All {ℓ} :
        (P : Order → Type ℓ) (cursor : Option (Time × Text)) (os : List Order)
        → All P os
        → All P (resume cursor os)
    unfolding skip_until
    resume-All P none os h = h
    resume-All P (some c) [] h = tt
    resume-All P (some c) (o ∷ os) h = elim (Bool-cases (is_after c o)) [
      | inl b ↦ rw b h
      | inr b ↦ rw b (resume-All P (some c) os h.1)
    ]

    -- Both stores list the same page.
    pub list-Alike :
        (tenant : Text) (f : ListFilter) (m : State) (d : Tables)
        → ((cursor : Option (Time × Text))
            → decode_page_token tenant f ≡ ok cursor
            → IsStoredPlace cursor)
        → s.takes tenant ≡ true
        → (is_empty f.customer_id || s.takes f.customer_id) ≡ true
        → Agree m d
        → Alike {A = Page} (Memory.list tenant f m) (Listing.list tenant f d)
    unfolding Memory.list Listing.list with_texts
    list-Alike tenant f m d place tenant_taken customer_taken h =
        elim (Bool-cases (is_empty tenant)) [
          | inl t ↦ rw t (refl, h)
          | inr t ↦ elim (Result-cases (decode_page_token tenant f)) [
            | inl (e, g) ↦ rw (t, g) (refl, h)
            | inr (cursor, g) ↦
                let size = clamp_page_size f.page_size in
                let rest = resume cursor (sorted (keep (matches tenant f) (orders_of m.orders))) in
                let readable = resume-All (IsReadable d.items) cursor _ (
                  sorted-All _ (keep (matches tenant f) (orders_of m.orders)) (
                    All-keep _ (matches tenant f) (orders_of m.orders) (
                      All-orders_of (IsReadable d.items) m.orders (
                        All-mono _ _ (read_back d) m.orders
                          (All-both IsEntry (HasLines d) m.orders h.entries h.lines))))) in
                let query : Option (Time × Text) → Action Tables Page = λ at d'.
                  let selected = keep (is_behind at) (keep (is_selected tenant f) d'.orders) in
                  (page_of tenant f d'.items (take (suc size) (sort_rows selected)), d') in
                rw
                  (
                    t,
                    g,
                    tenant_taken,
                    customer_taken,
                    with_place-stored cursor query d (place cursor g),
                  )
                  (
                    sym (
                        ap (λ rs. page_of tenant f d.items (take (suc size) rs))
                          (selects tenant f cursor m d h)
                        ∙ page_of-cut_page tenant f d.items rest readable),
                    h,
                  )
          ]
        ]
