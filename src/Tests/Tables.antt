-- ===== src/Tests/Tables.antt =====
-- The store over PostgreSQL, on concrete requests.
use boilerplate_go_grpc_micr.Common.{
  ◌≡◌, refl, sym, true, Option, none, some, List, [], ◌∷◌, arith, All, map, Bool, not, ◌&&◌, ◌==◌,
}
use mathlib.Core.Path.{subst}
use boilerplate_go_grpc_micr.Common.Text.{Text, codes, text_eq, is_empty}
use boilerplate_go_grpc_micr.Order.Errors.{ok}
use boilerplate_go_grpc_micr.Order.Aggregate.{Time}
use boilerplate_go_grpc_micr.Order.Cursor.{decode_page_token}
use boilerplate_go_grpc_micr.Order.Memory
use boilerplate_go_grpc_micr.Order.Service.History.{Request}
use boilerplate_go_grpc_micr.Order.Rows.{Storage, to_domain, order_row, item_rows, fits}
use boilerplate_go_grpc_micr.Order.Rows.RoundTrip.{to_domain-order_row}
use boilerplate_go_grpc_micr.Tests.Orders.{sample, sample-valid}
use boilerplate_go_grpc_micr.Order.Postgres.Listing
use boilerplate_go_grpc_micr.Order.Postgres.Agreement.{told, told_of}
use boilerplate_go_grpc_micr.Order.Postgres.Selecting.{IsStoredPlace}
use boilerplate_go_grpc_micr.Order.Postgres.Requests.{run, no_rows, IsPlain, AreFresh, run-ports}
use boilerplate_go_grpc_micr.Tests.Requests.{acme-NoNul}
use boilerplate_go_grpc_micr.Tests.Samples.{ascii, plain, basket, all_orders}

-- No byte of a text is zero.
abbrev no_nul : Text → Bool
no_nul [] = true
no_nul (c ∷ cs) = not (c == 0) && no_nul cs

-- A database whose ids are texts that are not empty, and which takes texts without a NUL byte.
abbrev uuid_of : Text → Option Text
uuid_of [] = none
uuid_of (c ∷ cs) = some (c ∷ cs)

abbrev database : Storage
database = record {
  marshal = λ o. some o.id;
  in_json_years = λ _. true;
  stored = λ t. t;
  canonical = uuid_of;
  takes = no_nul;
  marshal-some = λ o _ _ _ _ _. (o.id, refl);
}

abbrev acme : Text
acme = codes "acme"

-- Two orders; one is cancelled, the other read, and both are listed.
abbrev day : List (Text × Request)
day =
    (codes "t1", Request.create_order basket (ok (codes "o1")) 10)
    ∷ (codes "t2", Request.create_order basket (ok (codes "o2")) 20)
    ∷ ([], Request.cancel_order acme (codes "o1") 30)
    ∷ ([], Request.get_order acme (codes "o2"))
    ∷ ([], Request.list_orders acme all_orders)
    ∷ []

from_start :
    (cursor : Option (Time × Text))
    → decode_page_token ⦃k = plain⦄ acme all_orders ≡ ok cursor
    → cursor ≡ none
unfolding decode_page_token is_empty
from_start cursor e = cc

day_plain : All (IsPlain ⦃c = ascii⦄ ⦃k = plain⦄ ⦃s = database⦄) day
unfolding is_empty fits
day_plain = (
  (
    acme-NoNul,
    ((omega arith, omega arith), tt),
    (refl, refl, (refl, tt)),
    refl,
    refl,
    (refl, tt),
    (refl, refl),
  ),
  (
    (
      acme-NoNul,
      ((omega arith, omega arith), tt),
      (refl, refl, (refl, tt)),
      refl,
      refl,
      (refl, tt),
      (refl, refl),
    ),
    (
      (acme-NoNul, refl, refl, refl, (refl, refl)),
      (
        (acme-NoNul, refl, refl),
        (
          (
            (λ cursor e. subst (IsStoredPlace ⦃s = database⦄) (sym (from_start cursor e)) tt),
            refl,
            refl,
          ),
          tt,
        ),
      ),
    ),
  ),
)

day_fresh : AreFresh day
unfolding text_eq
day_fresh = (((refl, tt), tt), (tt, (tt, (tt, (tt, tt)))))

run-ports_example :
    ((run ⦃c = ascii⦄ (λ _. Memory.ports ⦃k = plain⦄) day Memory.new).0
      ≡ (run ⦃c = ascii⦄ (Listing.ports ⦃c = ascii⦄ ⦃k = plain⦄ ⦃s = database⦄) day (no_rows 7)).0)
    × (map
          (told ⦃c = ascii⦄ ⦃s = database⦄)
          (run ⦃c = ascii⦄
            (Listing.ports ⦃c = ascii⦄ ⦃k = plain⦄ ⦃s = database⦄)
            day
            (no_rows 7)).1.outbox
        ≡ map
            (told_of ⦃c = ascii⦄ ⦃s = database⦄)
            (run ⦃c = ascii⦄ (λ _. Memory.ports ⦃k = plain⦄) day Memory.new).1.events)
run-ports_example = run-ports ⦃c = ascii⦄ ⦃k = plain⦄ ⦃s = database⦄ day 7 day_plain day_fresh

to_domain-order_row_example :
    to_domain ⦃c = ascii⦄ (order_row ⦃s = database⦄ sample) (item_rows (codes "o2") 0 sample.items)
    ≡ ok sample
to_domain-order_row_example =
    to_domain-order_row ⦃c = ascii⦄ ⦃s = database⦄ sample ((omega arith, omega arith), tt)
      (refl, refl) sample-valid
