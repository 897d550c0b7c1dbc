-- ===== src/Tests/Orders.antt =====
-- The order engine and the books in the shop.
use x_ui_site.Prelude.{◌≡◌, true, ◌≤◌, refl, [], ◌∷◌, arith}
use x_ui_site.Db.Session.{fine, refused, unacked}
use x_ui_site.Db.Rules.{Runs}
use x_ui_site.Order.{create, renew}
use x_ui_site.Order.Outcome.{Answered, Failed}
use x_ui_site.Order.Create.{create_atomic}
use x_ui_site.Order.Renew.{Renewed, RenewFailed, renew_atomic}
use x_ui_site.Order.Once.{keyed_orders}
use x_ui_site.Order.History.{Arrival, creates, renews, serve, serve_at_most_once}
use x_ui_site.Ledger.Orders.{Books, serve-Books}
use x_ui_site.Tests.{world, request, shop, item, wallet}
use x_ui_site.Db.Errors.{is_ok}
use x_ui_site.Repository.Catalog.{price_of}
use x_ui_site.Order.Answers.{create_answers}
use x_ui_site.Prelude.{List}
use x_ui_site.Prelude.Int.{◌+ℤ◌, ◌-ℤ◌}

create_atomic_example : Runs world (create request) (Answered request world) (Failed request world)
create_atomic_example = create_atomic request world refl

renew_atomic_example : Runs world (renew 1 1) (Renewed 1 1 world) (RenewFailed 1 1 world)
renew_atomic_example = renew_atomic 1 1 world refl

-- A lost answer to the commit, two repetitions of the call, and a renewal in between.
abbrev calls : List Arrival
calls =
    record {
      time = 10;
      faults = fine ∷ fine ∷ fine ∷ fine ∷ fine ∷ fine ∷ fine ∷ fine ∷ fine ∷ fine ∷ unacked ∷ [];
      call = creates request;
    }
    ∷ record { time = 20; faults = []; call = creates request }
    ∷ record { time = 30; faults = []; call = renews 1 1 }
    ∷ record { time = 40; faults = refused ∷ []; call = creates request }
    ∷ []

serve_at_most_once_example : keyed_orders 1 1 "k" (serve calls world).tables ≤ 1
serve_at_most_once_example =
    serve_at_most_once 1 1 "k" calls world refl
      (record { one_row = (omega arith); no_more = (omega arith) })

shop-Books : Books shop
unfolding ◌+ℤ◌
shop-Books = record {
  prices = (((omega arith), refl), tt);
  balanced = (refl, tt);
  unique = (refl, tt);
  solvent = ((omega arith), tt);
}

serve-Books_example : Books (serve calls world).tables
serve-Books_example = serve-Books calls world refl shop-Books

create_answers_example : is_ok (create request world).0 ≡ true
unfolding ◌-ℤ◌
create_answers_example =
    create_answers request (price_of item) wallet world refl refl refl refl refl refl (record {
      new_key = refl;
      found = refl;
      covered = (omega arith);
      in_range = refl;
      keys_exist = refl;
    })
