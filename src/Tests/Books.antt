-- ===== src/Tests/Books.antt =====
-- The order book, a top-up and the readers of the hub in the shop.
use x_ui_site.Prelude.{String, List, refl, [], ◌∷◌}
use x_ui_site.Db.Session.{Notice, fine, refused, unacked}
use x_ui_site.Middleware.Jwt.Guard.{guarded}
use x_ui_site.Http.Management.{topup}
use x_ui_site.Http.Management.TopUp.{Finished, topup-Finished}
use x_ui_site.Http.Server.{admin_roles}
use x_ui_site.Order.History.{Arrival, creates, renews, serve}
use x_ui_site.Ledger.Book.{Sales, book_of, serve-Sales}
use x_ui_site.Notification.{
  HubEvent, subscribed, connected, notified, written, read, left, hub_after, all_notified,
}
use x_ui_site.Notification.Buffers.{HubInOrder, hub_after-HubInOrder}
use x_ui_site.Tests.{world, request}
use x_ui_site.Tests.Server.{admin_post}
use x_ui_site.Tests.Toys.{toy}

abbrev book_calls : List Arrival
book_calls =
    record { time = 10; faults = fine ∷ unacked ∷ []; call = creates request }
    ∷ record { time = 20; faults = []; call = creates request }
    ∷ record { time = 30; faults = refused ∷ []; call = renews 1 1 }
    ∷ record { time = 40; faults = []; call = renews 1 1 }
    ∷ []

serve-Sales_example : Sales (book_of world.tables) (book_of (serve book_calls world).tables)
serve-Sales_example = serve-Sales book_calls world refl (refl, tt)

topup-Finished_example :
    Finished toy "s" admin_roles
      (admin_post "/api/v1/admin/wallet/topup")
      world
      (guarded toy "s" admin_roles topup (admin_post "/api/v1/admin/wallet/topup") world)
topup-Finished_example =
    topup-Finished toy "s" admin_roles (admin_post "/api/v1/admin/wallet/topup") world refl

abbrev notice : String → Notice
notice topic = record { topic = topic; payload = [] }

-- The last event first.
abbrev hub_events : List HubEvent
hub_events =
    left 0
    ∷ read 0
    ∷ notified (notice "order.approved")
    ∷ written 0
    ∷ notified (notice "service.resumed")
    ∷ connected
    ∷ subscribed "order.approved"
    ∷ notified (notice "order.approved")
    ∷ []

hub_after-HubInOrder_example : HubInOrder (all_notified hub_events) (hub_after hub_events)
hub_after-HubInOrder_example = hub_after-HubInOrder hub_events
