-- ===== src/Provisioning/Older.antt =====
-- internal/provisioning/engine.go and worker.go: the worker that listens to approved orders.
use x_ui_site.Prelude.{
  refl, ℕ, ◌≤◌, ◌≡◌, ◌∙◌, ap, ◌⊎◌, inl, inr, none, List, [], ◌∷◌, ◌++◌, replicate,
}
use x_ui_site.Prelude.Int.{pos}
use x_ui_site.Db.Rows.{Order, Panel}
use x_ui_site.Db.Errors.{ok}
use x_ui_site.Db.Session.{World, M, Notice, num, notify, ◌>>=◌}
use x_ui_site.Db.Rules.{Runs, Unchanged, Unchanged-refl, weaken-Runs, bind-Runs, Runs-world}
use x_ui_site.Repository.Older.{vendor_panel, first_by_vendor}
use x_ui_site.Provisioning.{ProvisionRequest, provision, call_of}
use x_ui_site.Provisioning.Delivery.{Asked}
use x_ui_site.Provisioning.Stored.{provision-Runs}
use x_ui_site.Storefront.Reads.{look-Seen}

-- The same client for every order.
abbrev pub client_request : Order → ProvisionRequest
client_request o = record {
  vendor_id = o.vendor_id;
  user_id = o.user_id;
  email = "user";
  protocol = "any";
  uuid = "generated";
  duration_days = pos 30;
  traffic_gb = pos 100;
}

abbrev pub done : Order → Notice
done o = record { topic = "service.provisioned"; payload = ("order_id", num o.id) ∷ [] }

-- Worker.handle, whose engine only lends its adapter
unfoldable pub handle : Order → M (Unit {0})
handle o = do
  panel ← first_by_vendor o.vendor_id
  _ ← provision panel (client_request o)
  notify "service.provisioned" (("order_id", num o.id) ∷ [])

-- What the channel of "order.approved" can bring: the assertion holds for an order alone.
pub data Payload : Type 0 where
  approved : Order → Payload
  other : Payload

-- The goroutine of Start waits for the next event, or has panicked.
pub data Listener : Type 0 where
  listening panicked : World → Listener

unfoldable pub listen : List Payload → World → Listener
listen [] w = listening w
listen (approved o ∷ rest) w = listen rest (handle o w).1
listen (other ∷ rest) w = panicked w

module _ (o : Order) (v : World) where
  -- The first panel of the vendor got the same request `times` times; no row was touched.
  pub record AskedFirst (times : ℕ) (w : World) : Type 0 where
    pub panel : Panel
    pub first : vendor_panel o.vendor_id v.tables ≡ ok panel
    pub calls : w.calls ≡ v.calls ++ replicate times (call_of panel (client_request o) v.now)
    pub tables : w.tables ≡ v.tables
    pub saved : w.saved ≡ v.saved

  abbrev pub Told : World → Type 0
  Told w = (w.sent ≡ v.sent ++ done o ∷ []) × (k : ℕ) × (1 ≤ k) × (k ≤ 3) × AskedFirst k w

  abbrev pub NotTold : World → Type 0
  NotTold w = (w.sent ≡ v.sent) × (Unchanged v w ⊎ AskedFirst 3 w)

  asked_first :
      (panel : Panel) (k : ℕ) (u w : World)
      → Unchanged v u
      → vendor_panel o.vendor_id v.tables ≡ ok panel
      → Asked (call_of panel (client_request o) u.now) k u w
      → AskedFirst k w
  asked_first panel k u w same first a = record {
    panel = panel;
    first = first;
    calls =
        a.calls
        ∙ ap (λ cs. cs ++ replicate k (call_of panel (client_request o) u.now)) same.outside.calls
        ∙ ap (λ t. v.calls ++ replicate k (call_of panel (client_request o) t)) same.outside.now;
    tables = a.tables ∙ same.tables;
    saved = a.saved ∙ same.outside.saved;
  }

  tell :
      (k : ℕ) (w : World)
      → w.sent ≡ v.sent
      → 1 ≤ k
      → k ≤ 3
      → AskedFirst k w
      → Runs w (notify "service.provisioned" (("order_id", num o.id) ∷ [])) (λ _. Told) NotTold
  unfolding notify
  tell k w quiet low high a = record {
    holds = (
      ap (λ s. s ++ done o ∷ []) quiet,
      k,
      low,
      high,
      record {
        panel = a.panel;
        first = a.first;
        calls = a.calls;
        tables = a.tables;
        saved = a.saved;
      },
    );
  }

  -- With no transaction open, whatever statement fails and whatever the panel answers: an approved
  -- order that is handled without an error has asked the first panel of its vendor between one and
  -- three times for the same client and is notified once; with an error nothing is notified, and
  -- the panel was asked three times or nothing at all happened. No row is written in either case.
  pub handle-Told : v.saved ≡ none → Runs v (handle o) (λ _. Told) NotTold
  unfolding handle first_by_vendor
  handle-Told closed =
      bind-Runs
        (weaken-Runs (look-Seen (vendor_panel o.vendor_id) v v closed (Unchanged-refl v))
          (λ a x h. h) (λ x u. (u.outside.sent, inl u)))
        λ panel u (same, first).
          bind-Runs
            (weaken-Runs (provision-Runs panel (client_request o) u) (λ a x h. h)
              (λ x (a, f).
                (a.sent ∙ same.outside.sent, inr (asked_first panel 3 u x same first a))))
            λ _ w (k, low, high, a, f).
              tell k w (a.sent ∙ same.outside.sent) low high (asked_first panel k u w same first a)

-- The world that a worker has come to.
abbrev world_of : Listener → World
world_of (listening w) = w
world_of (panicked w) = w

module _ (o : Order) (v : World) where
  NotTold-tables : (w : World) → NotTold o v w → w.tables ≡ v.tables
  NotTold-tables w (quiet, inl u) = u.tables
  NotTold-tables w (quiet, inr a) = a.tables

  NotTold-saved : (w : World) → NotTold o v w → w.saved ≡ v.saved
  NotTold-saved w (quiet, inl u) = u.outside.saved
  NotTold-saved w (quiet, inr a) = a.saved

  -- Neither rows nor transactions are touched.
  handle-rows :
      v.saved ≡ none → ((handle o v).1.tables ≡ v.tables) × ((handle o v).1.saved ≡ v.saved)
  handle-rows closed =
      Runs-world (λ w. (w.tables ≡ v.tables) × (w.saved ≡ v.saved)) (handle-Told o v closed)
        (λ _ w (sent, k, low, high, a). (a.tables, a.saved))
        (λ w n. (NotTold-tables w n, NotTold-saved w n))

-- With no transaction open, the worker stores nothing, whatever comes on its channel: the clients
-- that the panels make are in no row.
pub listen-tables :
    (ps : List Payload) (v : World) → v.saved ≡ none → (world_of (listen ps v)).tables ≡ v.tables
unfolding listen
listen-tables [] v closed = refl
listen-tables (approved o ∷ ps) v closed =
    let (rows, saved) = handle-rows o v closed in
    listen-tables ps (handle o v).1 (saved ∙ closed) ∙ rows
listen-tables (other ∷ ps) v closed = refl
