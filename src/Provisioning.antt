-- ===== src/Provisioning.antt =====
-- internal/provisioning/worker_v2.go with internal/xui: the panel is asked for a client, up to
-- three times (`provision`), and the worker turns one queued job into a proxy service.
pub mod Delivery
pub mod Stored
pub mod Transaction
pub mod Handling
pub mod Claims
pub mod Queue
pub mod Repeats
pub mod Older
pub mod Asking
pub mod Delivers
use Prim.Native.String
use x_ui_site.Prelude.{
  ℕ, zero, suc, ◌+◌, String, Bool, true, false, Option, none, some, List, [], ◌∷◌, ◌++◌, ltb, leb,
  tail, if◌then◌else◌,
}
use x_ui_site.Prelude.Int.{ℤ, pos, pos_part, neg_part, ◌+ℤ◌, ◌*ℤ◌, wrap64, floor_div}
use x_ui_site.Prelude.Decimal.{decimal}
use x_ui_site.Db.Rows.{Order, Panel, Job, CatalogItem, ProxyService, ProxyState}
use x_ui_site.Db.Rows
use x_ui_site.Db.Errors.{Error, Result, ok, err, new, wrap}
use x_ui_site.Db.Session.{
  World, M, Value, num, text, ProvisionCall, ProvisionResponse, PanelReply, pure, raise, lift, gets,
  ◌>>=◌, ◌>>◌, begin, commit, look, or_return, or_rollback, notify,
}
use x_ui_site.Repository.Orders
use x_ui_site.Repository.Proxies
use x_ui_site.Repository.Catalog
use x_ui_site.Repository.Panels.{TokenCipher, first_active}
use x_ui_site.Repository.Jobs.{claim_next, mark_done, mark_failed, job_retries}

abbrev pub hour : ℕ
hour = 3600000000000

-- time.Duration(days) * 24 * time.Hour, in int64
unfoldable pub duration_of_days : ℤ → ℤ
duration_of_days days = wrap64 (wrap64 (days *ℤ pos 24) *ℤ pos hour)

-- time.Now().Add(…).Unix()
unfoldable pub expiry_unix : ℕ → ℤ → ℤ
unfolding duration_of_days
expiry_unix now days = floor_div (pos now +ℤ duration_of_days days) 1000000000

abbrev pub next_reply : List (Option PanelReply) → Option PanelReply
next_reply [] = none
next_reply (r ∷ rs) = r

abbrev pub decoded : Option ProvisionResponse → Result ProvisionResponse
decoded none = err (new "invalid response")
decoded (some r) = ok r

abbrev pub answer_of : Option PanelReply → Result ProvisionResponse
answer_of none = err (new "request failed")
answer_of (some r) = if ltb r.status 300 then decoded r.body else err (new "xui create failed")

-- Client.CreateClient: one POST to the panel. A reply holds its expires_at as the time that
-- time.Unix makes of it; panels have URLs that parse.
unfoldable pub create_client : ProvisionCall → M ProvisionResponse
create_client call w = (
  answer_of (next_reply w.replies),
  record w { calls = w.calls ++ call ∷ []; replies = tail w.replies },
)

abbrev pub recover_with : {A : Type 0} → (Error → M A) → Result A → World → Result A × World
recover_with h (ok a) w = (ok a, w)
recover_with h (err e) w = h e w

-- The loop of MultiPanelAdapter.Provision, with the attempts that are left and the last error.
unfoldable pub attempts : ℕ → Error → ProvisionCall → M ProvisionResponse
attempts zero last call w = (err (wrap "provision failed after retries" last), w)
attempts (suc n) last call w =
    recover_with (λ e. attempts n e call) (create_client call w).0 (create_client call w).1

-- NewAdapter
abbrev pub adapter_retries : ℕ
adapter_retries = 3

-- xui.ProvisionRequest
pub record ProvisionRequest : Type 0 where
  pub vendor_id : ℕ
  pub user_id : ℕ
  pub email : String
  pub protocol : String
  pub uuid : String
  pub duration_days : ℤ
  pub traffic_gb : ℤ

abbrev pub call_of : Panel → ProvisionRequest → ℕ → ProvisionCall
call_of panel req now = record {
  panel = panel;
  user_id = req.user_id;
  email = req.email;
  protocol = req.protocol;
  uuid = req.uuid;
  expiry_unix = expiry_unix now req.duration_days;
  traffic_gb = req.traffic_gb;
}

-- MultiPanelAdapter.Provision
unfoldable pub provision : Panel → ProvisionRequest → M ProvisionResponse
unfolding attempts
provision panel req w = attempts adapter_retries (new "") (call_of panel req w.now) w

-- MultiPanelAdapter.Renew
abbrev adapter_renew : Panel → String → ℤ → ℤ → M ProvisionResponse
adapter_renew panel uuid add_days add_gb = provision panel (record {
  vendor_id = 0;
  user_id = 0;
  email = uuid;
  protocol = "";
  uuid = uuid;
  duration_days = add_days;
  traffic_gb = add_gb;
})

-- fmt.Sprintf("svc-%d-%d", o.UserID, time.Now().UnixNano())
unfoldable pub service_uuid : ℕ → ℕ → String
service_uuid user_id now =
    String.◌++◌ "svc-" (String.◌++◌ (decimal user_id) (String.◌++◌ "-" (decimal now)))

-- fmt.Sprintf("%s/sub/%s", panelURL, uuid)
unfoldable pub subscription_url : String → String → String
subscription_url panel_url uuid = String.◌++◌ panel_url (String.◌++◌ "/sub/" uuid)

abbrev pub service_request : Order → CatalogItem → ℕ → ProvisionRequest
service_request o item now = record {
  vendor_id = o.vendor_id;
  user_id = o.user_id;
  email = "user";
  protocol = item.protocol;
  uuid = service_uuid o.user_id now;
  duration_days = item.duration_days;
  traffic_gb = item.traffic_limit_gb;
}

-- The repository.ProxyServiceRecord that the worker stores.
abbrev pub new_service : Panel → Order → CatalogItem → ProvisionResponse → ProxyService
new_service panel o item pr = record {
  id = 0;
  vendor_id = panel.vendor_id;
  user_id = o.user_id;
  order_id = some o.id;
  panel_id = none;
  uuid = pr.uuid;
  protocol = item.protocol;
  subscription_url = subscription_url panel.url pr.uuid;
  qr_payload = subscription_url panel.url pr.uuid;
  config_payload = "";
  status = Rows.ProxyState.active;
  expires_at = some pr.expires_at;
  traffic_used_gb = pos 0;
  traffic_limit_gb = item.traffic_limit_gb;
  duration_days = item.duration_days;
}

abbrev pub same_error : Error → Error
same_error e = e

-- The transaction of handleJob.
unfoldable pub store_service : ℕ → ProxyService → M ℕ
store_service order_id service = do
  id ← or_rollback same_error (Proxies.create_tx service)
  or_rollback same_error (Orders.link_service_tx order_id id)
  pure id

abbrev pub provisioned_payload : ℕ → ℕ → List (String × Value)
provisioned_payload order_id service_id =
    ("order_id", num order_id) ∷ ("service_id", num service_id) ∷ []

abbrev pub max_retries : ℕ
max_retries = 5

abbrev pub scanned : Result ℕ → ℕ
scanned (ok n) = n
scanned (err e) = 0

-- What the loop does after a job: its failure with the retries read anew, or its end. Errors of
-- these statements are ignored.
unfoldable pub settle_job : ℕ → Result (Unit {0}) → World → World
settle_job job_id (ok _) w = (mark_done job_id w).1
settle_job job_id (err e) w =
    let (retries, w') = look (job_retries job_id) w in
    (mark_failed job_id e (leb max_retries (scanned retries + 1)) w').1

module _ (cipher : TokenCipher) where
  -- WorkerV2.handleJob
  unfoldable pub handle_job : ℕ → ℕ → M (Unit {0})
  handle_job order_id vendor_id = do
    o ← Orders.by_id vendor_id order_id
    panel ← first_active cipher vendor_id
    item ← Catalog.get_by_id o.catalog_id
    now ← gets (λ w. w.now)
    pr ← provision panel (service_request o item now)
    begin
    service_id ← store_service o.id (new_service panel o item pr)
    commit
    notify "service.provisioned" (provisioned_payload o.id service_id)

  abbrev pub handled : Result Job → World → World
  handled (err e) w = w
  handled (ok j) w =
      settle_job j.id (handle_job j.order_id j.vendor_id w).0
        (handle_job j.order_id j.vendor_id w).1

  -- One tick of the loop of WorkerV2.Start.
  unfoldable pub tick : World → World
  tick w = handled (claim_next w).0 (claim_next w).1
