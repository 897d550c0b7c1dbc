-- ===== src/Proxy/Provision.antt =====
-- Service.Provision of internal/proxy/service.go.
pub mod Outcome
pub mod Atomic
use x_ui_site.Prelude.{ℕ, String, Option, none, some, List, [], ◌∷◌, tail}
use Prim.Native.String
use x_ui_site.Prelude.Decimal.{decimal}
use x_ui_site.Prelude.Int.{ℤ, pos, ◌+ℤ◌}
use x_ui_site.Db.Rows.{Panel, ProxyService, ProxyState}
use x_ui_site.Db.Rows
use x_ui_site.Db.Errors.{Error, Result, ok, err, new, wrap}
use x_ui_site.Db.Session.{
  World, M, Value, num, text, ◌>>=◌, ◌>>◌, pure, raise, gets, begin, commit, or_return, or_rollback,
  notify,
}
use x_ui_site.Db.Session
use x_ui_site.Repository.Panels.{TokenCipher, first_active}
use x_ui_site.Repository.Proxies.{create_tx, update_status}
use x_ui_site.Provisioning.{duration_of_days, subscription_url, provision}
use x_ui_site.Provisioning
use x_ui_site.Proxy.Uuid.{generate_uuid}

pub record ProvisionRequest : Type 0 where
  pub vendor_id : ℕ
  pub user_id : ℕ
  pub order_id : Option ℕ
  pub protocol : String
  pub traffic_limit_gb : ℤ
  pub duration_days : ℤ

pub record ProvisionResponse : Type 0 where
  pub service_id : ℕ
  pub uuid : String
  pub subscription_url : String
  pub expires_at : ℤ
  pub status : ProxyState

abbrev pub read_bytes : List (List ℕ) → List ℕ
read_bytes [] = []
read_bytes (bs ∷ rest) = bs

abbrev no_panel : ℕ → String
no_panel vendor_id = String.◌++◌ "no active panel for vendor " (decimal vendor_id)

-- rand.Read
unfoldable pub draw : M (List ℕ)
draw w = (ok (read_bytes w.random), record w { random = tail w.random })

-- time.Now().Add(…)
abbrev pub expiry : ℕ → ℤ → ℤ
expiry now days = pos now +ℤ duration_of_days days

-- The repository.ProxyServiceRecord that is inserted.
abbrev pub new_record : Panel → ProvisionRequest → String → ℕ → ProxyService
new_record panel req uuid now = record {
  id = 0;
  vendor_id = req.vendor_id;
  user_id = req.user_id;
  order_id = req.order_id;
  panel_id = some panel.id;
  uuid = uuid;
  protocol = req.protocol;
  subscription_url = subscription_url panel.url uuid;
  qr_payload = subscription_url panel.url uuid;
  config_payload = "";
  status = ProxyState.provisioning;
  expires_at = some (expiry now req.duration_days);
  traffic_used_gb = pos 0;
  traffic_limit_gb = req.traffic_limit_gb;
  duration_days = req.duration_days;
}

-- What the panel is asked for; no email is set.
abbrev pub panel_request : ProvisionRequest → String → Provisioning.ProvisionRequest
panel_request req uuid = record {
  vendor_id = req.vendor_id;
  user_id = req.user_id;
  email = "";
  protocol = req.protocol;
  uuid = uuid;
  duration_days = req.duration_days;
  traffic_gb = req.traffic_limit_gb;
}

-- The status is updated whatever the panel answered, and the error of that update is ignored.
abbrev pub record_status : ℕ → ℕ → ProxyState → M (Unit {0})
record_status vendor_id service_id status w =
    (ok tt, (update_status vendor_id service_id status w).1)

abbrev pub provisioned_payload : ProvisionRequest → ℕ → String → List (String × Value)
provisioned_payload req service_id uuid =
    ("service_id", num service_id)
    ∷ ("vendor_id", num req.vendor_id)
    ∷ ("user_id", num req.user_id)
    ∷ ("uuid", text uuid)
    ∷ []

abbrev pub response : Panel → ProvisionRequest → String → ℕ → ℕ → ProvisionResponse
response panel req uuid now service_id = record {
  service_id = service_id;
  uuid = uuid;
  subscription_url = subscription_url panel.url uuid;
  expires_at = expiry now req.duration_days;
  status = ProxyState.active;
}

-- What follows the answer of the panel.
unfoldable pub conclude :
    Panel
    → ProvisionRequest
    → String
    → ℕ
    → ℕ
    → Result Session.ProvisionResponse
    → M ProvisionResponse
conclude panel req uuid now service_id (ok _) = do
  record_status req.vendor_id service_id ProxyState.active
  notify "service.provisioned" (provisioned_payload req service_id uuid)
  pure (response panel req uuid now service_id)
conclude panel req uuid now service_id (err e) = do
  record_status req.vendor_id service_id ProxyState.failed
  raise (wrap "xui provision" e)

abbrev pub attempt : {A : Type 0} → M A → M (Result A)
attempt m w = (ok (m w).0, (m w).1)

module _ (cipher : TokenCipher) where
  -- Service.Provision
  unfoldable pub provision_service : ProvisionRequest → M ProvisionResponse
  provision_service req = do
    panel ← or_return (wrap (no_panel req.vendor_id)) (first_active cipher req.vendor_id)
    bytes ← draw
    now ← gets (λ w. w.now)
    or_return (wrap "begin tx") begin
    service_id ←
        or_rollback (wrap "create proxy service")
          (create_tx (new_record panel req (generate_uuid bytes) now))
    or_return (wrap "commit") commit
    answer ← attempt (provision panel (panel_request req (generate_uuid bytes)))
    conclude panel req (generate_uuid bytes) now service_id answer
