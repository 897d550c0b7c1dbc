-- ===== src/Proxy.antt =====
-- internal/proxy/service.go: suspending, resuming and expiring the services of a vendor.
-- `Provision` has the file's Provision, `Uuid` its generateUUID.
pub mod Uuid
pub mod Provision
pub mod Lifecycle
pub mod Expiry
use x_ui_site.Prelude.{ℕ, String, Bool, true, false, not, List, [], ◌∷◌}
use x_ui_site.Db.Rows.{ProxyState, suspended}
use x_ui_site.Db.Errors.{Result, ok, err, new, wrap}
use x_ui_site.Db.Session.{World, M, Value, num, ◌>>=◌, ◌>>◌, lift, or_return, notify}
use x_ui_site.Repository.Statements.{checked}
use x_ui_site.Repository.Proxies

abbrev pub is_suspended : ProxyState → Bool
is_suspended suspended = true
is_suspended _ = false

abbrev pub service_payload : ℕ → ℕ → List (String × Value)
service_payload vendor_id service_id =
    ("service_id", num service_id) ∷ ("vendor_id", num vendor_id) ∷ []

-- Service.Suspend
unfoldable pub suspend : ℕ → ℕ → M (Unit {0})
suspend vendor_id service_id = do
  service ← or_return (wrap "service not found") (Proxies.by_id vendor_id service_id)
  lift (checked (not (is_suspended service.status)) (new "service already suspended") tt)
  Proxies.suspend vendor_id service_id
  notify "service.suspended" (service_payload vendor_id service_id)

-- Service.Resume
unfoldable pub resume : ℕ → ℕ → M (Unit {0})
resume vendor_id service_id = do
  service ← or_return (wrap "service not found") (Proxies.by_id vendor_id service_id)
  lift (checked (is_suspended service.status) (new "service is not suspended") tt)
  Proxies.resume vendor_id service_id
  notify "service.resumed" (service_payload vendor_id service_id)

-- Service.RunExpiryJob, which only logs what MarkExpired answers.
unfoldable pub run_expiry_job : World → World
run_expiry_job w = (Proxies.mark_expired w).1
