-- ===== src/Repository/Older.antt =====
-- internal/repository/provisioning_repository.go: the tables of the older worker.
use x_ui_site.Prelude.{
  ℕ, ◌+◌, String, false, not, ◌&&◌, [], ◌∷◌, ◌++◌, find, any, update_where, ◌==◌, if◌then◌else◌,
}
use x_ui_site.Prelude.Int.{fits32, ℤ, ◌+ℤ◌}
use x_ui_site.Db.Rows.{Tables, Panel, VendorPanelRow, ServiceRow}
use x_ui_site.Db.Errors.{Result, err, map_ok, foreign_key_violation, out_of_range}
use x_ui_site.Db.Session.{M, Sql, query, exec, look}
use x_ui_site.Repository.Statements.{scan_row, checked, has_user, has_vendor}
use x_ui_site.Repository.Proxies.{days_after}

-- xui.Panel, which has no id, no flag and no health
abbrev pub panel_of : VendorPanelRow → Panel
panel_of r = record {
  id = 0;
  vendor_id = r.vendor_id;
  name = r.name;
  url = r.url;
  token = r.token;
  inbound_id = r.inbound_id;
  is_active = false;
  health = "";
}

abbrev pub vendor_panel : ℕ → Tables → Result Panel
vendor_panel vendor_id t =
    map_ok panel_of
      (scan_row (find (λ r. r.vendor_id == vendor_id && not r.deleted) t.vendor_panels))

-- PanelRepository.FirstByVendor: rows stand in the order of their ids.
unfoldable pub first_by_vendor : ℕ → M Panel
first_by_vendor vendor_id = look (vendor_panel vendor_id)

-- models.ProxyService, but for the id and the time that the database chooses
pub record NewService : Type 0 where
  pub vendor_id : ℕ
  pub user_id : ℕ
  pub uuid : String
  pub protocol : String
  pub expires_at : ℤ
  pub traffic_gb : ℤ

abbrev service_row : NewService → ℕ → ServiceRow
service_row s id = record {
  id = id;
  vendor_id = s.vendor_id;
  user_id = s.user_id;
  uuid = s.uuid;
  protocol = s.protocol;
  expires_at = s.expires_at;
  traffic_gb = s.traffic_gb;
  status = "active";
  deleted = false;
}

abbrev insert_service : NewService → Sql ℕ
insert_service s q t = (
  record q { services = q.services + 1 },
  if fits32 s.traffic_gb
      then checked (has_vendor s.vendor_id t && has_user s.user_id t) foreign_key_violation
          (q.services, record t { services = t.services ++ service_row s q.services ∷ [] })
      else err out_of_range,
)

-- ServiceRepository.Create
pub create : NewService → M ℕ
create s = exec (insert_service s)

abbrev longer : ℤ → ℤ → ServiceRow → ServiceRow
longer days gb r = record r {
  expires_at = days_after r.expires_at days;
  traffic_gb = r.traffic_gb +ℤ gb;
}

-- ServiceRepository.Extend
pub extend : ℕ → ℤ → ℤ → M (Unit {0})
extend id days gb = exec (
    query λ t.
      checked
        (fits32 gb && not (any (λ r. r.id == id && not (fits32 (r.traffic_gb +ℤ gb))) t.services))
        out_of_range
        (tt, record t { services = update_where (λ r. r.id == id) (longer days gb) t.services }))
