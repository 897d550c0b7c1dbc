-- ===== src/Repository/Proxies.antt =====
-- ProxyServiceRepository of internal/repository/proxy_repository.go.
use x_ui_site.Prelude.{
  ℕ, ◌+◌, String, str_eq, Bool, true, false, not, ◌&&◌, Option, none, some, List, [], ◌∷◌, ◌++◌,
  find, any, select, reverse, map, update_where, count_where, ◌==◌, if◌then◌else◌,
}
use x_ui_site.Prelude.Int.{ℤ, pos, ◌+ℤ◌, ◌*ℤ◌, ltb_ℤ, fits32}
use x_ui_site.Db.Rows.{Tables, ProxyService, ProxyRow, ProxyState, active, suspended, expired}
use x_ui_site.Db.Errors.{Result, ok, foreign_key_violation, map_ok}
use x_ui_site.Db.Session.{M, Sql, query, read, exec, look}
use x_ui_site.Repository.Statements.{
  scan_row, checked, unless_taken, in_range, has_user, has_vendor,
}

abbrev pub known_order : Option ℕ → Tables → Bool
known_order none t = true
known_order (some id) t = any (λ r. r.order.id == id) t.orders

-- INSERT INTO proxy_services … RETURNING id; uuid is unique among the rows not deleted.
-- traffic_limit_gb and duration_days are INT. traffic_used_gb is not inserted and defaults to 0.
unfoldable pub insert_proxy : ProxyService → Sql ℕ
insert_proxy p s t =
    let row : ProxyRow = record {
      service = record p { id = s.proxy_services; traffic_used_gb = pos 0 };
      deleted = false;
    } in
    (
      record s { proxy_services = s.proxy_services + 1 },
      in_range (fits32 p.traffic_limit_gb && fits32 p.duration_days) (
          unless_taken (any (λ r. str_eq r.service.uuid p.uuid && not r.deleted) t.proxy_services) (
            checked (has_vendor p.vendor_id t && has_user p.user_id t && known_order p.order_id t)
              foreign_key_violation
              (s.proxy_services, record t { proxy_services = t.proxy_services ++ row ∷ [] }))),
    )

-- CreateTx
unfoldable pub create_tx : ProxyService → M ℕ
create_tx p = exec (insert_proxy p)

abbrev pub proxy_where : (ProxyService → Bool) → Tables → Result ProxyService
proxy_where p t =
    map_ok (λ r. r.service) (scan_row (find (λ r. p r.service && not r.deleted) t.proxy_services))

-- id=$1 AND vendor_id=$2
abbrev pub of_vendor : ℕ → ℕ → ProxyService → Bool
of_vendor vendor_id id p = p.id == id && p.vendor_id == vendor_id

-- id=$1 AND user_id=$2
abbrev pub of_user : ℕ → ℕ → ProxyService → Bool
of_user id user_id p = p.id == id && p.user_id == user_id

-- ByID
unfoldable pub by_id : ℕ → ℕ → M ProxyService
by_id vendor_id id = look (proxy_where (of_vendor vendor_id id))

-- ByIDForUserTx
unfoldable pub by_id_for_user_tx : ℕ → ℕ → M ProxyService
by_id_for_user_tx id user_id = exec (read (proxy_where (of_user id user_id)))

-- ByIDForUser
unfoldable pub by_id_for_user : ℕ → ℕ → M ProxyService
by_id_for_user id user_id = look (proxy_where (of_user id user_id))

-- ByUUID
pub by_uuid : ℕ → String → M ProxyService
by_uuid vendor_id uuid = look (proxy_where (λ p. str_eq p.uuid uuid && p.vendor_id == vendor_id))

abbrev pub proxies_where : (ProxyService → Bool) → Tables → Result (List ProxyService)
proxies_where p t =
    ok
      (map (λ r. r.service) (reverse (select (λ r. p r.service && not r.deleted) t.proxy_services)))

-- ListAllByUser; rows stand in the order of their ids.
unfoldable pub list_all_by_user : ℕ → M (List ProxyService)
list_all_by_user user_id = look (proxies_where (λ p. p.user_id == user_id))

-- ListByUser
unfoldable pub list_by_user : ℕ → ℕ → M (List ProxyService)
list_by_user vendor_id user_id =
    look (proxies_where (λ p. p.vendor_id == vendor_id && p.user_id == user_id))

-- A day in nanoseconds; the intervals of a session in UTC.
abbrev pub day : ℕ
day = 86400000000000

abbrev pub days_after : ℤ → ℤ → ℤ
days_after t days = t +ℤ (pos day *ℤ days)

-- CASE WHEN expires_at IS NULL OR expires_at < now() THEN now() + days ELSE expires_at + days
unfoldable pub extended : ℕ → ℤ → Option ℤ → ℤ
extended now days none = days_after (pos now) days
extended now days (some e) = days_after (if ltb_ℤ e (pos now) then pos now else e) days

abbrev pub with_expiry : ℕ → ℤ → ProxyRow → ProxyRow
with_expiry now days r = record r {
  service = record (r.service) { expires_at = some (extended now days r.service.expires_at) };
}

unfoldable pub update_expiry : ℕ → ℤ → ℕ → Sql (Unit {0})
update_expiry id days now = query λ t. ok (
  tt,
  record t {
    proxy_services = update_where (λ r. r.service.id == id) (with_expiry now days) t.proxy_services;
  },
)

-- ExtendExpiryTx
unfoldable pub extend_expiry_tx : ℕ → ℤ → M (Unit {0})
extend_expiry_tx id days w = exec (update_expiry id days w.now) w

abbrev pub with_status : ProxyState → ProxyRow → ProxyRow
with_status status r = record r { service = record (r.service) { status = status } }

abbrev pub set_status : ℕ → ℕ → ProxyState → Tables → Tables
set_status vendor_id id status t = record t {
  proxy_services =
      update_where (λ r. of_vendor vendor_id id r.service) (with_status status) t.proxy_services;
}

-- UpdateStatus
unfoldable pub update_status : ℕ → ℕ → ProxyState → M (Unit {0})
update_status vendor_id id status = exec (query λ t. ok (tt, set_status vendor_id id status t))

-- Suspend
unfoldable pub suspend : ℕ → ℕ → M (Unit {0})
unfolding update_status
suspend vendor_id id = update_status vendor_id id suspended

-- Resume
unfoldable pub resume : ℕ → ℕ → M (Unit {0})
unfolding update_status
resume vendor_id id = update_status vendor_id id active

abbrev pub is_active : ProxyState → Bool
is_active active = true
is_active _ = false

-- expires_at < now(), which a NULL does not satisfy
abbrev pub is_past : ℕ → Option ℤ → Bool
is_past now none = false
is_past now (some e) = ltb_ℤ e (pos now)

abbrev pub is_due : ℕ → ProxyRow → Bool
is_due now r = is_active r.service.status && is_past now r.service.expires_at && not r.deleted

unfoldable pub expire_rows : ℕ → Sql ℕ
expire_rows now = query λ t. ok (
  count_where (is_due now) t.proxy_services,
  record t { proxy_services = update_where (is_due now) (with_status expired) t.proxy_services },
)

-- MarkExpired
unfoldable pub mark_expired : M ℕ
mark_expired w = exec (expire_rows w.now) w
