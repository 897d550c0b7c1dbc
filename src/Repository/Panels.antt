-- ===== src/Repository/Panels.antt =====
-- XUIPanelRepository of internal/repository/proxy_repository.go. The token of a panel is stored
-- encrypted; the cipher is a value here, and internal/security/crypto.go is one (`Security/Cipher`).
use x_ui_site.Prelude.{
  ℕ, ◌+◌, String, Bool, false, not, ◌&&◌, List, [], ◌∷◌, ◌++◌, find, select, update_where, ◌==◌,
}
use x_ui_site.Db.Rows.{Tables, Panel, PanelRow}
use x_ui_site.Db.Errors.{Result, ok, err, foreign_key_violation, map_ok}
use x_ui_site.Db.Session.{M, Sql, query, exec, look, lift, ◌>>=◌}
use x_ui_site.Repository.Statements.{scan_row, checked, has_vendor}

-- security.Encrypt and security.Decrypt under the passphrase of the repository.
pub record TokenCipher : Type 0 where
  pub encrypt : String → Result String
  pub decrypt : String → Result String

-- INSERT INTO xui_panels(…) RETURNING id; health defaults to 'unknown'.
unfoldable pub insert_panel : Panel → Sql ℕ
insert_panel p s t =
    let row : PanelRow = record {
      panel = record p { id = s.xui_panels; health = "unknown" };
      deleted = false;
    } in
    (
      record s { xui_panels = s.xui_panels + 1 },
      checked (has_vendor p.vendor_id t) foreign_key_violation
          (s.xui_panels, record t { xui_panels = t.xui_panels ++ row ∷ [] }),
    )

abbrev pub is_first_active : ℕ → PanelRow → Bool
is_first_active vendor_id r = r.panel.vendor_id == vendor_id && r.panel.is_active && not r.deleted

abbrev pub active_panel : ℕ → Tables → Result Panel
active_panel vendor_id t =
    map_ok (λ r. r.panel) (scan_row (find (is_first_active vendor_id) t.xui_panels))

abbrev with_health : String → PanelRow → PanelRow
with_health health r = record r { panel = record (r.panel) { health = health } }

-- UpdateHealth
pub update_health : ℕ → String → M (Unit {0})
update_health id health = exec (
    query λ t. ok (
      tt,
      record t {
        xui_panels = update_where (λ r. r.panel.id == id) (with_health health) t.xui_panels;
      },
    ))

module _ (cipher : TokenCipher) where
  -- Create
  unfoldable pub create : Panel → M ℕ
  create p = do
    token ← lift (cipher.encrypt p.token)
    exec (insert_panel (record p { token = token }))

  abbrev pub with_token : Panel → Result String → Result Panel
  with_token p r = map_ok (λ token. record p { token = token }) r

  -- FirstActive: rows stand in the order of their ids. On an error the caller drops the record.
  unfoldable pub first_active : ℕ → M Panel
  first_active vendor_id = do
    p ← look (active_panel vendor_id)
    lift (with_token p (cipher.decrypt p.token))

  abbrev cons_ok : Panel → Result (List Panel) → Result (List Panel)
  cons_ok p r = map_ok (λ ps. p ∷ ps) r

  abbrev and_then : Result Panel → Result (List Panel) → Result (List Panel)
  and_then (ok p) rest = cons_ok p rest
  and_then (err e) rest = err e

  -- The loop of ListByVendor: the first token that does not decrypt ends it.
  abbrev decrypted : List PanelRow → Result (List Panel)
  decrypted [] = ok []
  decrypted (r ∷ rs) = and_then (with_token r.panel (cipher.decrypt r.panel.token)) (decrypted rs)

  -- ListByVendor
  unfoldable pub list_by_vendor : ℕ → M (List Panel)
  list_by_vendor vendor_id =
      look
        λ t. decrypted (select (λ r. r.panel.vendor_id == vendor_id && not r.deleted) t.xui_panels)
