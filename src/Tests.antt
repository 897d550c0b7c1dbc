-- ===== src/Tests.antt =====
-- A small shop: one vendor, one customer with 100 in the wallet, one item at 30, one panel.
mod Toys
mod Utf8
mod Start
mod Server
mod Orders
mod Worker
mod Services
mod Accounts
mod Books
mod System
mod Older
use x_ui_site.Prelude.{ℕ, String, true, false, none, some, List, [], ◌∷◌}
use x_ui_site.Prelude.Int.{pos}
use x_ui_site.Db.Rows.{
  Tables, Seqs, CatalogItem, Order, ProxyService, Panel, Job, UserRow, VendorRow, WalletRow,
  WalletTx, CatalogRow, OrderRow, ProxyRow, PanelRow, OrderState, ProxyState, JobState,
}
use x_ui_site.Db.Errors.{ok}
use x_ui_site.Db.Session.{World, Fault, PanelReply}
use x_ui_site.Repository.Panels.{TokenCipher}
use x_ui_site.Order.{CreateRequest}

abbrev item : CatalogItem
item = record {
  vendor_id = 1;
  slug = "basic";
  title = "Basic";
  description = "";
  protocol = "vless";
  inbound_id = 1;
  xui_node_id = 1;
  traffic_limit_gb = pos 50;
  duration_days = pos 30;
  price_toman = pos 30;
  is_active = true;
  auto_provision = true;
  renewal_enabled = true;
  country_code = "DE";
  stock_status = "in_stock";
}

abbrev panel : Panel
panel = record {
  id = 1;
  vendor_id = 1;
  name = "main";
  url = "https://panel";
  token = "t";
  inbound_id = 1;
  is_active = true;
  health = "unknown";
}

abbrev old_order : Order
old_order = record {
  id = 1;
  vendor_id = 1;
  user_id = 1;
  catalog_id = 7;
  service_id = none;
  amount = pos 30;
  status = OrderState.approved;
  lifecycle_state = OrderState.pending;
  idempotency_key = some "first";
}

abbrev service : ProxyService
service = record {
  id = 1;
  vendor_id = 1;
  user_id = 1;
  order_id = some 1;
  panel_id = none;
  uuid = "u1";
  protocol = "vless";
  subscription_url = "https://panel/sub/u1";
  qr_payload = "https://panel/sub/u1";
  config_payload = "";
  status = ProxyState.active;
  expires_at = some (pos 500);
  traffic_used_gb = pos 0;
  traffic_limit_gb = pos 50;
  duration_days = pos 30;
}

abbrev queued_job : Job
queued_job = record {
  id = 1;
  vendor_id = 1;
  order_id = 1;
  status = JobState.pending;
  retries = 0;
  last_error = none;
  dead_letter = false;
  deleted = false;
}

abbrev wallet : WalletRow
wallet = record { id = 1; user_id = 1; balance = pos 100; deleted = false }

abbrev pub shop : Tables
shop = record {
  users =
      record { id = 1; email = "a@b"; password_hash = "h"; role = "user"; deleted = false } ∷ [];
  vendors =
      record {
        id = 1;
        owner_user_id = 1;
        name = "v";
        slug = "v";
        status = "active";
        deleted = false;
      }
      ∷ [];
  wallets = wallet ∷ [];
  wallet_transactions =
      record {
        id = 1;
        wallet_id = 1;
        user_id = 1;
        amount = pos 100;
        type = "topup";
        deleted = false;
      }
      ∷ [];
  service_catalog = 7 ∷ [];
  catalog_items = record { id = 7; item = item; deleted = false } ∷ [];
  orders = record { order = old_order; deleted = false } ∷ [];
  order_idempotency_keys = [];
  provisioning_jobs = queued_job ∷ [];
  proxy_services = record { service = service; deleted = false } ∷ [];
  xui_panels = record { panel = panel; deleted = false } ∷ [];
  vendor_panels =
      record {
        vendor_id = 1;
        name = "p";
        url = "http://p";
        token = "t";
        inbound_id = 1;
        deleted = false;
      }
      ∷ [];
  services = [];
}

-- The world at 1000 ns: the next answers of the panel are an error and a client.
abbrev pub world : World
world = record {
  tables = shop;
  seqs = record {
    users = 2;
    vendors = 2;
    wallets = 2;
    wallet_transactions = 2;
    catalog_items = 8;
    orders = 2;
    provisioning_jobs = 2;
    proxy_services = 2;
    xui_panels = 2;
    services = 1;
  };
  saved = none;
  faults = [];
  now = 1000;
  sent = [];
  calls = [];
  replies =
      none
      ∷ some (record { status = 200; body = some (record { uuid = "u2"; expires_at = pos 9000 }) })
      ∷ [];
  random = [];
  audits = [];
}

abbrev pub request : CreateRequest
request = record { vendor_id = 1; user_id = 1; catalog_id = 7; idempotency_key = "k" }

abbrev pub plain : TokenCipher
plain = record { encrypt = ok; decrypt = ok }
