-- ===== src/Db/Rows.antt =====
-- The tables (migrations/001_init.sql to 005_security.sql) and the structs that carry their rows
-- (internal/models, internal/repository). Ids are BIGSERIAL and only compared, so they are ℕ;
-- `deleted` is `deleted_at IS NOT NULL`. The columns created_at and updated_at are left out.
use x_ui_site.Prelude.{ℕ, String, Bool, Option, List}
use x_ui_site.Prelude.Int.{ℤ}
use x_ui_site.Db.Errors.{Error}

-- The states of orders in internal/order/service.go.
pub data OrderState : Type 0 where
  approved pending provisioning active suspended expired failed : OrderState

-- The states of proxy services in internal/proxy/service.go.
pub data ProxyState : Type 0 where
  queued provisioning active failed suspended expired : ProxyState

-- What the statements on provisioning_jobs write into its status.
pub data JobState : Type 0 where
  pending provisioning done failed : JobState

pub record UserRow : Type 0 where
  pub id : ℕ
  pub email : String
  pub password_hash : String
  pub role : String
  pub deleted : Bool

pub record VendorRow : Type 0 where
  pub id : ℕ
  pub owner_user_id : ℕ
  pub name : String
  pub slug : String
  pub status : String
  pub deleted : Bool

pub record WalletRow : Type 0 where
  pub id : ℕ
  pub user_id : ℕ
  pub balance : ℤ
  pub deleted : Bool

-- `amount` is signed: a debit is negative.
pub record WalletTx : Type 0 where
  pub id : ℕ
  pub wallet_id : ℕ
  pub user_id : ℕ
  pub amount : ℤ
  pub type : String
  pub deleted : Bool

-- repository.CatalogItemInput
pub record CatalogItem : Type 0 where
  pub vendor_id : ℕ
  pub slug : String
  pub title : String
  pub description : String
  pub protocol : String
  pub inbound_id : ℕ
  pub xui_node_id : ℕ
  pub traffic_limit_gb : ℤ
  pub duration_days : ℤ
  pub price_toman : ℤ
  pub is_active : Bool
  pub auto_provision : Bool
  pub renewal_enabled : Bool
  pub country_code : String
  pub stock_status : String

pub record CatalogRow : Type 0 where
  pub id : ℕ
  pub item : CatalogItem
  pub deleted : Bool

-- models.Order
pub record Order : Type 0 where
  pub id : ℕ
  pub vendor_id : ℕ
  pub user_id : ℕ
  pub catalog_id : ℕ
  pub service_id : Option ℕ
  pub amount : ℤ
  pub status : OrderState
  pub lifecycle_state : OrderState
  pub idempotency_key : Option String

pub record OrderRow : Type 0 where
  pub order : Order
  pub deleted : Bool

pub record KeyRow : Type 0 where
  pub vendor_id : ℕ
  pub user_id : ℕ
  pub idempotency_key : String
  pub order_id : Option ℕ

-- `last_error` is the error whose text the column holds.
pub record Job : Type 0 where
  pub id : ℕ
  pub vendor_id : ℕ
  pub order_id : ℕ
  pub status : JobState
  pub retries : ℕ
  pub last_error : Option Error
  pub dead_letter : Bool
  pub deleted : Bool

-- repository.ProxyServiceRecord; times are nanoseconds since the epoch.
pub record ProxyService : Type 0 where
  pub id : ℕ
  pub vendor_id : ℕ
  pub user_id : ℕ
  pub order_id : Option ℕ
  pub panel_id : Option ℕ
  pub uuid : String
  pub protocol : String
  pub subscription_url : String
  pub qr_payload : String
  pub config_payload : String
  pub status : ProxyState
  pub expires_at : Option ℤ
  pub traffic_used_gb : ℤ
  pub traffic_limit_gb : ℤ
  pub duration_days : ℤ

pub record ProxyRow : Type 0 where
  pub service : ProxyService
  pub deleted : Bool

-- repository.XUIPanelRecord; in a row `token` is the encrypted token.
pub record Panel : Type 0 where
  pub id : ℕ
  pub vendor_id : ℕ
  pub name : String
  pub url : String
  pub token : String
  pub inbound_id : ℕ
  pub is_active : Bool
  pub health : String

pub record PanelRow : Type 0 where
  pub panel : Panel
  pub deleted : Bool

-- The tables of the older worker.
pub record VendorPanelRow : Type 0 where
  pub vendor_id : ℕ
  pub name : String
  pub url : String
  pub token : String
  pub inbound_id : ℕ
  pub deleted : Bool

pub record ServiceRow : Type 0 where
  pub id : ℕ
  pub vendor_id : ℕ
  pub user_id : ℕ
  pub uuid : String
  pub protocol : String
  pub expires_at : ℤ
  pub traffic_gb : ℤ
  pub status : String
  pub deleted : Bool

-- `service_catalog` holds ids alone: nothing in the program reads or writes that table, but
-- orders.catalog_id references it.
pub record Tables : Type 0 where
  pub users : List UserRow
  pub vendors : List VendorRow
  pub wallets : List WalletRow
  pub wallet_transactions : List WalletTx
  pub service_catalog : List ℕ
  pub catalog_items : List CatalogRow
  pub orders : List OrderRow
  pub order_idempotency_keys : List KeyRow
  pub provisioning_jobs : List Job
  pub proxy_services : List ProxyRow
  pub xui_panels : List PanelRow
  pub vendor_panels : List VendorPanelRow
  pub services : List ServiceRow

-- The next value of each BIGSERIAL that a statement draws from. A rollback does not reset them.
pub record Seqs : Type 0 where
  pub users : ℕ
  pub vendors : ℕ
  pub wallets : ℕ
  pub wallet_transactions : ℕ
  pub catalog_items : ℕ
  pub orders : ℕ
  pub provisioning_jobs : ℕ
  pub proxy_services : ℕ
  pub xui_panels : ℕ
  pub services : ℕ
