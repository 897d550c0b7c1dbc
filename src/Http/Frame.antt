-- ===== src/Http/Frame.antt =====
-- Which rows the routes that are open to everyone leave alone.
use x_ui_site.Prelude.{ℕ, String, ◌≡◌, refl, sym, subst, ap, ◌∙◌, List}
use x_ui_site.Db.Rows.{
  Tables, Panel, ProxyService, ProxyState, WalletTx, OrderRow, KeyRow, Job, CatalogRow, PanelRow,
}
use x_ui_site.Db.Errors.{Result, ok, err}
use x_ui_site.Db.Session.{World, M, Value}
use x_ui_site.Db.Session
use x_ui_site.Db.Rules.{Runs-world}
use x_ui_site.Db.Frame.{
  Views, SavedView, Keeps, IfOk-ok, IfOk-checked, IfOk-unless_taken, IfOk-in_range, exec-Keeps,
  look-Keeps, pure-Keeps, raise-Keeps, lift-Keeps, gets-Keeps, or_return-Keeps, or_rollback-Keeps,
  bind-Keeps, begin-Keeps, commit-Keeps, notify-Keeps,
}
use x_ui_site.Repository.Panels.{TokenCipher, first_active}
use x_ui_site.Repository.Users.{
  insert_user, create_user, insert_vendor, create_vendor, list_by_owner, by_email,
}
use x_ui_site.Repository.Wallets.{insert_wallet, ensure_for_user, balance}
use x_ui_site.Repository.Proxies
use x_ui_site.Provisioning.{provision}
use x_ui_site.Provisioning
use x_ui_site.Provisioning.Stored.{provision-Runs}
use x_ui_site.Proxy.{suspend, resume}
use x_ui_site.Proxy.Provision.{draw, record_status, conclude, ProvisionRequest, provision_service}
use x_ui_site.Security.{Crypto}
use x_ui_site.Auth.{hash, register, login}

-- What only an order, a vendor or an administrator may change: the ledger, the orders with their
-- keys and jobs, the catalog and the panels.
pub record Protected : Type 0 where
  pub ledger : List WalletTx
  pub orders : List OrderRow
  pub keys : List KeyRow
  pub jobs : List Job
  pub catalog : List CatalogRow
  pub panels : List PanelRow

abbrev pub protected : Tables → Protected
protected t = record {
  ledger = t.wallet_transactions;
  orders = t.orders;
  keys = t.order_idempotency_keys;
  jobs = t.provisioning_jobs;
  catalog = t.catalog_items;
  panels = t.xui_panels;
}

create_user-Keeps : (email hash role : String) → Keeps protected (create_user email hash role)
unfolding create_user insert_user
create_user-Keeps email hash role =
    exec-Keeps protected (insert_user email hash role)
      (record { frames = λ s t. IfOk-unless_taken _ _ _ (IfOk-ok _ _ refl) })

ensure_for_user-Keeps : (user_id : ℕ) → Keeps protected (ensure_for_user user_id)
unfolding ensure_for_user insert_wallet
ensure_for_user-Keeps user_id =
    exec-Keeps protected (insert_wallet user_id)
      (record { frames = λ s t. IfOk-checked _ _ _ _ refl })

pub create_vendor-Keeps :
    (owner_id : ℕ) (name slug : String) → Keeps protected (create_vendor owner_id name slug)
unfolding create_vendor insert_vendor
create_vendor-Keeps owner_id name slug =
    exec-Keeps protected (insert_vendor owner_id name slug)
      (record { frames = λ s t. IfOk-unless_taken _ _ _ (IfOk-checked _ _ _ _ refl) })

draw-Keeps : Keeps protected draw
unfolding draw
draw-Keeps = record { keeps = λ v w i. record { here = i.here; saved = i.saved } }

module _ (k : Crypto) where
  hash-Keeps : (password : String) → Keeps protected (hash k password)
  unfolding hash
  hash-Keeps String.[] = raise-Keeps protected _
  hash-Keeps (String.◌∷◌ c s) = bind-Keeps protected draw-Keeps (λ random. lift-Keeps protected _)

  pub register-Keeps : (email password : String) → Keeps protected (register k email password)
  unfolding register
  register-Keeps email password =
      bind-Keeps protected (hash-Keeps password)
        λ h. bind-Keeps protected (create_user-Keeps email h "user") ensure_for_user-Keeps

  pub login-Keeps :
      (secret email password : String) → Keeps protected (login k secret email password)
  unfolding login by_email
  login-Keeps secret email password =
      bind-Keeps protected (look-Keeps protected _)
        λ u. bind-Keeps protected (gets-Keeps protected _) λ now. pure-Keeps protected _

pub balance-Keeps : (user_id : ℕ) → Keeps protected (balance user_id)
unfolding balance
balance-Keeps user_id =
    bind-Keeps protected (look-Keeps protected _) λ wallet. lift-Keeps protected _

pub list_by_owner-Keeps : (owner_id : ℕ) → Keeps protected (list_by_owner owner_id)
unfolding list_by_owner
list_by_owner-Keeps owner_id = look-Keeps protected _

update_status-Keeps :
    (vendor_id id : ℕ) (s : ProxyState) → Keeps protected (Proxies.update_status vendor_id id s)
unfolding Proxies.update_status
update_status-Keeps vendor_id id s =
    exec-Keeps protected _ (record { frames = λ s t. IfOk-ok _ _ refl })

pub suspend-Keeps : (vendor_id id : ℕ) → Keeps protected (suspend vendor_id id)
unfolding suspend Proxies.by_id Proxies.suspend
suspend-Keeps vendor_id id =
    bind-Keeps protected (or_return-Keeps protected _ _ (look-Keeps protected _)) λ service.
      bind-Keeps protected (lift-Keeps protected _) λ _.
        bind-Keeps protected (update_status-Keeps vendor_id id _) λ _. notify-Keeps protected _ _

pub resume-Keeps : (vendor_id id : ℕ) → Keeps protected (resume vendor_id id)
unfolding resume Proxies.by_id Proxies.resume
resume-Keeps vendor_id id =
    bind-Keeps protected (or_return-Keeps protected _ _ (look-Keeps protected _)) λ service.
      bind-Keeps protected (lift-Keeps protected _) λ _.
        bind-Keeps protected (update_status-Keeps vendor_id id _) λ _. notify-Keeps protected _ _

record_status-Keeps :
    (vendor_id id : ℕ) (s : ProxyState) → Keeps protected (record_status vendor_id id s)
record_status-Keeps vendor_id id s = record {
  keeps = λ v w i. (update_status-Keeps vendor_id id s).keeps v w i;
}

same_rows :
    (v : Protected) (w x : World)
    → Views protected v w
    → x.tables ≡ w.tables
    → x.saved ≡ w.saved
    → Views protected v x
same_rows v w x i t s = record {
  here = ap protected t ∙ i.here;
  saved = subst (SavedView protected v) (sym s) i.saved;
}

provision-Keeps :
    (panel : Panel) (req : Provisioning.ProvisionRequest) → Keeps protected (provision panel req)
provision-Keeps panel req = record {
  keeps = λ v w i.
      Runs-world (Views protected v) (provision-Runs panel req w)
        (λ r x (k, low, high, a, f). same_rows v w x i a.tables a.saved)
        (λ x (a, f). same_rows v w x i a.tables a.saved);
}

conclude-Keeps :
    (panel : Panel) (req : ProvisionRequest) (uuid : String) (now id : ℕ)
    (r : Result Session.ProvisionResponse)
    → Keeps protected (conclude panel req uuid now id r)
unfolding conclude
conclude-Keeps panel req uuid now id (ok a) =
    bind-Keeps protected (record_status-Keeps _ _ _)
      λ _. bind-Keeps protected (notify-Keeps protected _ _) λ _. pure-Keeps protected _
conclude-Keeps panel req uuid now id (err e) =
    bind-Keeps protected (record_status-Keeps _ _ _) λ _. raise-Keeps protected _

create_tx-Keeps : (p : ProxyService) → Keeps protected (Proxies.create_tx p)
unfolding Proxies.create_tx Proxies.insert_proxy
create_tx-Keeps p = exec-Keeps protected (Proxies.insert_proxy p) (record {
  frames = λ s t. IfOk-in_range _ _ _ (IfOk-unless_taken _ _ _ (IfOk-checked _ _ _ _ refl));
})

pub provision_service-Keeps :
    (cipher : TokenCipher) (req : ProvisionRequest) → Keeps protected (provision_service cipher req)
unfolding provision_service first_active
provision_service-Keeps cipher req =
    bind-Keeps protected
      (or_return-Keeps protected _ _
        (bind-Keeps protected (look-Keeps protected _) λ p. lift-Keeps protected _))
      λ panel. bind-Keeps protected draw-Keeps λ bytes.
        bind-Keeps protected (gets-Keeps protected _) λ now.
          bind-Keeps protected (or_return-Keeps protected _ _ (begin-Keeps protected)) λ _.
            bind-Keeps protected (or_rollback-Keeps protected _ _ (create_tx-Keeps _)) λ id.
              bind-Keeps protected (or_return-Keeps protected _ _ (commit-Keeps protected)) λ _.
                bind-Keeps protected (record { keeps = λ v w i. (provision-Keeps _ _).keeps v w i })
                  λ answer. conclude-Keeps _ _ _ _ _ answer

pub by_id-Keeps : (vendor_id id : ℕ) → Keeps protected (Proxies.by_id vendor_id id)
unfolding Proxies.by_id
by_id-Keeps vendor_id id = look-Keeps protected _

pub list_by_user-Keeps :
    (vendor_id user_id : ℕ) → Keeps protected (Proxies.list_by_user vendor_id user_id)
unfolding Proxies.list_by_user
list_by_user-Keeps vendor_id user_id = look-Keeps protected _
