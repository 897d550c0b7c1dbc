-- ===== src/Proxy/Provision/Outcome.antt =====
-- What Service.Provision leaves behind.
use x_ui_site.Prelude.{
  ℕ, ◌≤◌, ◌≡◌, refl, ◌∙◌, ap, subst, String, none, List, [], ◌∷◌, ◌++◌, ◌⊎◌, inl, inr, replicate,
}
use x_ui_site.Db.Rows.{Tables, Panel, ProxyService, ProxyState}
use x_ui_site.Db.Errors.{Result, ok, err}
use x_ui_site.Db.Session.{
  World, Notice, M, ProvisionCall, ◌>>=◌, ◌>>◌, notify, pure, raise, commit, query, exec,
}
use x_ui_site.Db.Session
use x_ui_site.Db.Hoare.{SameOutside}
use x_ui_site.Db.Moves.{exec-Moved}
use x_ui_site.Db.Rules.{Runs}
use x_ui_site.Repository.Proxies.{set_status, update_status}
use x_ui_site.Provisioning.{call_of}
use x_ui_site.Provisioning.Delivery.{Tried, FirstAt}
use x_ui_site.Provisioning.Stored.{service_row}
use x_ui_site.Proxy.Uuid.{generate_uuid}
use x_ui_site.Proxy.Provision.{
  ProvisionRequest, ProvisionResponse, new_record, panel_request, record_status,
  provisioned_payload, response, conclude,
}

module _ (req : ProvisionRequest) (v : World) where
  abbrev pub with_service : ProxyService → ℕ → Tables → Tables
  with_service p id t = record t { proxy_services = t.proxy_services ++ service_row p id ∷ [] }

  -- The service is stored; its status is `status`, or still provisioning if that update failed.
  pub record IsStored (panel : Panel) (uuid : String) (id : ℕ) (status : ProxyState) (w : World)
      : Type 0 where
    pub rows :
        (w.tables ≡ with_service (new_record panel req uuid v.now) id v.tables)
        ⊎ (w.tables
            ≡ set_status req.vendor_id id status
                (with_service (new_record panel req uuid v.now) id v.tables))
    pub saved : w.saved ≡ none

  abbrev pub provisioned : ℕ → String → Notice
  provisioned id uuid = record {
    topic = "service.provisioned";
    payload = provisioned_payload req id uuid;
  }

  -- The panel has the client, after one to three requests; the service is stored and announced.
  pub record Provisioned (r : ProvisionResponse) (w : World) : Type 0 where
    pub panel : Panel
    pub bytes : List ℕ
    pub id : ℕ
    pub stored : IsStored panel (generate_uuid bytes) id ProxyState.active w
    pub times : ℕ
    pub at_least : 1 ≤ times
    pub at_most : times ≤ 3
    pub client : Session.ProvisionResponse
    pub came : FirstAt times v.replies client
    pub calls :
        w.calls
        ≡ v.calls ++ replicate times (call_of panel (panel_request req (generate_uuid bytes)) v.now)
    pub answer : r ≡ response panel req (generate_uuid bytes) v.now id
    pub sent : w.sent ≡ v.sent ++ provisioned id (generate_uuid bytes) ∷ []

  -- No row is changed.
  pub record NotStored (w : World) : Type 0 where
    pub tables : w.tables ≡ v.tables
    pub saved : w.saved ≡ none
    pub calls : w.calls ≡ v.calls

  -- The service is stored as failed, or as provisioning.
  pub record LeftBehind (w : World) : Type 0 where
    pub panel : Panel
    pub bytes : List ℕ
    pub id : ℕ
    pub stored : IsStored panel (generate_uuid bytes) id ProxyState.failed w

  abbrev pub NotProvisioned : World → Type 0
  NotProvisioned w = (w.sent ≡ v.sent) × (NotStored w ⊎ LeftBehind w)

module _ (req : ProvisionRequest) (v : World) (panel : Panel) (bytes : List ℕ) (id : ℕ) where
  abbrev pub uuid : String
  uuid = generate_uuid bytes

  abbrev pub stored_rows : Tables
  stored_rows = with_service req v (new_record panel req uuid v.now) id v.tables

  -- After the transaction.
  pub record Committed (w : World) : Type 0 where
    pub tables : w.tables ≡ stored_rows
    pub saved : w.saved ≡ none
    pub sent : w.sent ≡ v.sent
    pub now : w.now ≡ v.now
    pub calls : w.calls ≡ v.calls
    pub replies : w.replies ≡ v.replies

  record_status-IsStored :
      (status : ProxyState) (u : World)
      → u.tables ≡ stored_rows
      → u.saved ≡ none
      → IsStored req v panel uuid id status (record_status req.vendor_id id status u).1
        × SameOutside u (record_status req.vendor_id id status u).1
  unfolding update_status
  record_status-IsStored status u e s =
      let m =
        exec-Moved (λ t. (t ≡ stored_rows) ⊎ (t ≡ set_status req.vendor_id id status stored_rows)) u
          (λ t. t ≡ stored_rows) (query λ t. ok (tt, set_status req.vendor_id id status t))
          (λ t. inl) (λ _ t q. inr (ap (set_status req.vendor_id id status) q)) e in
      (record { rows = m.1; saved = m.0.saved ∙ s }, m.0)

  pub conclude-Runs :
      (r : Result Session.ProvisionResponse) (w u : World)
      → Committed w
      → Tried (call_of panel (panel_request req uuid) w.now) 3 w r u
      → Runs u (conclude panel req uuid v.now id r) (Provisioned req v) (NotProvisioned req v)
  unfolding conclude ◌>>=◌ notify pure raise
  conclude-Runs (ok p) w u c (k, low, high, a, f) =
      let (stored, outside) =
        record_status-IsStored ProxyState.active u (a.tables ∙ c.tables) (a.saved ∙ c.saved) in
      record {
        holds = record {
          panel = panel;
          bytes = bytes;
          id = id;
          stored = record { rows = stored.rows; saved = stored.saved };
          times = k;
          at_least = low;
          at_most = high;
          client = p;
          came = subst (λ rs. FirstAt k rs p) c.replies f;
          calls =
              outside.calls
              ∙ a.calls
              ∙ ap (λ x. x ++ replicate k (call_of panel (panel_request req uuid) w.now)) c.calls
              ∙ ap (λ n. v.calls ++ replicate k (call_of panel (panel_request req uuid) n)) c.now;
          answer = refl;
          sent = ap (λ x. x ++ provisioned req v id uuid ∷ []) (outside.sent ∙ a.sent ∙ c.sent);
        };
      }
  conclude-Runs (err e) w u c (a, f) =
      let (stored, outside) =
        record_status-IsStored ProxyState.failed u (a.tables ∙ c.tables) (a.saved ∙ c.saved) in
      record {
        holds = (
          outside.sent ∙ a.sent ∙ c.sent,
          inr (record { panel = panel; bytes = bytes; id = id; stored = stored }),
        );
      }
