-- ===== src/Proxy/Provision/Atomic.antt =====
-- Service.Provision keeps its two stores together: the rows, and the clients of the panel.
use x_ui_site.Prelude.{ℕ, ◌≡◌, sym, ◌∙◌, ap, subst, String, none, List, ◌⊎◌, inl, inr}
use x_ui_site.Db.Rows.{Panel}
use x_ui_site.Db.Errors.{wrap}
use x_ui_site.Db.Session.{World, ◌>>=◌, ◌>>◌, begin, commit, or_return, or_rollback}
use x_ui_site.Db.Hoare.{RolledBack, or_rollback-Guards}
use x_ui_site.Db.Rules.{
  Runs, bind-Runs, or_return-Runs, weaken-Runs, lift-Runs, gets-Runs, look-Runs, begin-Runs,
  Unchanged, Unchanged-trans, Begun, Guards-Runs, commit-Runs,
}
use x_ui_site.Repository.Panels.{TokenCipher, active_panel, first_active}
use x_ui_site.Repository.Proxies.{create_tx}
use x_ui_site.Provisioning.{provision, call_of}
use x_ui_site.Provisioning.Delivery.{Tried, provision-Tried}
use x_ui_site.Provisioning.Stored.{insert-Opens}
use x_ui_site.Proxy.Uuid.{generate_uuid}
use x_ui_site.Proxy.Provision.{
  ProvisionRequest, new_record, panel_request, conclude, attempt, provision_service, draw,
}
use x_ui_site.Proxy.Provision.Outcome.{
  with_service, Provisioned, NotProvisioned, conclude-Runs, stored_rows,
}

module _ (cipher : TokenCipher) (req : ProvisionRequest) (v : World) (closed : v.saved ≡ none) where
  unstored : (w : World) → Unchanged v w → NotProvisioned req v w
  unstored w s = (
    s.outside.sent,
    inl (record { tables = s.tables; saved = s.outside.saved ∙ closed; calls = s.outside.calls }),
  )

  attempt-Runs :
      (panel : Panel) (uuid : String) (w : World)
      → Runs w
          (attempt (provision panel (panel_request req uuid)))
          (Tried (call_of panel (panel_request req uuid) w.now) 3 w)
          (NotProvisioned req v)
  attempt-Runs panel uuid w = record { holds = provision-Tried panel (panel_request req uuid) w }

  panel-Runs : Runs v (first_active cipher req.vendor_id) (λ _ w. Unchanged v w) (Unchanged v)
  unfolding first_active
  panel-Runs =
      bind-Runs (look-Runs (active_panel req.vendor_id) v) λ p w (s, e). lift-Runs _ (λ _ _. s) s

  draw-Runs :
      (w : World) → Unchanged v w → Runs w draw (λ _ x. Unchanged v x) (NotProvisioned req v)
  unfolding draw
  draw-Runs w s = record {
    holds = record {
      outside = record {
        now = s.outside.now;
        sent = s.outside.sent;
        calls = s.outside.calls;
        replies = s.outside.replies;
        saved = s.outside.saved;
        lost = s.outside.lost;
      };
      tables = s.tables;
    };
  }

  back :
      (w u x : World) → Unchanged v w → Begun w u → RolledBack u w.tables x → NotProvisioned req v x
  back w u x s b r = (
    r.sent ∙ b.sent ∙ s.outside.sent,
    inl (record {
      tables = r.tables ∙ s.tables;
      saved = r.saved;
      calls = r.calls ∙ b.calls ∙ s.outside.calls;
    }),
  )

  in_doubt :
      (panel : Panel) (bytes : List ℕ) (id : ℕ) (w x : World)
      → x.saved ≡ none
      → x.sent ≡ v.sent
      → x.calls ≡ v.calls
      → ((x.tables ≡ stored_rows req v panel bytes id) ⊎ (x.tables ≡ v.tables))
      → NotProvisioned req v x
  in_doubt panel bytes id w x s n c (inl all) = (
    n,
    inr (record {
      panel = panel;
      bytes = bytes;
      id = id;
      stored = record { rows = inl all; saved = s };
    }),
  )
  in_doubt panel bytes id w x s n c (inr back) =
      (n, inl (record { tables = back; saved = s; calls = c }))

  store-Runs :
      (panel : Panel) (bytes : List ℕ) (now : ℕ) (w : World)
      → Unchanged v w
      → now ≡ v.now
      → Runs w
          (do
            or_return (wrap "begin tx") begin
            service_id ←
                or_rollback
                  (wrap "create proxy service")
                  (create_tx (new_record panel req (generate_uuid bytes) now))
            or_return (wrap "commit") commit
            answer ← attempt (provision panel (panel_request req (generate_uuid bytes)))
            conclude panel req (generate_uuid bytes) now service_id answer)
          (Provisioned req v)
          (NotProvisioned req v)
  store-Runs panel bytes now w s clock =
      bind-Runs
        (or_return-Runs _
          (weaken-Runs (begin-Runs w) (λ a x h. h) (λ x h. unstored x (Unchanged-trans s h))))
        λ _ w1 b.
          bind-Runs
            (weaken-Runs
              (Guards-Runs w1 w.tables _ (
                or_rollback-Guards _ b.saved
                  (insert-Opens (new_record panel req (generate_uuid bytes) now) w1)))
              (λ a x h. h) (λ x r. back w w1 x s b r))
            λ id w2 (o, i).
              let rows : w2.tables ≡ stored_rows req v panel bytes id =
                i.rows
                ∙ ap (with_service req v (new_record panel req (generate_uuid bytes) now) id)
                    (b.tables ∙ s.tables)
                ∙ ap
                    (λ n.
                      with_service req v (new_record panel req (generate_uuid bytes) n) id v.tables)
                    clock in
              let sent = o.sent ∙ b.sent ∙ s.outside.sent in
              let calls = o.calls ∙ b.calls ∙ s.outside.calls in
              bind-Runs
                (or_return-Runs _ (
                  weaken-Runs (commit-Runs w2 w.tables (o.saved ∙ b.saved)) (λ a x h. h)
                    (λ x d.
                      in_doubt panel bytes id w x d.saved (d.sent ∙ sent) (d.calls ∙ calls)
                        (elim d.tables [
                          | inl (all, gone) ↦ inl (all ∙ rows)
                          | inr old ↦ inr (old ∙ s.tables)
                        ]))))
                λ _ w3 c. bind-Runs (attempt-Runs panel (generate_uuid bytes) w3) λ r u t.
                  subst
                    (λ n.
                      Runs u (conclude panel req (generate_uuid bytes) n id r) (Provisioned req v)
                        (NotProvisioned req v))
                    (sym clock)
                    (conclude-Runs req v panel bytes id r w3 u
                      (record {
                        tables = c.tables ∙ rows;
                        saved = c.saved;
                        sent = c.sent ∙ sent;
                        now = c.now ∙ o.now ∙ b.now ∙ s.outside.now;
                        calls = c.calls ∙ calls;
                        replies = c.replies ∙ o.replies ∙ b.replies ∙ s.outside.replies;
                      })
                      t)

  pub provision_service-Runs :
      Runs v (provision_service cipher req) (Provisioned req v) (NotProvisioned req v)
  unfolding provision_service
  provision_service-Runs =
      bind-Runs (or_return-Runs _ (weaken-Runs panel-Runs (λ a x h. h) unstored)) λ panel w s.
        bind-Runs (draw-Runs w s) λ bytes w1 s1.
          bind-Runs {P = λ n x. Unchanged v x × (n ≡ v.now)} (gets-Runs _ (s1, s1.outside.now))
            λ now w2 (s2, clock). store-Runs panel bytes now w2 s2 clock
