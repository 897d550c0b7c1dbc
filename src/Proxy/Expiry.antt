-- ===== src/Proxy/Expiry.antt =====
-- What the expiry job does to the services.
use x_ui_site.Prelude.{
  ℕ, suc, ◌≡◌, refl, sym, ap, ◌∙◌, subst, Bool, true, false, not, ◌&&◌, Option, none, some, List,
  [], ◌∷◌, ◌⊎◌, inl, inr, update_where, count_where, All, All-map, if◌then◌else◌, Bool-cases, arith,
}
use x_ui_site.Prelude.Int.{ℤ, pos, IsBefore}
use x_ui_site.Db.Rows.{
  Tables, ProxyRow, ProxyState, queued, provisioning, active, failed, suspended, expired,
}
use x_ui_site.Db.Errors.{Result, ok, err, ok-injective}
use x_ui_site.Db.Session.{World, exec}
use x_ui_site.Db.Hoare.{SameOutside, Open, Opens, exec-Opens}
use x_ui_site.Db.Moves.{Moved, exec-Moved}
use x_ui_site.Db.Rules.{Runs, Ends, Unchanged}
use x_ui_site.Repository.Proxies.{
  with_status, is_active, is_past, is_due, expire_rows, mark_expired,
}

-- A service, not deleted, that is active past its expiry.
pub record IsLate (now : ℕ) (r : ProxyRow) : Type 0 where
  pub status : r.service.status ≡ active
  pub live : r.deleted ≡ false
  pub time : ℤ
  pub expires : r.service.expires_at ≡ some time
  pub passed : IsBefore time (pos now)

-- The rows before and after, with the number of those that were late: each of them is expired now,
-- and every other is as it was.
pub data SweptRows (now : ℕ) : ℕ → List ProxyRow → List ProxyRow → Type 0 where
  no_row : SweptRows now 0 [] []
  late :
      {n : ℕ} {r : ProxyRow} {rs qs : List ProxyRow}
      → IsLate now r
      → SweptRows now n rs qs
      → SweptRows now
          (suc n)
          (r ∷ rs)
          (record r { service = record (r.service) { status = expired } } ∷ qs)
  kept :
      {n : ℕ} {r : ProxyRow} {rs qs : List ProxyRow}
      → (IsLate now r → ⊥)
      → SweptRows now n rs qs
      → SweptRows now n (r ∷ rs) (r ∷ qs)

module _ (now : ℕ) where
  late_fields :
      (s : ProxyState) (o : Option ℤ) (d : Bool)
      → (is_active s && is_past now o && not d) ≡ true
      → (s ≡ active) × (d ≡ false) × (time : ℤ) × (o ≡ some time) × IsBefore time (pos now)
  late_fields active (some e) false h = (refl, refl, e, refl, (ground arith))
  late_fields active (some e) true h = absurd (ground arith)
  late_fields active none d h = cc
  late_fields queued o d h = cc
  late_fields provisioning o d h = cc
  late_fields failed o d h = cc
  late_fields suspended o d h = cc
  late_fields expired o d h = cc

  IsLate-of_due : (r : ProxyRow) → is_due now r ≡ true → IsLate now r
  IsLate-of_due r h =
      let (a, d, time, e, p) = late_fields r.service.status r.service.expires_at r.deleted h in
      record { status = a; live = d; time = time; expires = e; passed = p }

  due_of-IsLate : (r : ProxyRow) → IsLate now r → is_due now r ≡ true
  due_of-IsLate r l = rw l.status (rw l.expires (rw l.live (ground (arith, l.passed))))

  not_late : (r : ProxyRow) → is_due now r ≡ false → IsLate now r → ⊥
  not_late r h l = absurd_of (is_due now r) h (due_of-IsLate r l)
    where
      absurd_of : (b : Bool) → b ≡ false → b ≡ true → ⊥
      absurd_of b f t = cc

  sweeps :
      (rs : List ProxyRow)
      → SweptRows now
          (count_where (is_due now) rs)
          rs
          (update_where (is_due now) (with_status expired) rs)
  sweeps [] = no_row
  sweeps (r ∷ rs) = by (is_due now r) refl (sweeps rs)
    where
      by :
          (b : Bool)
          → is_due now r ≡ b
          → SweptRows now
              (count_where (is_due now) rs)
              rs
              (update_where (is_due now) (with_status expired) rs)
          → SweptRows now
              (if b then suc (count_where (is_due now) rs) else count_where (is_due now) rs)
              (r ∷ rs)
              ((if b then with_status expired r else r)
                ∷ update_where (is_due now) (with_status expired) rs)
      by true h rest = late (IsLate-of_due r h) rest
      by false h rest = kept (not_late r h) rest

module _ (v : World) where
  abbrev swept : Tables → Tables
  swept t = record t {
    proxy_services = update_where (is_due v.now) (with_status expired) t.proxy_services;
  }

  -- The `n` late services are expired, nothing else is touched, and none is late any more.
  pub record Swept (n : ℕ) (w : World) : Type 0 where
    pub outside : SameOutside v w
    pub services : SweptRows v.now n v.tables.proxy_services w.tables.proxy_services
    pub rows : w.tables ≡ record (v.tables) { proxy_services = w.tables.proxy_services }
    pub none_late : All (λ r. IsLate v.now r → ⊥) w.tables.proxy_services

  none_due :
      (rs : List ProxyRow)
      → All (λ r. is_due v.now r ≡ false) (update_where (is_due v.now) (with_status expired) rs)
  none_due [] = tt
  none_due (r ∷ rs) = (
    elim (Bool-cases (is_due v.now r)) [
      | inl due ↦
          subst (λ b. is_due v.now (if b then with_status expired r else r) ≡ false) (sym due) refl
      | inr not_due ↦
          subst (λ b. is_due v.now (if b then with_status expired r else r) ≡ false) (sym not_due)
            not_due
    ],
    none_due rs,
  )

  sweep :
      (w : World)
      → SameOutside v w
      → w.tables ≡ swept v.tables
      → Swept (count_where (is_due v.now) v.tables.proxy_services) w
  sweep w o e =
      let same : w.tables.proxy_services ≡ (swept v.tables).proxy_services =
        ap (λ (t : Tables). t.proxy_services) e in
      record {
        outside = o;
        services =
            subst
              (SweptRows v.now (count_where (is_due v.now) v.tables.proxy_services)
                v.tables.proxy_services)
              (sym same) (sweeps v.now v.tables.proxy_services);
        rows = e ∙ ap (λ ps. record (v.tables) { proxy_services = ps }) (sym same);
        none_late =
            subst (All (λ r. IsLate v.now r → ⊥)) (sym same)
              (All-map _ (λ r h. not_late v.now r h) (none_due v.tables.proxy_services));
      }

  -- MarkExpired answers the number of the services, not deleted, that were active past their expiry;
  -- it has made exactly these expired, and none is left. Failing, it has done the same unheard, or
  -- nothing.
  pub mark_expired-Runs :
      Runs v mark_expired (λ n w. Swept n w) (λ w. Unchanged v w ⊎ ((n : ℕ) × Swept n w))
  unfolding mark_expired expire_rows
  mark_expired-Runs = record { holds = by_result _ _ opened.holds moved }
    where
      opened :
          Opens v
            (exec (expire_rows v.now))
            (λ n t. (t ≡ swept v.tables) × (n ≡ count_where (is_due v.now) v.tables.proxy_services))
      opened =
          exec-Opens (expire_rows v.now) {v = v}
            λ n t e. (sym (ap (λ q. q.1) (ok-injective e)), sym (ap (λ q. q.0) (ok-injective e)))

      moved : Moved (λ t. (t ≡ v.tables) ⊎ (t ≡ swept v.tables)) v (exec (expire_rows v.now) v).1
      moved =
          exec-Moved (λ t. (t ≡ v.tables) ⊎ (t ≡ swept v.tables)) v (λ t. t ≡ v.tables)
            (expire_rows v.now) (λ t. inl) (λ _ t e. inr (ap swept e)) refl

      by_result :
          (r : Result ℕ) (w : World)
          → Open v
              (λ n t.
                (t ≡ swept v.tables) × (n ≡ count_where (is_due v.now) v.tables.proxy_services))
              r
              w
          → Moved (λ t. (t ≡ v.tables) ⊎ (t ≡ swept v.tables)) v w
          → Ends (λ n x. Swept n x) (λ x. Unchanged v x ⊎ ((n : ℕ) × Swept n x)) r w
      by_result (ok n) w (o, (rows, count)) m = subst (λ k. Swept k w) (sym count) (sweep w o rows)
      by_result (err e) w o (outside, inl same) = inl (record { outside = outside; tables = same })
      by_result (err e) w o (outside, inr rows) = inr (_, sweep w outside rows)
