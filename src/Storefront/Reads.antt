-- ===== src/Storefront/Reads.antt =====
-- Reading pages: what a response shows, where nothing but faults happened.
use x_ui_site.Prelude.{ℕ, ◌≡◌, refl, sym, ap, ◌∙◌, Bool, true, false, none, if◌then◌else◌}
use x_ui_site.Db.Rows.{Tables}
use x_ui_site.Db.Errors.{Result, ok, err}
use x_ui_site.Db.Session.{World, M, look, committed}
use x_ui_site.Db.Rules.{
  Runs, Ends, Unchanged, Unchanged-trans, look-Runs, weaken-Runs, committed_of_closed,
}
use x_ui_site.Http.{Response, Payload}
use x_ui_site.Storefront.{branch, or_value, render}

-- Nothing but faults happened since `v`, and the response satisfies `P`.
pub record Reads (P : Payload → Type 0) (v : World) (answer : Response × World) : Type 0 where
  pub unchanged : Unchanged v answer.1
  pub shows : P answer.0.payload

module _ {P : Payload → Type 0} {v : World} where
  pub render-Reads :
      (code : ℕ) (p : Payload) (w : World) → Unchanged v w → P p → Reads P v (render code p w)
  render-Reads code p w u h = record { unchanged = u; shows = h }

  pub branch-Reads :
      {A : Type 0} {Q : A → World → Type 0} (on_err : World → Response × World)
      (on_ok : A → World → Response × World) (m : M A) (w : World)
      → Runs w m Q (Unchanged v)
      → ((x : World) → Unchanged v x → Reads P v (on_err x))
      → ((a : A) (x : World) → Q a x → Reads P v (on_ok a x))
      → Reads P v (branch on_err on_ok (m w))
  branch-Reads {A} {Q} on_err on_ok m w h j k = by (m w).0 (m w).1 h.holds
    where
      by :
          (r : Result A) (x : World)
          → Ends Q (Unchanged v) r x
          → Reads P v (branch on_err on_ok (r, x))
      by (ok a) x e = k a x e
      by (err e) x u = j x u

  pub if-Reads :
      (b : Bool) (x y : Response × World)
      → (b ≡ true → Reads P v x)
      → (b ≡ false → Reads P v y)
      → Reads P v (if b then x else y)
  if-Reads true x y h k = h refl
  if-Reads false x y h k = k refl

-- `x, _ := f()` for a SELECT that answers a list or a number.
pub or_value-All :
    {A : Type 0} (P : A → Type 0) (d : A) {v : World} {m : M A} (w : World)
    → P d
    → Runs w m (λ a x. Unchanged v x × P a) (Unchanged v)
    → Unchanged v (m w).1 × P (or_value d (m w).0)
or_value-All {A} P d {v} {m} w h r = by (m w).0 (m w).1 r.holds
  where
    by :
        (o : Result A) (x : World)
        → Ends (λ a x. Unchanged v x × P a) (Unchanged v) o x
        → Unchanged v x × P (or_value d o)
    by (ok a) x e = e
    by (err e) x u = (u, h)

-- A SELECT of a world in which only faults happened since `v`.
pub look-Seen :
    {A : Type 0} (q : Tables → Result A) (v w : World)
    → v.saved ≡ none
    → Unchanged v w
    → Runs w (look q) (λ a x. Unchanged v x × (q v.tables ≡ ok a)) (Unchanged v)
look-Seen q v w closed u =
    weaken-Runs (look-Runs q w) (λ a x h. (Unchanged-trans u h.0, ap q (sym rows) ∙ h.1))
      (λ x h. Unchanged-trans u h)
  where
    rows : committed w ≡ v.tables
    rows = committed_of_closed w (u.outside.saved ∙ closed) ∙ u.tables
