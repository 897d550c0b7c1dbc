-- ===== src/Order/History.antt =====
-- Histories of the order engine: calls of Service.Create and Service.Renew one after the other,
-- each at a time and under faults of its own. Serializable transactions allow no other outcome.
use x_ui_site.Prelude.{ℕ, ◌≤◌, String, ◌≡◌, sym, ◌∙◌, subst, none, List, [], ◌∷◌, inl, inr, arith}
use x_ui_site.Db.Rows.{Tables}
use x_ui_site.Db.Session.{World, Fault}
use x_ui_site.Db.Rules.{Unchanged, Runs-world}
use x_ui_site.Db.Errors.{ok}
use x_ui_site.Repository.Catalog.{CatalogPrice, catalog_price}
use x_ui_site.Order.{CreateRequest, create, renew}
use x_ui_site.Order.Effect.{Placed}
use x_ui_site.Order.Outcome.{Answered, Failed, Ordered}
use x_ui_site.Order.Create.{create_atomic}
use x_ui_site.Order.Extension.{Renewal}
use x_ui_site.Order.Renew.{RenewFailed, renew_atomic}
use x_ui_site.Order.Once.{OncePerKey, Placed-OncePerKey, Renewal-OncePerKey, keyed_orders}

pub data Call : Type 0 where
  creates : CreateRequest → Call
  renews : ℕ → ℕ → Call

pub record Arrival : Type 0 where
  pub time : ℕ
  pub faults : List Fault
  pub call : Call

abbrev pub arrive : Arrival → World → World
arrive a w = record w { now = a.time; faults = a.faults }

unfoldable pub perform : Call → World → World
perform (creates req) w = (create req w).1
perform (renews user_id service_id) w = (renew user_id service_id w).1

unfoldable pub serve : List Arrival → World → World
serve [] w = w
serve (a ∷ rest) w = serve rest (perform a.call (arrive a w))

-- A property of the rows, between calls: no transaction is left open.
pub record Between (K : Tables → Type 0) (w : World) : Type 0 where
  pub closed : w.saved ≡ none
  pub rows : K w.tables

module _ (K : Tables → Type 0)
    (by_order : (req : CreateRequest) (item : CatalogPrice) (id : ℕ) (t t' : Tables)
      → catalog_price req.vendor_id req.catalog_id t ≡ ok item
      → Placed req item.price id t t'
      → K t
      → K t')
    (by_renewal : (user service now id : ℕ) (t t' : Tables)
      → Renewal user service now id t t'
      → K t
      → K t') where
  Unchanged-Between : (v w : World) → Between K v → Unchanged v w → Between K w
  Unchanged-Between v w b u = record {
    closed = u.outside.saved ∙ b.closed;
    rows = subst K (sym u.tables) b.rows;
  }

  ordered-K :
      (req : CreateRequest) (v : World) (id : ℕ) (w : World)
      → Ordered req v id w
      → K v.tables
      → K w.tables
  ordered-K req v id w o k =
      by_order req o.priced.item id v.tables w.tables o.priced.listed
        (subst (λ p. Placed req p id v.tables w.tables) (sym o.priced.the_price) o.placed) k

  Answered-Between :
      (req : CreateRequest) (v : World) (r : _) (w : World)
      → Between K v
      → Answered req v r w
      → Between K w
  Answered-Between req v r w b (inl f) = record {
    closed = f.ordered.saved;
    rows = ordered-K req v r.order_id w f.ordered b.rows;
  }
  Answered-Between req v r w b (inr d) = Unchanged-Between v w b d.unchanged

  Failed-Between : (req : CreateRequest) (v w : World) → Between K v → Failed req v w → Between K w
  Failed-Between req v w b (inl u) = Unchanged-Between v w b u
  Failed-Between req v w b (inr f) = record {
    closed = f.ordered.saved;
    rows = ordered-K req v f.order_id w f.ordered b.rows;
  }

  RenewFailed-Between :
      (user service : ℕ) (v w : World) → Between K v → RenewFailed user service v w → Between K w
  RenewFailed-Between user service v w b (inl u) = Unchanged-Between v w b u
  RenewFailed-Between user service v w b (inr f) = record {
    closed = f.saved;
    rows = by_renewal user service v.now f.order_id v.tables w.tables f.renewal b.rows;
  }

  -- Every call keeps what orders and renewals keep.
  pub perform-Between : (c : Call) (v : World) → Between K v → Between K (perform c v)
  unfolding perform
  perform-Between (creates req) v b =
      Runs-world (Between K) (create_atomic req v b.closed)
        (λ r x h. Answered-Between req v r x b h) (λ x h. Failed-Between req v x b h)
  perform-Between (renews user service) v b =
      Runs-world (Between K) (renew_atomic user service v b.closed)
        (λ r x h. record {
          closed = h.saved;
          rows = by_renewal user service v.now r.order_id v.tables x.tables h.renewal b.rows;
        })
        (λ x h. RenewFailed-Between user service v x b h)

  pub serve-Between : (calls : List Arrival) (v : World) → Between K v → Between K (serve calls v)
  unfolding serve
  serve-Between [] v b = b
  serve-Between (a ∷ rest) v b =
      serve-Between rest _
        (perform-Between a.call (arrive a v) (record { closed = b.closed; rows = b.rows }))

-- From a world with no open transaction in which a key has at most one row and no more orders than
-- rows: after any history of orders and renewals, under any faults and repetitions, the key has
-- bought at most one order.
pub serve_at_most_once :
    (vendor_id user_id : ℕ) (key : String) (calls : List Arrival) (v : World)
    → v.saved ≡ none
    → OncePerKey vendor_id user_id key v.tables
    → keyed_orders vendor_id user_id key (serve calls v).tables ≤ 1
serve_at_most_once vendor_id user_id key calls v closed h =
    let b =
      serve-Between (OncePerKey vendor_id user_id key)
        (λ req item id t t' _. Placed-OncePerKey vendor_id user_id key)
        (λ user service now id t t'. Renewal-OncePerKey vendor_id user_id key) calls v
        (record { closed = closed; rows = h }) in
    omega (arith, b.rows.one_row, b.rows.no_more)
