-- ===== src/Http/Server/Routing.antt =====
-- What holds of every route holds of the mux over them.
use x_ui_site.Prelude.{Option, none, some, List, find, All, All-find, ◌≡◌, refl}
use x_ui_site.Db.Session.{World}
use x_ui_site.Http.{Request, Response, Handler}
use x_ui_site.Http.Server.{Route, mux, exactly, slashed, below, is_exact, is_above}

-- `P` of a request, the world before it and what comes of it; what the mux answers by itself, in the
-- same world, has it.
module _ (P : Request → World → Response × World → Type 0)
    (by_itself : (r : Request) (w : World) (answer : Response) → P r w (answer, w)) where
  abbrev pub Has : Handler → Request → World → Type 0
  Has h r w = P r w (h r w)

  below-Has :
      (o : Option Route) (r : Request) (w : World)
      → ((route : Route) → o ≡ some route → Has route.handler r w)
      → Has (below o) r w
  below-Has none r w h = by_itself r w _
  below-Has (some route) r w h = h route refl

  module _ (routes : List Route) (r : Request) (w : World)
      (all : All (λ route. Has route.handler r w) routes) where
    slashed-Has : (o : Option Route) → Has (slashed routes o) r w
    slashed-Has none =
        below-Has (find (is_above r.path) routes) r w
          (λ route e. All-find (λ (x : Route). Has x.handler r w) _ routes route all e)
    slashed-Has (some route) = by_itself r w _

    exactly-Has :
        (o : Option Route)
        → ((route : Route) → o ≡ some route → Has route.handler r w)
        → Has (exactly routes o) r w
    exactly-Has none h = slashed-Has _
    exactly-Has (some route) h = h route refl

    pub mux-Has : Has (mux routes) r w
    unfolding mux
    mux-Has = exactly-Has (find (is_exact r.path) routes) (λ route e.
        All-find (λ (x : Route). Has x.handler r w) (is_exact r.path) routes route all e)
