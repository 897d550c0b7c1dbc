-- ===== src/Start/Ready.antt =====
-- When the server is made.
use mathlib.Core.List.{Perm}
use x_ui_site.Prelude.{
  ℕ, String, str_eq, ◌≡◌, refl, sym, subst, ◌∙◌, ◌⊎◌, inl, inr, Bool, true, false, not, Option,
  none, some, List, length, ◌==◌, if-true, if-false, if◌then◌else◌, arith,
}
use x_ui_site.Db.Errors.{Error, Result, ok, err, ok-injective}
use x_ui_site.Db.Session.{World, pure}
use x_ui_site.Db.Rules.{Runs, Ends, bind-Runs, lift-Runs, pure-Runs, weaken-Runs}
use x_ui_site.Security.{bytes}
use x_ui_site.Start.Seed.{seed_demo}
use x_ui_site.Start.Demo.{seed_demo_ok}
use x_ui_site.Start.Knocking.{one_of, knock_ends}
use x_ui_site.Start.Scripts.{
  Ascending, sorted-Ascending, sorted-perm, Carried, Stopped, run_scripts-Carried,
}
use x_ui_site.Start.{
  Config, load, given, Knocked, knock, fuel, connected, reach, Machine, new_postgres, sorted,
  run_scripts, run_migrations, seed_if, run,
}

-- The configuration that the environment gives is complete.
pub record IsComplete (getenv : String → String) (c : Config) : Type 0 where
  pub from_env : c ≡ given getenv
  pub dsn : str_eq c.database_dsn "" ≡ false
  pub secret : str_eq c.jwt_secret "" ≡ false
  pub key_size : length (bytes c.panel_encryption_key) ≡ 32

unless_err :
    {A : Type 0} {c : A} (b : Bool) (e : Error) (r : Result A)
    → (if b then err e else r) ≡ ok c
    → (b ≡ false) × (r ≡ ok c)
unless_err true e r h = cc
unless_err false e r h = (refl, h)

exactly : (n : ℕ) → not (n == 32) ≡ false → n ≡ 32
exactly n h = ground arith

load-IsComplete : (getenv : String → String) (c : Config) → load getenv ≡ ok c → IsComplete getenv c
unfolding load
load-IsComplete getenv c e =
    let (dsn, e1) = unless_err _ _ _ e in
    let (secret, e2) = unless_err _ _ _ e1 in
    let (key, e3) = unless_err _ _ _ e2 in
    let (size, e4) = unless_err _ _ _ e3 in
    subst (IsComplete getenv) (ok-injective e4)
      (record { from_env = refl; dsn = dsn; secret = secret; key_size = exactly _ size })

-- The rows after the migrations are what the demo shop is made in, in development alone.
abbrev pub SeededIf : Config → World → World → Type 0
SeededIf c w x = x ≡ (if str_eq c.app_env "development" then (seed_demo w).1 else w)

module _ (m : Machine) where
  -- The server may be made: the configuration is complete, the database answers, and every file of the
  -- migrations was carried out without an error, once each and in the order of their names.
  pub record Ready (w : World) (c : Config) (x : World) : Type 0 where
    pub complete : IsComplete m.getenv c
    pub opened : m.opens ≡ none
    pub reached : one_of 15 m.pings ≡ true
    pub files : List String
    pub order : List String
    pub listed : m.files ≡ ok files
    pub same_files : Perm order files
    pub ascending : Ascending order
    pub migrated : World
    pub carried : Carried m order w migrated
    pub seeded : SeededIf c migrated x

  -- A start that ends early has touched nothing but by the first of these files.
  abbrev pub NotReady : World → World → Type 0
  NotReady w x =
      (x ≡ w)
      ⊎ ((files : List String) × (order : List String) × (m.files ≡ ok files)
          × Perm order files
          × Ascending order
          × Stopped m order w x)

  connected-heard :
      (o : Option Knocked) (k : Knocked) → o ≡ some k → connected o ≡ ok tt → k.answered ≡ true
  connected-heard none k e h = cc
  connected-heard (some j) k e h = ground arith

  reach-heard :
      (o : Option Error) (pings : List Bool)
      → reach o pings ≡ ok tt
      → (o ≡ none) × (one_of 15 pings ≡ true)
  reach-heard none pings h =
      let (k, ended, few, short, heard) = knock_ends pings in
      (refl, sym heard ∙ connected-heard (knock fuel 1 0 pings) k ended h)
  reach-heard (some e) pings h = cc

  migrations-Runs :
      (w : World)
      → Runs w
          (run_migrations m)
          (λ _ x. (files : List String) × (m.files ≡ ok files) × Carried m (sorted files) w x)
          (NotReady w)
  unfolding run_migrations
  migrations-Runs w =
      bind-Runs
        (lift-Runs {P = λ files x. (m.files ≡ ok files) × (x ≡ w)} m.files (λ files e. (e, refl))
          (inl refl))
        λ files x (listed, same).
          subst
            (λ y.
              Runs y (run_scripts m (sorted files))
                (λ _ x. (files : List String) × (m.files ≡ ok files) × Carried m (sorted files) w x)
                (NotReady w))
            (sym same)
            (weaken-Runs (run_scripts-Carried m (sorted files) w) (λ _ z c. (files, listed, c))
              (λ z s.
                inr (files, sorted files, listed, sorted-perm files, sorted-Ascending files, s)))

  seed_if-Runs :
      (c : Config) (w : World) (E : World → Type 0) (b : Bool)
      → str_eq c.app_env "development" ≡ b
      → Runs w (seed_if b) (λ _. SeededIf c w) E
  unfolding pure
  seed_if-Runs c w E true dev = record {
    holds =
        fine (seed_demo w).0 (seed_demo w).1 (seed_demo_ok w)
          (sym (if-true (str_eq c.app_env "development") _ _ dev));
  }
    where
      fine :
          (r : Result (Unit {0})) (x : World)
          → r ≡ ok tt
          → SeededIf c w x
          → Ends (λ _. SeededIf c w) E r x
      fine (ok u) x e s = s
      fine (err q) x e s = cc
  seed_if-Runs c w E false other = record {
    holds = sym (if-false (str_eq c.app_env "development") _ _ other);
  }

  -- Whatever the environment holds, whatever becomes of the pings, the files and their scripts, and
  -- whatever statement fails: where the server is made, the configuration is the one of the
  -- environment and complete, a database that opens answered one of the first 15 pings, and the files
  -- of the migrations were carried out, each once and without an error, in the order of their names,
  -- with the demo shop after them in development alone. A start that fails has left the world as it
  -- was, or as a beginning of these files leaves it.
  pub run-Ready : (w : World) → Runs w (run m) (Ready w) (NotReady w)
  unfolding run
  run-Ready w =
      bind-Runs
        (lift-Runs {P = λ c x. IsComplete m.getenv c × (x ≡ w)} (load m.getenv)
          (λ c e. (load-IsComplete m.getenv c e, refl)) (inl refl))
        λ c w1 (complete, s1).
          bind-Runs
            (lift-Runs {P = λ _ x. (m.opens ≡ none) × (one_of 15 m.pings ≡ true) × (x ≡ w)}
              (new_postgres m c.database_dsn)
              (λ u e.
                let (opened, reached) = reach-heard m.opens m.pings ((unless_err _ _ _ e).1) in
                (opened, reached, s1))
              (inl s1))
            λ u w2 (opened, reached, s2).
              bind-Runs
                (subst
                  (λ y.
                    Runs y (run_migrations m)
                      (λ _ x.
                        (files : List String) × (m.files ≡ ok files) × Carried m (sorted files) w x)
                      (NotReady w))
                  (sym s2) (migrations-Runs w))
                λ _ w3 (files, listed, carried).
                  bind-Runs (seed_if-Runs c w3 (NotReady w) (str_eq c.app_env "development") refl)
                    λ _ w4 seeded. pure-Runs c (record {
                      complete = complete;
                      opened = opened;
                      reached = reached;
                      files = files;
                      order = sorted files;
                      listed = listed;
                      same_files = sorted-perm files;
                      ascending = sorted-Ascending files;
                      migrated = w3;
                      carried = carried;
                      seeded = seeded;
                    })
