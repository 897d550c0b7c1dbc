-- ===== src/Start.antt =====
-- cmd/server, internal/app, internal/config and internal/db: what happens before the server listens.
-- The environment, the pings of the database and the files of the migrations are given; what a script
-- does to the rows is a parameter.
pub mod Seed
pub mod Demo
pub mod Shop
pub mod Scripts
pub mod Knocking
pub mod Ready
use Prim.Native.Char.{Char, code}
use Prim.Native.String
use x_ui_site.Prelude.{
  ℕ, zero, suc, ◌+◌, ◌-◌, ◌*◌, String, str_eq, Bool, true, false, not, ◌&&◌, ◌||◌, Option, none,
  some, List, [], ◌∷◌, length, tail, ltb, leb, ◌==◌, if◌then◌else◌,
}
use x_ui_site.Prelude.Text.{trim, is_space, same_char}
use x_ui_site.Db.Errors.{Error, Result, ok, err, new}
use x_ui_site.Db.Session.{World, M, pure, raise, lift, ◌>>=◌, ◌>>◌}
use x_ui_site.Security.{bytes}
use x_ui_site.Start.Seed.{seed_demo}

pub record Config : Type 0 where
  pub app_port : String
  pub app_env : String
  pub database_dsn : String
  pub jwt_secret : String
  pub panel_encryption_key : String
  pub redis_addr : String
  pub minio_endpoint : String

module _ (getenv : String → String) where
  abbrev pub env : String → String → String
  env key fallback = if str_eq (getenv key) "" then fallback else getenv key

  abbrev pub given : Config
  given = record {
    app_port = env "APP_PORT" "8080";
    app_env = env "APP_ENV" "development";
    database_dsn = getenv "DATABASE_DSN";
    jwt_secret = getenv "JWT_SECRET";
    panel_encryption_key = getenv "PANEL_ENCRYPTION_KEY";
    redis_addr = env "REDIS_ADDR" "redis:6379";
    minio_endpoint = env "MINIO_ENDPOINT" "minio:9000";
  }

  -- config.Load; `getenv` answers "" for a variable that is not set.
  unfoldable pub load : Result Config
  load =
      if str_eq given.database_dsn ""
      then err (new "missing required env DATABASE_DSN")
      else if str_eq given.jwt_secret ""
      then err (new "missing required env JWT_SECRET")
      else if str_eq given.panel_encryption_key ""
      then err (new "missing required env PANEL_ENCRYPTION_KEY")
      else if not (length (bytes given.panel_encryption_key) == 32)
      then err (new "PANEL_ENCRYPTION_KEY must be 32 bytes")
      else ok given

abbrev pub max_attempts : ℕ
max_attempts = 15

abbrev pub next_ping : List Bool → Bool
next_ping [] = false
next_ping (p ∷ ps) = p

-- What the loop of NewPostgres has done: whether a ping was answered, the pings that were sent, and
-- the milliseconds that it slept.
pub record Knocked : Type 0 where
  pub answered : Bool
  pub sent : ℕ
  pub slept : ℕ

-- `for i := 1; i <= maxAttempts; i++` on fuel; `none` means that the fuel ran out. `pings` says which
-- of the next pings are answered.
unfoldable pub knock : ℕ → ℕ → ℕ → List Bool → Option Knocked
knock zero i slept pings = none
knock (suc fuel) i slept pings =
    let again = knock fuel (i + 1) (slept + i * 500) (tail pings) in
    if leb i max_attempts
    then if next_ping pings
      then some (record { answered = true; sent = i; slept = slept })
      else again
    else some (record { answered = false; sent = i - 1; slept = slept })

abbrev pub fuel : ℕ
fuel = 16

abbrev pub connected : Option Knocked → Result (Unit {0})
connected none = err (new "postgres did not become ready in time")
connected (some k) = if k.answered then ok tt else err (new "postgres did not become ready in time")

-- What the process meets outside: `opens` is the error of sql.Open, if there is one, `files` what
-- filepath.Glob answers and `read_file` what a file holds; `script` is db.Exec of a whole file.
pub record Machine : Type 0 where
  pub getenv : String → String
  pub opens : Option Error
  pub pings : List Bool
  pub files : Result (List String)
  pub read_file : String → Result String
  pub script : String → M (Unit {0})

abbrev pub reach : Option Error → List Bool → Result (Unit {0})
reach none pings = connected (knock fuel 1 0 pings)
reach (some e) pings = err e

-- db.NewPostgres
abbrev pub new_postgres : Machine → String → Result (Unit {0})
new_postgres m dsn = if str_eq dsn "" then err (new "empty DATABASE_DSN") else reach m.opens m.pings

-- The order of Go's strings: byte by byte, which is the order of the characters' numbers in UTF-8.
abbrev pub before : String → String → Bool
before String.[] t = true
before (String.◌∷◌ c s) String.[] = false
before (String.◌∷◌ c s) (String.◌∷◌ d t) = ltb (code c) (code d) || (code c == code d && before s t)

abbrev pub put : String → List String → List String
put s [] = s ∷ []
put s (t ∷ ts) = let rest = put s ts in if before s t then s ∷ t ∷ ts else t ∷ rest

-- sort.Strings
unfoldable pub sorted : List String → List String
sorted [] = []
sorted (s ∷ ss) = put s (sorted ss)

-- strings.TrimSpace(string(b)) == ""
abbrev pub is_blank : String → Bool
is_blank s = str_eq (trim is_space s) ""

abbrev pub seed_if : Bool → M (Unit {0})
seed_if b = if b then seed_demo else pure tt

module _ (m : Machine) where
  abbrev pub carry_out : String → M (Unit {0})
  carry_out text = if is_blank text then pure tt else m.script text

  -- The loop of RunMigrations.
  unfoldable pub run_scripts : List String → M (Unit {0})
  run_scripts [] = pure tt
  run_scripts (f ∷ fs) = do text ← lift (m.read_file f); carry_out text; run_scripts fs

  -- db.RunMigrations
  unfoldable pub run_migrations : M (Unit {0})
  unfolding run_scripts
  run_migrations = do files ← lift m.files; run_scripts (sorted files)

  -- app.Run up to the call of srv.Start, with the configuration that the server is made with.
  unfoldable pub run : M Config
  run = do
    cfg ← lift (load m.getenv)
    lift (new_postgres m cfg.database_dsn)
    run_migrations
    seed_if (str_eq cfg.app_env "development")
    pure cfg
