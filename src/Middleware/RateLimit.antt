-- ===== src/Middleware/RateLimit.antt =====
-- internal/middleware/ratelimit.go: the limiter that the server puts before its handlers. Times
-- are nanoseconds, read under the lock; a request and a cleanup each run alone.
pub mod Window
pub mod Cleanup
use x_ui_site.Prelude.{
  ℕ, ◌+◌, String, str_eq, Bool, true, false, Option, none, some, List, [], ◌∷◌, ltb, leb,
  if◌then◌else◌,
}

-- bucket
pub record Bucket : Type 0 where
  pub count : ℕ
  pub window_end : ℕ

abbrev pub Buckets : Type 0
Buckets = String → Option Bucket

-- RateLimiter, less its map and its lock.
pub record RateLimiter : Type 0 where
  pub limit : ℕ
  pub window : ℕ

abbrev pub set : String → Bucket → Buckets → Buckets
set key b buckets k = if str_eq k key then some b else buckets k

abbrev pub stored : String → Option Bucket → Buckets → Buckets
stored key none buckets = buckets
stored key (some b) buckets = set key b buckets

-- now.After(b.windowEnd)
abbrev pub is_over : ℕ → Bucket → Bool
is_over now b = ltb b.window_end now

module _ (rl : RateLimiter) where
  abbrev pub new_bucket : ℕ → Bucket
  new_bucket now = record { count = 1; window_end = now + rl.window }

  -- What allow does with the bucket of its key: its answer, and the bucket to store.
  abbrev pub admit : ℕ → Option Bucket → Bool × Option Bucket
  admit now none = (true, some (new_bucket now))
  admit now (some b) =
      if is_over now b
      then (true, some (new_bucket now))
      else if leb rl.limit b.count
      then (false, none)
      else (true, some (record b { count = b.count + 1 }))

  -- allow
  unfoldable pub allow : String → ℕ → Buckets → Bool × Buckets
  allow key now buckets =
      let (answer, b) = admit now (buckets key) in (answer, stored key b buckets)

abbrev pub kept : ℕ → Option Bucket → Option Bucket
kept now none = none
kept now (some b) = if is_over now b then none else some b

-- cleanup
unfoldable pub cleanup : ℕ → Buckets → Buckets
cleanup now buckets k = kept now (buckets k)

-- What happens to the limiter, in the order of its lock.
pub data Event : Type 0 where
  requested : String → ℕ → Event
  cleaned : ℕ → Event

abbrev pub time_of : Event → ℕ
time_of (requested key now) = now
time_of (cleaned now) = now

module _ (rl : RateLimiter) where
  -- The bucket that one event leaves, and how many requests of `key` it lets through.
  unfoldable pub happen : String → Event → Buckets → ℕ × Buckets
  happen key (requested k now) buckets =
      let (answer, after) = allow rl k now buckets in
      ((if str_eq k key then (if answer then 1 else 0) else 0), after)
  happen key (cleaned now) buckets = (0, cleanup now buckets)

  -- The requests of `key` that a sequence of events lets through.
  abbrev pub passed : String → List Event → Buckets → ℕ
  passed key [] buckets = 0
  passed key (e ∷ es) buckets = (happen key e buckets).0 + passed key es (happen key e buckets).1
