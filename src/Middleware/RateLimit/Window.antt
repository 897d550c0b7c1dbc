-- ===== src/Middleware/RateLimit/Window.antt =====
-- How many requests of one client the limiter can let through in a stretch of time.
use x_ui_site.Prelude.{
  ℕ, ◌+◌, ◌-◌, ◌*◌, ◌≤◌, ◌≡◌, refl, sym, ap, subst, String, str_eq, eq_iff, false, Option, none,
  some, List, [], ◌∷◌, leb, if◌then◌else◌, All, arith, Bool-cases, inl, inr,
}
use x_ui_site.Middleware.RateLimit.{
  Bucket, Buckets, RateLimiter, Event, requested, cleaned, time_of, admit, allow, stored, cleanup,
  kept, happen, passed,
}

module _ (rl : RateLimiter) (key : String) (start : ℕ) where
  -- What a bucket can still let through up to `start + window`: its own rest, and a new window if it
  -- ends before that.
  abbrev rest : Option Bucket → ℕ
  rest none = rl.limit
  rest (some b) =
      if leb (start + rl.window) b.window_end
      then rl.limit - b.count
      else rl.limit + (rl.limit - b.count)

  abbrev pub IsDuring : ℕ → Type 0
  IsDuring now = (start ≤ now) × (now ≤ start + rl.window)

  abbrev after : Option Bucket → Option Bucket → Option Bucket
  after old none = old
  after old (some b) = some b

  admit-rest :
      (now : ℕ) (o : Option Bucket)
      → 1 ≤ rl.limit
      → IsDuring now
      → (if (admit rl now o).0 then 1 else 0) + rest (after o (admit rl now o).1) ≤ rest o
  admit-rest now none l h = ground arith
  admit-rest now (some b) l h = ground arith

  kept-rest : (now : ℕ) (o : Option Bucket) → IsDuring now → rest (kept now o) ≤ rest o
  kept-rest now none h = omega arith
  kept-rest now (some b) h = ground arith

  rest-bound : (o : Option Bucket) → rest o ≤ 2 * rl.limit
  rest-bound none = omega arith
  rest-bound (some b) = ground arith

  stored-rest :
      (o : Option Bucket) (buckets : Buckets)
      → rest (stored key o buckets key) ≡ rest (after (buckets key) o)
  stored-rest none buckets = refl
  stored-rest (some b) buckets = ground (arith, eq_iff key key)

  stored-other :
      (k : String) (o : Option Bucket) (buckets : Buckets)
      → str_eq k key ≡ false
      → stored k o buckets key ≡ buckets key
  stored-other k none buckets h = refl
  stored-other k (some b) buckets h = ground (arith, eq_iff key k, eq_iff k key)

  own-rest :
      (now : ℕ) (buckets : Buckets)
      → 1 ≤ rl.limit
      → IsDuring now
      → (happen rl key (requested key now) buckets).0
          + rest ((happen rl key (requested key now) buckets).1 key)
        ≤ rest (buckets key)
  unfolding happen allow
  own-rest now buckets l h = ground (
    arith,
    eq_iff key key,
    stored-rest (admit rl now (buckets key)).1 buckets,
    admit-rest now (buckets key) l h,
  )

  happen-rest :
      (e : Event) (buckets : Buckets)
      → 1 ≤ rl.limit
      → IsDuring (time_of e)
      → (happen rl key e buckets).0 + rest ((happen rl key e buckets).1 key) ≤ rest (buckets key)
  unfolding happen allow cleanup
  happen-rest (cleaned now) buckets l h = omega (arith, kept-rest now (buckets key) h)
  happen-rest (requested k now) buckets l h = elim (Bool-cases (str_eq k key)) [
    | inl own ↦
        let same : k ≡ key = ground (arith, eq_iff k key) in
        subst
          (λ x.
            (happen rl key (requested x now) buckets).0
              + rest ((happen rl key (requested x now) buckets).1 key)
            ≤ rest (buckets key))
          (sym same) (own-rest now buckets l h)
    | inr other ↦
        let same = stored-other k (admit rl now (buckets k)).1 buckets other in
        ground (arith, ap rest same)
  ]

  passed-rest :
      (es : List Event) (buckets : Buckets)
      → 1 ≤ rl.limit
      → All (λ e. IsDuring (time_of e)) es
      → passed rl key es buckets ≤ rest (buckets key)
  passed-rest [] buckets l h = omega arith
  passed-rest (e ∷ es) buckets l h =
      omega (arith, happen-rest e buckets l h.0, passed-rest es (happen rl key e buckets).1 l h.1)

  -- Whatever the limiter has seen before: of the requests and cleanups whose times lie within one
  -- window of each other, in any order and with any other clients between them, those of one
  -- client that are let through are at most twice the limit, which is at least one.
  pub passed-bound :
      (es : List Event) (buckets : Buckets)
      → 1 ≤ rl.limit
      → All (λ e. IsDuring (time_of e)) es
      → passed rl key es buckets ≤ 2 * rl.limit
  passed-bound es buckets l h = omega (arith, passed-rest es buckets l h, rest-bound (buckets key))
