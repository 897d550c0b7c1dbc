-- ===== src/Middleware/RateLimit/Cleanup.antt =====
-- The cleanup of the limiter cannot be seen from outside.
use x_ui_site.Prelude.{
  ℕ, ◌≤◌, ◌<◌, ◌≡◌, refl, sym, ap, ◌∙◌, subst, String, str_eq, Bool, Option, none, some, List, [],
  ◌∷◌, ltb, if◌then◌else◌, ◌⊎◌, inl, inr, arith, Bool-cases,
}
use x_ui_site.Middleware.RateLimit.{
  Bucket, Buckets, RateLimiter, Event, requested, cleaned, time_of, admit, allow, stored, cleanup,
  kept,
}

-- Times that do not go back.
abbrev pub IsSorted : ℕ → List Event → Type 0
IsSorted now [] = Unit {0}
IsSorted now (e ∷ es) = (now ≤ time_of e) × IsSorted (time_of e) es

abbrev pub requests_only : List Event → List Event
requests_only [] = []
requests_only (requested k now ∷ es) = requested k now ∷ requests_only es
requests_only (cleaned now ∷ es) = requests_only es

-- The same bucket, or one that is over against none.
abbrev Alike : ℕ → Option Bucket → Option Bucket → Type 0
Alike now o p = (o ≡ p) ⊎ ((o ≡ none) × (b : Bucket) × (p ≡ some b) × (b.window_end < now))

later-Alike : (n m : ℕ) (o p : Option Bucket) → n ≤ m → Alike n o p → Alike m o p
later-Alike n m o p h (inl e) = inl e
later-Alike n m o p h (inr (e, b, q, over)) = inr (e, b, q, (omega arith))

kept-Alike : (n : ℕ) (o p : Option Bucket) → Alike n o p → Alike n (kept n o) p
kept-Alike n o p (inr (e, b, q, over)) = inr (ap (kept n) e, b, q, over)
kept-Alike n none p (inl e) = inl e
kept-Alike n (some b) p (inl e) = elim (Bool-cases (ltb b.window_end n)) [
  | inl over ↦ inr (ground arith, b, sym e, ground arith)
  | inr still ↦ inl (ground arith)
]

module _ (rl : RateLimiter) where
  -- The answers to the requests, in order.
  unfoldable pub answers : List Event → Buckets → List Bool
  answers [] buckets = []
  answers (requested k now ∷ es) buckets =
      (allow rl k now buckets).0 ∷ answers es (allow rl k now buckets).1
  answers (cleaned now ∷ es) buckets = answers es (cleanup now buckets)

  admit-Alike : (n : ℕ) (o p : Option Bucket) → Alike n o p → admit rl n o ≡ admit rl n p
  admit-Alike n o p (inl e) = ap (admit rl n) e
  admit-Alike n o p (inr (e, b, q, over)) = ap (admit rl n) e ∙ fresh ∙ ap (admit rl n) (sym q)
    where
      fresh : admit rl n none ≡ admit rl n (some b)
      fresh = ground arith

  stored-Alike :
      (n : ℕ) (k key : String) (new : Option Bucket) (b c : Buckets)
      → ((x : String) → Alike n (b x) (c x))
      → Alike n (stored k new b key) (stored k new c key)
  stored-Alike n k key none b c h = h key
  stored-Alike n k key (some x) b c h = elim (Bool-cases (str_eq key k)) [
    | inl own ↦ inl (ground arith)
    | inr other ↦
        subst (λ t. Alike n (if t then some x else b key) (if t then some x else c key)) (sym other)
          (h key)
  ]

  answers-Alike :
      (es : List Event) (n : ℕ) (b c : Buckets)
      → IsSorted n es
      → ((x : String) → Alike n (b x) (c x))
      → answers es b ≡ answers (requests_only es) c
  unfolding answers allow cleanup
  answers-Alike [] n b c s h = refl
  answers-Alike (cleaned m ∷ es) n b c s h =
      answers-Alike es m (cleanup m b) c s.1
        (λ x. kept-Alike m (b x) (c x) (later-Alike n m (b x) (c x) s.0 (h x)))
  answers-Alike (requested k m ∷ es) n b c s h =
      let now_alike : (x : String) → Alike m (b x) (c x) =
        λ x. later-Alike n m (b x) (c x) s.0 (h x) in
      let same = admit-Alike m (b k) (c k) (now_alike k) in
      let rest =
        answers-Alike es m (stored k (admit rl m (b k)).1 b) (stored k (admit rl m (c k)).1 c) s.1
          (λ x.
            subst (λ t. Alike m (stored k (admit rl m (b k)).1 b x) (stored k t.1 c x)) same
              (stored-Alike m k x (admit rl m (b k)).1 b c now_alike)) in
      ap (λ t. t.0 ∷ answers es (stored k (admit rl m (b k)).1 b)) same
      ∙ ap (λ r. (admit rl m (c k)).0 ∷ r) rest

  -- Over any sequence of requests and cleanups whose times do not go back, from any buckets: every
  -- request is answered as if no cleanup had ever run.
  pub cleanup-unseen :
      (es : List Event) (start : ℕ) (buckets : Buckets)
      → IsSorted start es
      → answers es buckets ≡ answers (requests_only es) buckets
  cleanup-unseen es start buckets s = answers-Alike es start buckets buckets s (λ x. inl refl)
