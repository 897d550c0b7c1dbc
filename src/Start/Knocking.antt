-- ===== src/Start/Knocking.antt =====
-- How long a start waits for the database.
use x_ui_site.Prelude.{
  ℕ, zero, suc, ◌+◌, ◌-◌, ◌*◌, ◌≤◌, ◌<◌, ◌≡◌, refl, ◌∙◌, Bool, true, false, Option, some, List, [],
  ◌∷◌, any, take, leb, arith,
}
use x_ui_site.Start.{Knocked, knock, fuel, max_attempts}

-- Whether one of the next n pings is answered.
abbrev pub one_of : ℕ → List Bool → Bool
one_of n pings = any (λ p. p) (take n pings)

-- The loop ends after n more pings at most; what it slept is bounded by the pings that it sent.
record Ended (n : ℕ) (pings : List Bool) (o : Option Knocked) : Type 0 where
  knocked : Knocked
  ended : o ≡ some knocked
  few : knocked.sent ≤ max_attempts
  short : knocked.slept ≤ 250 * (knocked.sent * suc knocked.sent)
  heard : knocked.answered ≡ one_of n pings

Ended-suc :
    (n : ℕ) (ps : List Bool) (o : Option Knocked) → Ended n ps o → Ended (suc n) (false ∷ ps) o
Ended-suc n ps o e = record {
  knocked = e.knocked;
  ended = e.ended;
  few = e.few;
  short = e.short;
  heard = e.heard;
}

one_of_nil : (n : ℕ) → one_of n [] ≡ false
one_of_nil zero = refl
one_of_nil (suc n) = refl

Ended-nil : (n : ℕ) (o : Option Knocked) → Ended n [] o → Ended (suc n) [] o
Ended-nil n o e = record {
  knocked = e.knocked;
  ended = e.ended;
  few = e.few;
  short = e.short;
  heard = e.heard ∙ one_of_nil n;
}

knock-Ended :
    (f n i slept : ℕ) (pings : List Bool)
    → i + n ≡ 15
    → n < f
    → slept ≤ 250 * (i * suc i)
    → Ended n pings (knock f (suc i) slept pings)
unfolding knock
knock-Ended zero n i slept pings h k s = absurd (omega arith)
knock-Ended (suc f) zero i slept pings h k s =
    let last : leb (suc i) max_attempts ≡ false = ground arith in
    let same : suc i - 1 ≡ i = omega arith in
    rw (last, same)
      (record {
        knocked = record { answered = false; sent = i; slept = slept };
        ended = refl;
        few = (omega arith);
        short = (omega arith);
        heard = refl;
      })
knock-Ended (suc f) (suc n) i slept [] h k s =
    let more : leb (suc i) max_attempts ≡ true = ground arith in
    let rest =
      knock-Ended f n (suc i) (slept + suc i * 500) [] (omega arith) (omega arith) (omega arith) in
    let next : suc i + 1 ≡ suc (suc i) = omega arith in rw (more, next) (Ended-nil n _ rest)
knock-Ended (suc f) (suc n) i slept (true ∷ ps) h k s =
    let more : leb (suc i) max_attempts ≡ true = ground arith in
    rw more (record {
      knocked = record { answered = true; sent = suc i; slept = slept };
      ended = refl;
      few = (omega arith);
      short = (omega arith);
      heard = refl;
    })
knock-Ended (suc f) (suc n) i slept (false ∷ ps) h k s =
    let more : leb (suc i) max_attempts ≡ true = ground arith in
    let next : suc i + 1 ≡ suc (suc i) = omega arith in
    let rest =
      knock-Ended f n (suc i) (slept + suc i * 500) ps (omega arith) (omega arith) (omega arith) in
    rw (more, next) (Ended-suc n ps _ rest)

at_most_a_minute : (sent slept : ℕ) → sent ≤ 15 → slept ≤ 250 * (sent * suc sent) → slept ≤ 60000
at_most_a_minute sent slept h k = grind arith

-- Whatever becomes of the pings: the loop of NewPostgres ends, within its fuel, after at most 15 pings
-- and at most 60 seconds of sleep, and a ping was answered if one of the first 15 is, and only then.
pub knock_ends :
    (pings : List Bool)
    → (k : Knocked) × (knock fuel 1 0 pings ≡ some k)
      × (k.sent ≤ 15)
      × (k.slept ≤ 60000)
      × (k.answered ≡ one_of 15 pings)
knock_ends pings =
    let e = knock-Ended fuel 15 0 0 pings (omega arith) (omega arith) (omega arith) in
    (
      e.knocked,
      e.ended,
      e.few,
      at_most_a_minute e.knocked.sent e.knocked.slept e.few e.short,
      e.heard,
    )
