-- ===== src/Prelude/Text/Splits.antt =====
-- What splitting and stripping undo.
use Prim.Native.Char.{Char, code}
use Prim.Native.String
use x_ui_site.Prelude.Tests.{==-refl, Bool-cases}
use Prim.Native.String.{String}
use mathlib.Core.Path.{◌≡◌, refl, sym, ap, ◌∙◌}
use mathlib.Core.Bool.{true}
use mathlib.Core.Option.{some}
use mathlib.Core.List.{List, [], ◌∷◌}
use mathlib.Core.Logic.{inl, inr}
use native.Mathlib.Omega.{arith}
use text.Mathlib.TextLemmas.{cons-append, nil-append}
use text.Mathlib.TextEquality.{codes_equal}
use x_ui_site.Prelude.Text.{free_of, split, join, in_front, strip_prefix, same_char, cut}

-- A text without the character is one piece.
pub split-free : (c : Char) (s : String) → free_of c s ≡ true → split c s ≡ s ∷ []
split-free c String.[] h = refl
split-free c (String.◌∷◌ d s) h = ground (arith, split-free c s)

-- The first piece ends at the first occurrence.
pub split-append :
    (c : Char) (s t : String)
    → free_of c s ≡ true
    → split c (String.◌++◌ s (String.◌∷◌ c t)) ≡ s ∷ split c t
split-append c String.[] t h = rw (nil-append (String.◌∷◌ c t)) (rw (==-refl (code c)) refl)
split-append c (String.◌∷◌ d s) t h =
    rw (cons-append d s (String.◌∷◌ c t)) (ground (arith, split-append c s t))

join-in_front :
    (c d : Char) (p : String) (ps : List String)
    → join c (in_front d (p ∷ ps)) ≡ String.◌∷◌ d (join c (p ∷ ps))
join-in_front c d p [] = refl
join-in_front c d p (q ∷ ps) = cons-append d p (String.◌∷◌ c (join c (q ∷ ps)))

-- Every text has a first piece.
pub split_head : (c : Char) (s : String) → (p : String) × (ps : List String) × (split c s ≡ p ∷ ps)
split_head c String.[] = ("", [], refl)
split_head c (String.◌∷◌ d s) = elim (Bool-cases (same_char d c)) [
  | inl hit ↦ ("", split c s, rw hit refl)
  | inr miss ↦ let (p, ps, e) = split_head c s in (String.◌∷◌ d p, ps, rw miss (rw e refl))
]

-- Joining the pieces gives the text back.
pub join-split : (c : Char) (s : String) → join c (split c s) ≡ s
join-split c String.[] = refl
join-split c (String.◌∷◌ d s) =
    let (p, ps, e) = split_head c s in
    let rest = ap (join c) (sym e) ∙ join-split c s in
    elim (Bool-cases (same_char d c)) [
      | inl hit ↦ rw hit (
          rw e (
            nil-append (String.◌∷◌ c (join c (p ∷ ps)))
            ∙ ap (λ x. String.◌∷◌ c x) rest
            ∙ ap (λ x. String.◌∷◌ x s) (sym (same d c hit))))
      | inr miss ↦ rw miss (rw e (join-in_front c d p ps ∙ ap (λ x. String.◌∷◌ d x) rest))
    ]
  where
    same : (d c : Char) → same_char d c ≡ true → d ≡ c
    same d c h = codes_equal d c (ground arith)

-- A prefix that was put there is taken away.
pub strip_prefix-append : (p s : String) → strip_prefix p (String.◌++◌ p s) ≡ some s
strip_prefix-append String.[] s = ap some (nil-append s)
strip_prefix-append (String.◌∷◌ c p) s =
    rw (cons-append c p s) (rw (==-refl (code c)) (strip_prefix-append p s))

pub cut-append :
    (c : Char) (s t : String)
    → free_of c s ≡ true
    → cut c (String.◌++◌ s (String.◌∷◌ c t)) ≡ some (s, t)
cut-append c String.[] t h = rw (nil-append (String.◌∷◌ c t)) (rw (==-refl (code c)) refl)
cut-append c (String.◌∷◌ d s) t h = elim (Bool-cases (same_char d c)) [
  | inl hit ↦ absurd (cc)
  | inr miss ↦
      rw (cons-append d s (String.◌∷◌ c t)) (rw miss (rw (cut-append c s t (ground arith)) refl))
]
