-- ===== src/Storefront/Slug.antt =====
-- The slugs that the store accepts.
use Prim.Native.Char.{Char}
use x_ui_site.Prelude.{
  String, ◌≡◌, refl, sym, ap, ◌∙◌, Bool, true, false, ◌&&◌, List, [], ◌∷◌, Bool-cases, inl, inr,
  arith,
}
use x_ui_site.Prelude.Text.{same_char, split, in_front}
use x_ui_site.Prelude.Text.Splits.{split_head}
use x_ui_site.Storefront.{is_slug_char, matches_from, valid_slug}

-- A word of the characters, which may be empty.
abbrev pub all_slug_chars : String → Bool
all_slug_chars String.[] = true
all_slug_chars (String.◌∷◌ c s) = is_slug_char c && all_slug_chars s

abbrev pub is_word : String → Bool
is_word String.[] = false
is_word (String.◌∷◌ c s) = is_slug_char c && all_slug_chars s

abbrev pub all_words : List String → Bool
all_words [] = true
all_words (p ∷ ps) = is_word p && all_words ps

-- The first piece has begun already, or begins here.
abbrev rest_of_words : Bool → List String → Bool
rest_of_words begun [] = false
rest_of_words true (p ∷ ps) = all_slug_chars p && all_words ps
rest_of_words false (p ∷ ps) = is_word p && all_words ps

dash_no_slug_char : (c : Char) → same_char c "-" ≡ true → is_slug_char c ≡ false
dash_no_slug_char c h = ground arith

words_of_split : (s : String) → rest_of_words false (split "-" s) ≡ all_words (split "-" s)
words_of_split s =
    let (p, ps, e) = split_head "-" s in ap (rest_of_words false) e ∙ sym (ap all_words e)

-- A character of a word joins the first piece.
within_word :
    (begun : Bool) (c : Char) (s : String)
    → is_slug_char c ≡ true
    → rest_of_words begun (in_front c (split "-" s)) ≡ rest_of_words true (split "-" s)
within_word true c s h =
    let (p, ps, e) = split_head "-" s in
    ap (λ x. rest_of_words true (in_front c x)) e
    ∙ ap (λ b. (b && all_slug_chars p) && all_words ps) h
    ∙ sym (ap (rest_of_words true) e)
within_word false c s h =
    let (p, ps, e) = split_head "-" s in
    ap (λ x. rest_of_words false (in_front c x)) e
    ∙ ap (λ b. (b && all_slug_chars p) && all_words ps) h
    ∙ sym (ap (rest_of_words true) e)

outside_word :
    (begun : Bool) (c : Char) (s : String)
    → is_slug_char c ≡ false
    → rest_of_words begun (in_front c (split "-" s)) ≡ false
outside_word true c s h =
    let (p, ps, e) = split_head "-" s in
    ap (λ x. rest_of_words true (in_front c x)) e
    ∙ ap (λ b. (b && all_slug_chars p) && all_words ps) h
outside_word false c s h =
    let (p, ps, e) = split_head "-" s in
    ap (λ x. rest_of_words false (in_front c x)) e
    ∙ ap (λ b. (b && all_slug_chars p) && all_words ps) h

begin_word :
    (begun : Bool) (ps : List String) → rest_of_words begun ("" ∷ ps) ≡ begun && all_words ps
begin_word true ps = refl
begin_word false ps = refl

matches_from_words :
    (begun : Bool) (s : String) → matches_from begun s ≡ rest_of_words begun (split "-" s)
matches_from_words true String.[] = refl
matches_from_words false String.[] = refl
matches_from_words begun (String.◌∷◌ c s) =
    let within = matches_from_words true s in
    let next = matches_from_words false s ∙ words_of_split s in
    elim (Bool-cases (same_char c "-")) [
      | inl dash ↦ rw dash (
          rw (dash_no_slug_char c dash)
            (ap (λ b. begun && b) next ∙ sym (begin_word begun (split "-" s))))
      | inr plain ↦ elim (Bool-cases (is_slug_char c)) [
        | inl letter ↦ rw plain (rw letter (within ∙ sym (within_word begun c s letter)))
        | inr other ↦ rw plain (rw other (sym (outside_word begun c s other)))
      ]
    ]

-- The regular expression accepts exactly the texts whose pieces between '-' are words of small
-- letters and digits, none of them empty.
pub valid_slug_iff_words : (s : String) → valid_slug s ≡ all_words (split "-" s)
unfolding valid_slug
valid_slug_iff_words s = matches_from_words false s ∙ words_of_split s
