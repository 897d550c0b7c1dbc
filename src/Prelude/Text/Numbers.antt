-- ===== src/Prelude/Text/Numbers.antt =====
-- strconv.ParseInt reads what `%d` prints.
use Prim.Native.Nat.{ℕ, zero, suc, ◌+◌, ◌*◌, ◌/◌, ◌%◌, ◌≤◌, ◌<◌}
use Prim.Native.Char.{Char}
use Prim.Native.String.{String}
use mathlib.Core.Path.{◌≡◌, refl, sym, ap, subst, ◌∙◌}
use mathlib.Core.Bool.{false}
use mathlib.Core.Option.{some}
use mathlib.Core.Logic.{inl, inr}
use native.Mathlib.Omega.{arith}
use x_ui_site.Prelude.Tests.{ltb, Bool-cases}
use x_ui_site.Prelude.Decimal.{decimal, digit, digits_from}
use x_ui_site.Prelude.Text.{
  digit_of, uint_from, parse_uint, parse_int, parse_id, max_uint, max_int, same_char,
}

-- A printed digit is read as its value, and is no sign.
digit_facts :
    (d : ℕ)
    → d < 10
    → (digit_of (digit d) ≡ some d)
      × (same_char (digit d) "+" ≡ false)
      × (same_char (digit d) "-" ≡ false)
unfolding digit
digit_facts zero h = (refl, refl, refl)
digit_facts (suc zero) h = (refl, refl, refl)
digit_facts (suc (suc zero)) h = (refl, refl, refl)
digit_facts (suc (suc (suc zero))) h = (refl, refl, refl)
digit_facts (suc (suc (suc (suc zero)))) h = (refl, refl, refl)
digit_facts (suc (suc (suc (suc (suc zero))))) h = (refl, refl, refl)
digit_facts (suc (suc (suc (suc (suc (suc zero)))))) h = (refl, refl, refl)
digit_facts (suc (suc (suc (suc (suc (suc (suc zero))))))) h = (refl, refl, refl)
digit_facts (suc (suc (suc (suc (suc (suc (suc (suc zero)))))))) h = (refl, refl, refl)
digit_facts (suc (suc (suc (suc (suc (suc (suc (suc (suc zero))))))))) h = (refl, refl, refl)
digit_facts (suc (suc (suc (suc (suc (suc (suc (suc (suc (suc d)))))))))) h = absurd (omega arith)

uint_from-digit :
    (n d : ℕ) (s : String)
    → d < 10
    → n * 10 + d ≤ max_uint
    → uint_from n (String.◌∷◌ (digit d) s) ≡ uint_from (n * 10 + d) s
unfolding uint_from
uint_from-digit n d s h k = rw ((digit_facts d h).0, uint_from) (ground arith)

-- The printed digits in front of `s` are read as the number.
uint_from-digits :
    (f n : ℕ) (s : String) → n < f → n ≤ max_uint → uint_from 0 (digits_from f n s) ≡ uint_from n s
unfolding digits_from
uint_from-digits zero n s h k = absurd (omega arith)
uint_from-digits (suc f) n s h k = elim (Bool-cases (ltb n 10)) [
  | inl small ↦
      rw small
        (uint_from-digit 0 n s (ground arith) (omega arith) ∙ ap (λ x. uint_from x s) (omega arith))
  | inr big ↦ rw big (
      uint_from-digits f (n / 10) (String.◌∷◌ (digit (n % 10)) s) (ground arith) (omega arith)
      ∙ uint_from-digit (n / 10) (n % 10) s (omega arith) (omega arith)
      ∙ ap (λ x. uint_from x s) (omega arith))
]

-- What is printed begins with a digit.
digits_from_head :
    (f n : ℕ) (s : String)
    → n < f
    → (d : ℕ) × (t : String) × (d < 10) × (digits_from f n s ≡ String.◌∷◌ (digit d) t)
unfolding digits_from
digits_from_head zero n s h = absurd (omega arith)
digits_from_head (suc f) n s h = elim (Bool-cases (ltb n 10)) [
  | inl small ↦ (n, s, (ground arith), rw small refl)
  | inr big ↦
      let (d, t, k, e) =
        digits_from_head f (n / 10) (String.◌∷◌ (digit (n % 10)) s) (ground arith) in
      (d, t, k, rw big e)
]

parse_id-unsigned :
    (c : Char) (t : String) (n : ℕ)
    → same_char c "+" ≡ false
    → same_char c "-" ≡ false
    → uint_from 0 (String.◌∷◌ c t) ≡ some n
    → n ≤ max_int
    → parse_id (String.◌∷◌ c t) ≡ n
unfolding parse_int parse_uint
parse_id-unsigned c t n plus minus e k = rw plus (rw minus (rw e (ground arith)))

uint_from-nil : (n : ℕ) → uint_from n "" ≡ some n
unfolding uint_from
uint_from-nil n = refl

-- A number of an int64 is read back from what `%d` prints of it.
pub parse_id-decimal : (n : ℕ) → n ≤ max_int → parse_id (decimal n) ≡ n
unfolding decimal
parse_id-decimal n k =
    let (d, t, small, e) = digits_from_head (suc n) n "" (omega arith) in
    let (value, plus, minus) = digit_facts d small in
    subst (λ s. parse_id s ≡ n) (sym e)
      (parse_id-unsigned (digit d) t n plus minus
        (ap (uint_from 0) (sym e)
          ∙ uint_from-digits (suc n) n "" (omega arith) (omega arith)
          ∙ uint_from-nil n)
        k)
