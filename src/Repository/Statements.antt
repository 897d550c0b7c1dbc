-- ===== src/Repository/Statements.antt =====
-- What the statements share: a row or sql.ErrNoRows, a write that the schema may refuse.
use x_ui_site.Prelude.{ℕ, ◌≡◌, refl, Bool, true, false, Option, none, some, any, ◌==◌}
use x_ui_site.Db.Rows.{Tables}
use x_ui_site.Db.Errors.{
  Error, Result, ok, err, no_rows, unique_violation, out_of_range, map_ok, ok-injective,
}

-- QueryRow(…).Scan(…)
abbrev pub scan_row : {A : Type 0} → Option A → Result A
scan_row none = err no_rows
scan_row (some a) = ok a

-- A write with its constraint.
abbrev pub checked : {A : Type 0} → Bool → Error → A → Result A
checked true e a = ok a
checked false e a = err e

-- A write with a unique key, if the key is not taken.
abbrev pub unless_taken : {A : Type 0} → Bool → Result A → Result A
unless_taken true r = err unique_violation
unless_taken false r = r

-- A write of numbers, if they are in the range of their columns.
abbrev pub in_range : {A : Type 0} → Bool → Result A → Result A
in_range true r = r
in_range false r = err out_of_range

abbrev pub has_user : ℕ → Tables → Bool
has_user id t = any (λ u. u.id == id) t.users

abbrev pub has_vendor : ℕ → Tables → Bool
has_vendor id t = any (λ v. v.id == id) t.vendors

pub scan_row-eq-ok : {A : Type 0} {a : A} (o : Option A) → scan_row o ≡ ok a → o ≡ some a
scan_row-eq-ok none e = cc
scan_row-eq-ok (some b) e = cc

pub checked-eq-ok :
    {A : Type 0} {x : A} (b : Bool) (e : Error) (a : A)
    → checked b e a ≡ ok x
    → (b ≡ true) × (a ≡ x)
checked-eq-ok true e a h = (cc, cc)
checked-eq-ok false e a h = cc

pub unless_taken-eq-ok :
    {A : Type 0} {x : A} (b : Bool) (r : Result A)
    → unless_taken b r ≡ ok x
    → (b ≡ false) × (r ≡ ok x)
unless_taken-eq-ok true r h = cc
unless_taken-eq-ok false r h = (refl, h)

pub in_range-eq-ok :
    {A : Type 0} {x : A} (b : Bool) (r : Result A) → in_range b r ≡ ok x → (b ≡ true) × (r ≡ ok x)
in_range-eq-ok true r h = (refl, h)
in_range-eq-ok false r h = cc

pub map_ok-eq-ok :
    {A B : Type 0} {b : B} (f : A → B) (r : Result A)
    → map_ok f r ≡ ok b
    → (a : A) × (r ≡ ok a) × (f a ≡ b)
map_ok-eq-ok f (ok a) e = (a, refl, ok-injective e)
map_ok-eq-ok f (err x) e = cc
