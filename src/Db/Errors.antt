-- ===== src/Db/Errors.antt =====
-- Go's `error` values, and the results of calls that return one.
use x_ui_site.Prelude.{String, Bool, true, false, ◌≡◌}

-- `new` is errors.New; `wrap` is fmt.Errorf("…: %w"); the others come from the driver.
pub data Error : Type 0 where
  no_rows connection unique_violation foreign_key_violation out_of_range : Error
  new : String → Error
  wrap : String → Error → Error

pub data Result (A : Type 0) : Type 0 where
  ok : A → Result A
  err : Error → Result A

abbrev pub map_ok : {A B : Type 0} → (A → B) → Result A → Result B
map_ok f (ok a) = ok (f a)
map_ok f (err e) = err e

pub ok-injective : {A : Type 0} {a b : A} → ok a ≡ ok b → a ≡ b
ok-injective e = cc

-- Whether a call answers.
abbrev pub is_ok : {A : Type 0} → Result A → Bool
is_ok (ok a) = true
is_ok (err e) = false
