-- ===== src/Db/Updates.antt =====
-- Rows before and after an UPDATE, one by one.
use x_ui_site.Prelude.{◌≡◌, refl, Bool, true, false, List, [], ◌∷◌, update_where, if◌then◌else◌}

-- In the second list, the rows that are `Hit` stand changed as `After` says, all others as they were.
pub data RowsUpdated {A : Type 0} (Hit : A → Type 0) (After : A → A → Type 0)
    : List A → List A → Type 0 where
  no_row : RowsUpdated Hit After [] []
  changed :
      {x y : A} {xs ys : List A}
      → Hit x
      → After x y
      → RowsUpdated Hit After xs ys
      → RowsUpdated Hit After (x ∷ xs) (y ∷ ys)
  kept :
      {x : A} {xs ys : List A}
      → (Hit x → ⊥)
      → RowsUpdated Hit After xs ys
      → RowsUpdated Hit After (x ∷ xs) (x ∷ ys)

module _ {A : Type 0} {Hit : A → Type 0} {After : A → A → Type 0} (p : A → Bool) (f : A → A)
    (hit : (x : A) → p x ≡ true → Hit x) (missed : (x : A) → p x ≡ false → Hit x → ⊥)
    (after : (x : A) → After x (f x)) where
  pub update_where-RowsUpdated : (xs : List A) → RowsUpdated Hit After xs (update_where p f xs)
  update_where-RowsUpdated [] = no_row
  update_where-RowsUpdated (x ∷ xs) = by (p x) refl (update_where-RowsUpdated xs)
    where
      by :
          (b : Bool)
          → p x ≡ b
          → RowsUpdated Hit After xs (update_where p f xs)
          → RowsUpdated Hit After (x ∷ xs) ((if b then f x else x) ∷ update_where p f xs)
      by true h rest = changed (hit x h) (after x) rest
      by false h rest = kept (missed x h) rest
