-- ===== src/Tests/Accounts.antt =====
-- The memory store with two accounts.
use x_ui_site.Prelude.{[], ◌∷◌, List}
use x_ui_site.Store.{Call, creates_user, creates_vendor, serve, new_memory}
use x_ui_site.Store.Accounts.{IsSound, new_memory-IsSound}

abbrev accounts : List Call
accounts =
    creates_user "a@b" "h" "user" ∷ creates_user "a@b" "g" "user" ∷ creates_vendor 1 "v" "shop" ∷ []

new_memory-IsSound_example : IsSound (serve accounts new_memory)
new_memory-IsSound_example = new_memory-IsSound accounts
