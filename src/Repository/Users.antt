-- ===== src/Repository/Users.antt =====
-- internal/repository/user_repository.go and vendor_repository.go, with internal/vendor/service.go,
-- which only calls the latter.
use x_ui_site.Prelude.{
  ℕ, ◌+◌, String, str_eq, Bool, false, not, ◌&&◌, List, [], ◌∷◌, ◌++◌, find, any, select, ◌==◌,
}
use x_ui_site.Db.Rows.{Tables, UserRow, VendorRow}
use x_ui_site.Db.Errors.{Result, ok, foreign_key_violation}
use x_ui_site.Db.Session.{M, Sql, exec, look}
use x_ui_site.Repository.Statements.{scan_row, checked, unless_taken, has_user}

abbrev pub user_row : ℕ → String → String → String → UserRow
user_row id email hash role = record {
  id = id;
  email = email;
  password_hash = hash;
  role = role;
  deleted = false;
}

-- INSERT INTO users(email,password_hash,role) … RETURNING id, with email UNIQUE
unfoldable pub insert_user : String → String → String → Sql ℕ
insert_user email hash role s t = (
  record s { users = s.users + 1 },
  unless_taken (any (λ r. str_eq r.email email) t.users)
      (ok (s.users, record t { users = t.users ++ user_row s.users email hash role ∷ [] })),
)

-- UserRepository.Create
unfoldable pub create_user : String → String → String → M ℕ
create_user email hash role = exec (insert_user email hash role)

abbrev pub has_email : String → UserRow → Bool
has_email email r = str_eq r.email email && not r.deleted

abbrev pub user_by_email : String → Tables → Result UserRow
user_by_email email t = scan_row (find (has_email email) t.users)

-- UserRepository.ByEmail
unfoldable pub by_email : String → M UserRow
by_email email = look (user_by_email email)

-- INSERT INTO vendors(owner_user_id,name,slug,status), with slug UNIQUE
unfoldable pub insert_vendor : ℕ → String → String → Sql (Unit {0})
insert_vendor owner_id name slug s t =
    let row : VendorRow = record {
      id = s.vendors;
      owner_user_id = owner_id;
      name = name;
      slug = slug;
      status = "active";
      deleted = false;
    } in
    (
      record s { vendors = s.vendors + 1 },
      unless_taken (any (λ r. str_eq r.slug slug) t.vendors) (
          checked (has_user owner_id t) foreign_key_violation
            (tt, record t { vendors = t.vendors ++ row ∷ [] })),
    )

-- VendorRepository.Create
unfoldable pub create_vendor : ℕ → String → String → M (Unit {0})
create_vendor owner_id name slug = exec (insert_vendor owner_id name slug)

-- VendorRepository.ListByOwner
unfoldable pub list_by_owner : ℕ → M (List VendorRow)
list_by_owner owner_id =
    look λ t. ok (select (λ r. r.owner_user_id == owner_id && not r.deleted) t.vendors)
