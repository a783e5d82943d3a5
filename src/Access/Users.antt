-- ===== src/Access/Users.antt =====
-- internal/user: user names, and the repository of users.
use new_trs.Common.{
  ℕ, suc, Bool, true, false, not, ◌||◌, ltb, if◌then◌else◌, ◌∷◌, Option, none, some, Result, ok,
  err, refuse, ◌>>◌, user_not_found, username_taken, foreign,
}
use new_trs.Common.Text.{Text, trim_space, is_empty}
use new_trs.Common.Errors.{error_code, is_error}
use new_trs.Common.Utf8.{valid_string, rune_count}
use new_trs.Access.Tables.{User, Tables, find_user, find_username, update_user}

abbrev pub max_username_length : ℕ
max_username_length = 191

abbrev pub max_name_length : ℕ
max_name_length = 191

unfoldable pub normalize_username : Text → Text
normalize_username username = trim_space username

-- The checks of ValidateUsername and of ValidateName are the same, with the same bound.
unfoldable pub invalid_name : ℕ → Text → Bool
invalid_name bound name = is_empty name || not (valid_string name) || ltb bound (rune_count name)

unfoldable pub validate_username : Text → Result (Unit {0})
validate_username username =
    refuse (invalid_name max_username_length (normalize_username username)) foreign >> ok tt

unfoldable pub validate_name : Text → Result (Unit {0})
validate_name name = refuse (invalid_name max_name_length (trim_space name)) foreign >> ok tt

pub record CreateParams : Type 0 where
  pub username : Text
  pub name : Text
  pub is_active : Bool

abbrev pub is_found {ℓ} : {A : Type ℓ} → Option A → Bool
is_found none = false
is_found (some a) = true

abbrev pub new_user : CreateParams → ℕ → ℕ → User
new_user params now id = record {
  id = id;
  username = normalize_username params.username;
  name = trim_space params.name;
  is_active = params.is_active;
  last_login_at = none;
  created_at = now;
  updated_at = now;
}

unfoldable pub create_user : CreateParams → ℕ → Tables → Result (User × Tables)
create_user params now t = do
  validate_username (normalize_username params.username)
  validate_name (trim_space params.name)
  refuse (is_found (find_username (normalize_username params.username) t.users)) username_taken
  let created = new_user params now t.next_id
  ok (created, record t { users = created ∷ t.users; next_id = suc t.next_id })

unfoldable pub user_of : Option User → Result User
user_of none = err user_not_found
user_of (some u) = ok u

unfoldable pub find_by_id : ℕ → Tables → Result User
find_by_id id t = user_of (find_user id t.users)

unfoldable pub find_by_username : Text → Tables → Result User
find_by_username username t = do
  validate_username (normalize_username username)
  user_of (find_username (normalize_username username) t.users)

-- The user, whether it was created, and the tables after.
pub record Provided : Type 0 where
  pub user : User
  pub provisioned : Bool
  pub tables : Tables

unfoldable pub found_user : Tables → Result User → Result Provided
found_user t (err e) = err e
found_user t (ok u) = ok (record { user = u; provisioned = false; tables = t })

-- After a failed creation the user is looked for again where the name was taken meanwhile.
unfoldable pub created_user : Text → Tables → Result (User × Tables) → Result Provided
created_user username t (ok (u, t')) = ok (record { user = u; provisioned = true; tables = t' })
created_user username t (err e) =
    if is_error e (error_code username_taken)
    then found_user t (find_by_username username t)
    else err e

unfoldable pub provide_user : Text → ℕ → Tables → Tables → Result User → Result Provided
provide_user username now before t (ok u) = found_user before (ok u)
provide_user username now before t (err e) =
    if is_error e (error_code user_not_found)
    then created_user username t
        (create_user (record { username = username; name = username; is_active = true }) now t)
    else err e

-- `meanwhile` is what others do to the tables between looking for the user and creating it.
unfoldable pub find_or_create : (Tables → Tables) → Text → ℕ → Tables → Result Provided
find_or_create meanwhile username now t = do
  validate_username (normalize_username username)
  provide_user (normalize_username username) now t (meanwhile t)
      (find_by_username (normalize_username username) t)

unfoldable pub update_last_login_at : ℕ → ℕ → Tables → Tables
update_last_login_at id now t = record t {
  users = update_user id (λ u. record u { last_login_at = some now; updated_at = now }) t.users;
}
