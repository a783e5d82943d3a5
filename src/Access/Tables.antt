-- ===== src/Access/Tables.antt =====
-- The tables of users, permissions, grants, sessions and audit rows, with the migrations' keys: ids and
-- user names are unique, a grant is there once, a token hash is unique. A statement runs alone, a
-- transaction that fails leaves the tables as they were, and an error of the driver is left out.
-- Times are microseconds from the zero time. `next_id` is above all ids, of users and of sessions.
use new_trs.Common.{
  ℕ, suc, Bool, false, ◌&&◌, ◌||◌, ◌==◌, if◌then◌else◌, List, [], ◌∷◌, Option, none, some,
}
use new_trs.Common.Text.{Text, eq_text, codes}
use new_trs.Audit.{AuditRow}

pub record User : Type 0 where
  pub id : ℕ
  pub username : Text
  pub name : Text
  pub is_active : Bool
  pub last_login_at : Option ℕ
  pub created_at : ℕ
  pub updated_at : ℕ

pub record Permission : Type 0 where
  pub id : ℕ
  pub key : Text
  pub name : Text
  pub group : Text
  pub description : Text
  pub created_at : ℕ
  pub updated_at : ℕ

pub record Grant : Type 0 where
  pub user_id : ℕ
  pub permission_id : ℕ

pub record Session : Type 0 where
  pub id : ℕ
  pub user_id : ℕ
  pub token_hash : Text
  pub remember_me : Bool
  pub expires_at : ℕ
  pub last_seen_at : ℕ
  pub created_at : ℕ
  pub updated_at : ℕ

pub record Tables : Type 0 where
  pub users : List User
  pub permissions : List Permission
  pub grants : List Grant
  pub sessions : List Session
  pub audit_rows : List AuditRow
  pub next_id : ℕ

abbrev pub permission_loan_inquiry : Text
permission_loan_inquiry = codes "loan.inquiry"

abbrev pub permission_manage : Text
permission_manage = codes "access.manage"

unfoldable pub find_user : ℕ → List User → Option User
find_user id [] = none
find_user id (u ∷ rest) = if u.id == id then some u else find_user id rest

unfoldable pub find_username : Text → List User → Option User
find_username name [] = none
find_username name (u ∷ rest) = if eq_text u.username name then some u else find_username name rest

-- UPDATE users ... WHERE id = ?.
unfoldable pub update_user : ℕ → (User → User) → List User → List User
update_user id change [] = []
update_user id change (u ∷ rest) =
    if u.id == id then change u ∷ rest else u ∷ update_user id change rest

unfoldable pub find_permission : Text → List Permission → Option Permission
find_permission key [] = none
find_permission key (p ∷ rest) = if eq_text p.key key then some p else find_permission key rest

unfoldable pub is_granted : ℕ → ℕ → List Grant → Bool
is_granted user permission [] = false
is_granted user permission (g ∷ rest) =
    ((g.user_id == user) && (g.permission_id == permission)) || is_granted user permission rest

-- The active users with a permission, which the queries count.
unfoldable pub count_managers : ℕ → List User → List Grant → ℕ
count_managers permission [] grants = 0
count_managers permission (u ∷ rest) grants =
    let later = count_managers permission rest grants in
    if u.is_active && is_granted u.id permission grants then suc later else later
