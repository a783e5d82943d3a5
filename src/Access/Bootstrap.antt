-- ===== src/Access/Bootstrap.antt =====
-- internal/access: the registry of permissions, and what Bootstrap does to the tables.
use new_trs.Common.{
  ℕ, suc, ◌≡◌, refl, Bool, true, false, not, ◌&&◌, ◌||◌, leb, ◌==◌, if◌then◌else◌, List, [], ◌∷◌,
  Option, none, some, Result, ok, err, refuse, ◌>>◌, ◌>>=◌, foreign,
}
use new_trs.Common.Text.{Text, codes, eq_text, contains, is_empty, is_digit, trim_space, split}
use new_trs.Audit.{Metadata, Event, append, resource_user}
use new_trs.Access.Tables.{
  User, Permission, Grant, Tables, find_username, update_user, is_granted, count_managers,
}
use new_trs.Access.Users.{normalize_username, validate_username}
use new_trs.Access.Management.{PermissionDefinition, lock_manage_permission}

abbrev is_lower : ℕ → Bool
is_lower c = leb b'a' c && leb c b'z'

abbrev is_key_byte : ℕ → Bool
is_key_byte c = is_lower c || is_digit c || (c == b'_')

-- Whether the text goes on like the parts of a key, at the start of a part or in one, with or without a
-- dot before.
key_from : Bool → Bool → Text → Bool
key_from start dotted [] = not start && dotted
key_from start dotted (c ∷ s) =
    let ends_part = not start && (c == b'.') in
    let next = key_from ends_part (dotted || ends_part) s in
    (if start then is_lower c else (ends_part || is_key_byte c)) && next

-- permissionKeyPattern.
unfoldable pub valid_key : Text → Bool
unfolding key_from
valid_key key = key_from true false key

key_examples :
    (valid_key (codes "loan.inquiry") ≡ true)
    × (valid_key (codes "loan") ≡ false)
    × (valid_key (codes "loan.") ≡ false)
    × (valid_key (codes "a.b_2.c") ≡ true)
unfolding valid_key is_digit
key_examples = (refl, refl, refl, refl)

unfoldable pub check_registry : List Text → List PermissionDefinition → Result (Unit {0})
check_registry seen [] = ok tt
check_registry seen (d ∷ rest) = do
  refuse (not (valid_key d.key)) foreign
  refuse (contains d.key seen) foreign
  refuse (is_empty (trim_space d.name)) foreign
  refuse (is_empty (trim_space d.group)) foreign
  check_registry (d.key ∷ seen) rest

unfoldable pub validate_registry : List PermissionDefinition → Result (Unit {0})
validate_registry definitions = check_registry [] definitions

unfoldable pub bootstrap_names : List Text → List Text → Result (List Text)
bootstrap_names seen [] = ok []
bootstrap_names seen (raw ∷ rest) =
    let username = normalize_username raw in
    let skipped = is_empty username || contains username seen in
    let later = bootstrap_names (if skipped then seen else username ∷ seen) rest in
    (do
      if is_empty username then ok tt else validate_username username
      names ← later
      ok (if skipped then names else username ∷ names))

unfoldable pub some_name : List Text → Result (List Text)
some_name [] = err foreign
some_name (name ∷ rest) = ok (name ∷ rest)

unfoldable pub bootstrap_usernames : Text → Result (List Text)
bootstrap_usernames value = bootstrap_names [] (split b',' value) >>= some_name

-- INSERT ... ON DUPLICATE KEY UPDATE; `updated_at` moves only where a column changes.
unfoldable pub changed_permission : PermissionDefinition → ℕ → Permission → Permission
changed_permission d now p = record p {
  updated_at =
      if eq_text p.name d.name && eq_text p.group d.group && eq_text p.description d.description
      then p.updated_at
      else now;
  name = d.name;
  group = d.group;
  description = d.description;
}

unfoldable pub sync_rows : PermissionDefinition → ℕ → ℕ → List Permission → List Permission
sync_rows d now id [] =
    record {
      id = id;
      key = d.key;
      name = d.name;
      group = d.group;
      description = d.description;
      created_at = now;
      updated_at = now;
    }
    ∷ []
sync_rows d now id (p ∷ rest) =
    if eq_text p.key d.key then changed_permission d now p ∷ rest else p ∷ sync_rows d now id rest

unfoldable pub sync_permission : PermissionDefinition → ℕ → Tables → Tables
sync_permission d now t = record t {
  permissions = sync_rows d now t.next_id t.permissions;
  next_id = suc t.next_id;
}

unfoldable pub sync_all : List PermissionDefinition → ℕ → Tables → Tables
sync_all [] now t = t
sync_all (d ∷ rest) now t = sync_all rest now (sync_permission d now t)

-- The id of the user with a name, activated or created.
unfoldable pub ensure_user : Text → ℕ → Option User → Tables → ℕ × Tables
ensure_user username now (some u) t = (
  u.id,
  record t {
    users = update_user u.id (λ v. record v { is_active = true; updated_at = now }) t.users;
  },
)
ensure_user username now none t = (
  t.next_id,
  record t {
    users =
        record {
          id = t.next_id;
          username = username;
          name = username;
          is_active = true;
          last_login_at = none;
          created_at = now;
          updated_at = now;
        }
        ∷ t.users;
    next_id = suc t.next_id;
  },
)

-- INSERT IGNORE.
unfoldable pub grant_once : ℕ → ℕ → List Grant → List Grant
grant_once user permission grants =
    if is_granted user permission grants
    then grants
    else record { user_id = user; permission_id = permission } ∷ grants

unfoldable pub bootstrap_event : ℕ → ℕ → Event
bootstrap_event id now = record {
  attribution = record {
    actor = none;
    effective = none;
    system_actor = codes "system:access-bootstrap";
  };
  action = codes "access.bootstrap";
  resource = resource_user;
  resource_id = id;
  metadata = none;
  created_at = now;
}

unfoldable pub ensure_manager : (Metadata → Text) → ℕ → Text → ℕ → Tables → Result Tables
ensure_manager encode permission username now t =
    let (id, ensured) = ensure_user username now (find_username username t.users) t in
    append encode (bootstrap_event id now) ensured.audit_rows >>= λ rows.
    ok (record ensured { grants = grant_once id permission ensured.grants; audit_rows = rows })

unfoldable pub ensure_managers : (Metadata → Text) → ℕ → List Text → ℕ → Tables → Result Tables
ensure_managers encode permission [] now t = ok t
ensure_managers encode permission (name ∷ rest) now t =
    ensure_manager encode permission name now t >>= ensure_managers encode permission rest now

unfoldable pub bootstrap :
    (Metadata → Text) → List PermissionDefinition → Text → ℕ → Tables → Result Tables
bootstrap encode definitions configured now t = do
  validate_registry definitions
  let synced = sync_all definitions now t
  manage ← lock_manage_permission synced
  (if count_managers manage.id synced.users synced.grants == 0
      then (bootstrap_usernames configured >>= λ names.
          ensure_managers encode manage.id names now synced)
      else ok synced)
