-- ===== src/Access/Management.antt =====
-- internal/features/users: activating users and replacing their permissions, in repository.go and
-- service.go.
use new_trs.Common.{
  ℕ, Bool, true, false, not, ◌&&◌, ◌||◌, ◌==◌, if◌then◌else◌, List, [], ◌∷◌, map, Option, none,
  some, length, keep, Result, ok, err, refuse, ◌>>◌, ◌>>=◌, foreign, user_not_found,
  unknown_permission, baseline_permission, last_access_manager,
}
use new_trs.Common.Sort.{sort}
use new_trs.Common.Text.{Text, codes, eq_text, contains, text_before}
use new_trs.Audit.{
  Metadata, status_change, permissions_updated, Identity, Attribution, Event, append, resource_user,
}
use new_trs.Access.Tables.{
  Permission, Grant, Tables, find_user, update_user, find_permission, is_granted, count_managers,
  permission_manage, permission_loan_inquiry,
}
use new_trs.Access.Users.{user_of}

-- The definition of a permission in the registry.
pub record PermissionDefinition : Type 0 where
  pub key : Text
  pub name : Text
  pub group : Text
  pub description : Text

unfoldable pub attribution : Identity → Attribution
attribution requester = record {
  actor = some requester;
  effective = some requester;
  system_actor = [];
}

abbrev pub status : Bool → Text
status true = codes "active"
status false = codes "inactive"

unfoldable pub permission_of : Option Permission → Result Permission
permission_of none = err foreign
permission_of (some p) = ok p

unfoldable pub lock_manage_permission : Tables → Result Permission
lock_manage_permission t = permission_of (find_permission permission_manage t.permissions)

-- What the function does to the tables when it deactivates.
unfoldable pub with_status : ℕ → Bool → ℕ → Tables → Tables
with_status id active now t =
    let updated = record t {
      users = update_user id (λ u. record u { is_active = active; updated_at = now }) t.users;
    } in
    if active
    then updated
    else record updated { sessions = keep (λ s. not (s.user_id == id)) t.sessions }

unfoldable pub status_event : Identity → ℕ → Bool → Bool → ℕ → Event
status_event requester id before active now = record {
  attribution = attribution requester;
  action = if active then codes "user.activated" else codes "user.deactivated";
  resource = resource_user;
  resource_id = id;
  metadata = some (status_change (status before) (status active));
  created_at = now;
}

unfoldable pub set_user_active :
    (Metadata → Text) → Identity → ℕ → Bool → ℕ → Tables → Result Tables
set_user_active encode requester id active now t = do
  manage ← lock_manage_permission t
  target ← user_of (find_user id t.users)
  let updated = with_status id active now t
  refuse (not active && (count_managers manage.id updated.users updated.grants == 0))
      last_access_manager
  rows ← append encode (status_event requester id target.is_active active now) t.audit_rows
  ok (record updated { audit_rows = rows })

-- The rows whose key is among the keys.
unfoldable pub resolved_permissions : List Text → List Permission → List Permission
resolved_permissions keys permissions = keep (λ p. contains p.key keys) permissions

unfoldable pub has_id : ℕ → List Permission → Bool
has_id id [] = false
has_id id (p ∷ rest) = (p.id == id) || has_id id rest

unfoldable pub assigned_keys : ℕ → List Permission → List Grant → List Text
assigned_keys user permissions grants =
    map (λ p. p.key) (keep (λ p. is_granted user p.id grants) permissions)

unfoldable pub without_grants : ℕ → List Permission → List Grant → List Grant
without_grants user permissions grants =
    keep (λ g. not ((g.user_id == user) && has_id g.permission_id permissions)) grants

-- The primary key refuses a grant that is there, a missing key has no row to point to.
unfoldable pub grant_all : ℕ → List Text → List Permission → List Grant → Result (List Grant)
grant_all user [] permissions grants = ok grants
grant_all user (key ∷ rest) permissions grants = do
  p ← permission_of (find_permission key permissions)
  refuse (is_granted user p.id grants) foreign
  grant_all user rest permissions (record { user_id = user; permission_id = p.id } ∷ grants)

unfoldable pub distinct_keys : List Text → List Text
distinct_keys [] = []
distinct_keys (k ∷ rest) =
    let later = distinct_keys rest in if contains k rest then later else k ∷ later

-- The keys of the first list that are not in the second, sorted.
unfoldable pub keys_missing : List Text → List Text → List Text
keys_missing keys other = sort text_before (keep (λ k. not (contains k other)) (distinct_keys keys))

unfoldable pub permission_changes : List Text → List Text → List Text × List Text
permission_changes existing selected =
    (keys_missing selected existing, keys_missing existing selected)

unfoldable pub permissions_event : Identity → ℕ → List Text × List Text → ℕ → Event
permissions_event requester id changes now = record {
  attribution = attribution requester;
  action = codes "user.permissions_updated";
  resource = resource_user;
  resource_id = id;
  metadata = some (permissions_updated changes.0 changes.1);
  created_at = now;
}

abbrev pub is_nil : List Text → Bool
is_nil [] = true
is_nil (k ∷ rest) = false

-- sqlx.In refuses a list without entries.
unfoldable pub replace_permissions :
    (Metadata → Text) → Identity → ℕ → List Text → List Text → ℕ → Tables → Result Tables
replace_permissions encode requester id canonical selected now t = do
  manage ← lock_manage_permission t
  target ← user_of (find_user id t.users)
  refuse (is_nil canonical) foreign
  let known = resolved_permissions canonical t.permissions
  refuse (not (length known == length canonical)) unknown_permission
  let existing = assigned_keys id known t.grants
  granted ← grant_all id selected known (without_grants id known t.grants)
  refuse (target.is_active && (count_managers manage.id t.users granted == 0)) last_access_manager
  rows ←
      append encode (permissions_event requester id (permission_changes existing selected) now)
        t.audit_rows
  ok (record t { grants = granted; audit_rows = rows })

-- The service: the keys that may be assigned, and the submitted ones without repetition.
unfoldable pub canonical_keys : List PermissionDefinition → List Text
canonical_keys definitions =
    keep (λ k. not (eq_text k permission_loan_inquiry)) (map (λ d. d.key) definitions)

unfoldable pub select_keys : List Text → List Text → List Text → Result (List Text)
select_keys known seen [] = ok []
select_keys known seen (key ∷ rest) =
    let again = contains key seen in
    let later = select_keys known (if again then seen else key ∷ seen) rest in
    (do
      refuse (eq_text key permission_loan_inquiry) baseline_permission
      refuse (not (contains key known)) unknown_permission
      keys ← later
      ok (if again then keys else key ∷ keys))

unfoldable pub submit_permissions :
    (Metadata → Text)
    → List PermissionDefinition
    → Identity
    → ℕ
    → List Text
    → ℕ
    → Tables
    → Result Tables
submit_permissions encode definitions requester id submitted now t = do
  selected ← select_keys (canonical_keys definitions) [] submitted
  replace_permissions encode requester id (canonical_keys definitions) selected now t

unfoldable pub set_active : (Metadata → Text) → Identity → ℕ → Bool → ℕ → Tables → Result Tables
set_active encode requester id active now t = do
  refuse (id == 0) user_not_found
  set_user_active encode requester id active now t
