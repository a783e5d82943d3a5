-- ===== src/Examples/Access.antt =====
-- An application with two managers, one of whom is deactivated.
use new_trs.Common.{
  ◌≡◌, refl, true, false, List, [], ◌∷◌, none, Result, ok, err, replicate, ◌==◌, arith,
}
use new_trs.Common.Text.{
  Text, codes, eq_text, contains, is_empty, is_digit, trim_space, split, has_prefix, to_lower,
}
use new_trs.Common.Utf8.{is_start, following, valid_string, rune_count}
use new_trs.Login.Lockout.{cleanup, is_due, lookup, blocked}
use new_trs.Audit.{
  Metadata, Identity, known_action, invalid_identity, encode_metadata, row_of, invalid_system_actor,
  append,
}
use new_trs.Access.Tables.{
  User, Session, Tables, find_user, find_username, update_user, find_permission, is_granted,
  count_managers,
}
use new_trs.Access.Users.{
  find_or_create, find_by_username, user_of, provide_user, found_user, normalize_username,
  invalid_name, validate_username,
}
use new_trs.Access.Sessions.{
  create_session, delete_expired, find_hash, valid_session, find_valid_session,
}
use new_trs.Access.Management.{
  replace_permissions, resolved_permissions, assigned_keys, without_grants, has_id, grant_all,
  permissions_event, PermissionDefinition, lock_manage_permission, permission_of, with_status,
  set_user_active, set_active, status_event, attribution,
}
use new_trs.Access.Bootstrap.{
  valid_key, check_registry, validate_registry, bootstrap_names, some_name, bootstrap_usernames,
  sync_rows, sync_permission, sync_all, ensure_user, grant_once, bootstrap_event, ensure_manager,
  ensure_managers, bootstrap,
}
use new_trs.Access.Login.{
  AuthService, LoginInput, LoginResult, Principal, World, principal_of, resolve_session,
  resolve_found, resolve_user, touched, bad_input, throttle_key, judged, accepted, opened_for,
  open_session, or_without, start_session, session_params, login,
}
use new_trs.Access.Managers.{IsDescending, has_manager, started, went_on, swept}
use new_trs.Access.Managers.Managed.{running-has_manager}
use new_trs.Access.Resolved.{Origin, resolve_session-Origin, set_active-resolve_session}
use new_trs.Access.Entries.{close_expired, BookStep, IsOnce, SessionStep, book}
use new_trs.Access.Book.{SessionStep-BookStep}
use new_trs.Access.Granted.{IsReplaced, replace_permissions-IsReplaced}
use new_trs.Access.Tokens.{login-resolve_session}

abbrev encode : Metadata → Text
encode m = codes "{}"

abbrev registry : List PermissionDefinition
registry =
    record {
      key = codes "access.manage";
      name = codes "Manage";
      group = codes "Access";
      description = [];
    }
    ∷ []

abbrev no_tables : Tables
no_tables = record {
  users = [];
  permissions = [];
  grants = [];
  sessions = [];
  audit_rows = [];
  next_id = 1;
}

abbrev tables_of : Result Tables → Tables
tables_of (err e) = no_tables
tables_of (ok t) = t

abbrev booted : Result Tables
booted = bootstrap encode registry (codes "ana,ben") 5 no_tables

booted_ok : booted ≡ ok (tables_of booted)
unfolding bootstrap validate_registry check_registry valid_key is_digit contains eq_text is_empty
    trim_space sync_all sync_permission sync_rows lock_manage_permission permission_of
    find_permission count_managers bootstrap_usernames split bootstrap_names some_name
    normalize_username validate_username invalid_name valid_string rune_count is_start following
    ensure_managers ensure_manager ensure_user find_username grant_once is_granted bootstrap_event
    append invalid_identity invalid_system_actor known_action encode_metadata row_of has_prefix
booted_ok = refl

running-has_manager_example : has_manager ((delete_expired 9 (tables_of booted)).0) ≡ true
unfolding IsDescending
running-has_manager_example = running-has_manager ((delete_expired 9 (tables_of booted)).0) (
    went_on (tables_of booted) ((delete_expired 9 (tables_of booted)).0)
      (started encode registry (codes "ana,ben") 5 no_tables (tables_of booted) tt booted_ok)
      (swept 9 (tables_of booted)))

abbrev ana : User
ana = record {
  id = 2;
  username = codes "ana";
  name = codes "Ana";
  is_active = true;
  last_login_at = none;
  created_at = 1;
  updated_at = 1;
}

abbrev ben : User
ben = record ana { id = 1; username = codes "ben"; name = codes "Ben" }

abbrev key : Text
key = replicate 32 7

abbrev ana_session : Session
ana_session = record {
  id = 5;
  user_id = 2;
  token_hash = key;
  remember_me = false;
  expires_at = 100;
  last_seen_at = 3;
  created_at = 3;
  updated_at = 3;
}

abbrev staffed : Tables
staffed = record {
  users = ana ∷ ben ∷ [];
  permissions =
      record {
        id = 1;
        key = codes "access.manage";
        name = [];
        group = [];
        description = [];
        created_at = 1;
        updated_at = 1;
      }
      ∷ [];
  grants =
      record { user_id = 2; permission_id = 1 } ∷ record { user_id = 1; permission_id = 1 } ∷ [];
  sessions = ana_session ∷ [];
  audit_rows = [];
  next_id = 6;
}

abbrev by_ana : Identity
by_ana = record { user_id = 2; username = codes "ana" }

abbrev without_ben : Tables
without_ben = tables_of (set_active encode by_ana 1 false 9 staffed)

abbrev ana_principal : Tables → Principal
ana_principal t = principal_of ana_session ana t

resolve_session-Origin_example : Origin key 10 staffed (ana_principal staffed)
unfolding resolve_session resolve_found resolve_user touched find_valid_session valid_session
    find_hash eq_text find_user
resolve_session-Origin_example = resolve_session-Origin key 10 staffed (ana_principal staffed) refl

set_active-resolve_session_example : ((ana_principal without_ben).user_id == 1) ≡ false
unfolding set_active set_user_active lock_manage_permission permission_of find_permission user_of
    find_user with_status update_user count_managers is_granted append invalid_identity
    invalid_system_actor known_action encode_metadata row_of has_prefix status_event attribution
    contains eq_text is_empty trim_space resolve_session resolve_found resolve_user touched
    find_valid_session valid_session find_hash principal_of
set_active-resolve_session_example =
    set_active-resolve_session encode by_ana 1 9 staffed without_ben key 10
      (ana_principal without_ben) refl refl

abbrev service : AuthService
service = record {
  authenticate = λ username password location role. ok tt;
  generate_token = ok (codes "token");
  hash_token = λ token. replicate 32 9;
  lifetime = 50;
  remember_lifetime = 500;
  lockout = record { window = 100; max_failures = 1; lockout = 50 };
}

abbrev input : LoginInput
input = record {
  username = codes " ben ";
  password = codes "secret";
  location_id = codes "1";
  role_id = codes "2";
  remember_me = false;
}

abbrev world : World
world = record { failures = record { entries = []; last_cleanup = none }; tables = staffed }

abbrev signed_in_as : LoginResult
signed_in_as = record {
  raw_token = codes "token";
  session = record {
    id = 6;
    user_id = 1;
    token_hash = replicate 32 9;
    remember_me = false;
    expires_at = 70;
    last_seen_at = 20;
    created_at = 20;
    updated_at = 20;
  };
  user = ben;
  provisioned = false;
}

login-resolve_session_example :
    (resolve_session (replicate 32 9) 60 (login (λ t. t) service input 20 world).0.tables).1
    ≡ ok (
        principal_of signed_in_as.session signed_in_as.user
          (login (λ t. t) service input 20 world).0.tables)
unfolding IsDescending login bad_input trim_space is_empty throttle_key normalize_username to_lower
    blocked cleanup is_due lookup judged accepted validate_username invalid_name valid_string
    rune_count is_start following find_or_create find_by_username user_of find_username eq_text
    provide_user found_user opened_for open_session or_without start_session create_session
    session_params find_hash
login-resolve_session_example =
    login-resolve_session service input 20 world signed_in_as 60 (omega arith, (omega arith, tt))
      refl refl (omega arith)

SessionStep-BookStep_example :
    IsOnce ((delete_expired 200 staffed).0).sessions
    × BookStep
        (close_expired 200)
        (book staffed.sessions)
        (book ((delete_expired 200 staffed).0).sessions)
unfolding IsOnce find_hash
SessionStep-BookStep_example =
    SessionStep-BookStep (close_expired 200) staffed ((delete_expired 200 staffed).0)
      (SessionStep.swept 200 staffed) (refl, tt)

abbrev without_ben_managing : Tables
without_ben_managing =
    tables_of (replace_permissions encode by_ana 1 (codes "access.manage" ∷ []) [] 9 staffed)

replace_permissions-IsReplaced_example :
    IsReplaced 1
      (resolved_permissions (codes "access.manage" ∷ []) staffed.permissions)
      []
      staffed.grants
      without_ben_managing.grants
unfolding replace_permissions lock_manage_permission permission_of find_permission user_of find_user
    resolved_permissions contains eq_text assigned_keys without_grants has_id grant_all
    count_managers is_granted append invalid_identity invalid_system_actor known_action
    encode_metadata row_of has_prefix permissions_event attribution is_empty trim_space
replace_permissions-IsReplaced_example =
    replace_permissions-IsReplaced encode by_ana 1 (codes "access.manage" ∷ []) [] 9 staffed
      without_ben_managing refl
