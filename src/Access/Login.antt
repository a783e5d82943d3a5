-- ===== src/Access/Login.antt =====
-- internal/browserauth/service.go: signing in, resolving a session to a principal, signing out.
-- Fincloud's answers, tokens and their hashes are the fields of a record. Labels only asks Fincloud.
use new_trs.Common.{
  ℕ, ◌+◌, Bool, not, ◌||◌, ltb, leb, if◌then◌else◌, List, [], ◌∷◌, ◌++◌, map, Option, none, some,
  length, Result, ok, err, refuse, ◌>>◌, ◌>>=◌, invalid_credentials, inactive_user, unauthenticated,
  login_throttled, session_not_found, fincloud_invalid_credentials,
}
use new_trs.Common.Text.{Text, is_empty, trim_space, to_lower, contains}
use new_trs.Common.Errors.{error_code, is_error}
use new_trs.Login.Lockout.{LockoutConfig, LoginFailures, blocked, fail, clear}
use new_trs.Access.Tables.{User, Session, Tables, find_user, permission_loan_inquiry}
use new_trs.Access.Users.{
  Provided, normalize_username, validate_username, find_or_create, update_last_login_at,
}
use new_trs.Access.Sessions.{
  CreateSessionParams, create_session, find_valid_session, update_last_seen_at, revoke,
}
use new_trs.Access.Management.{assigned_keys}

pub record AuthService : Type 0 where
  pub authenticate : Text → Text → Text → Text → Result (Unit {0})
  pub generate_token : Result Text
  pub hash_token : Text → Text
  pub lifetime : ℕ
  pub remember_lifetime : ℕ
  pub lockout : LockoutConfig

pub record LoginInput : Type 0 where
  pub username : Text
  pub password : Text
  pub location_id : Text
  pub role_id : Text
  pub remember_me : Bool

pub record LoginResult : Type 0 where
  pub raw_token : Text
  pub session : Session
  pub user : User
  pub provisioned : Bool

pub record Principal : Type 0 where
  pub user_id : ℕ
  pub username : Text
  pub name : Text
  pub permissions : List Text
  pub session_id : ℕ
  pub remember_me : Bool

-- PermissionSet.Has.
unfoldable pub can : Principal → Text → Bool
can p key = contains key p.permissions

-- What a login works on: the failures in memory and the tables.
pub record World : Type 0 where
  pub failures : LoginFailures
  pub tables : Tables

abbrev pub max_password_bytes : ℕ
max_password_bytes = 1024

-- Five minutes.
abbrev pub last_seen_touch_interval : ℕ
last_seen_touch_interval = 300000000

unfoldable pub bad_input : LoginInput → Bool
bad_input i =
    is_empty (trim_space i.username)
    || is_empty i.password
    || ltb max_password_bytes (length i.password)
    || is_empty (trim_space i.location_id)
    || is_empty (trim_space i.role_id)

-- The key of the failures, without regard to case.
unfoldable pub throttle_key : LoginInput → Text
throttle_key i = map to_lower (normalize_username (trim_space i.username))

unfoldable pub session_params : AuthService → LoginInput → User → Text → ℕ → CreateSessionParams
session_params a i u token now = record {
  user_id = u.id;
  token_hash = a.hash_token token;
  remember_me = i.remember_me;
  expires_at = now + (if i.remember_me then a.remember_lifetime else a.lifetime);
  last_seen_at = now;
}

unfoldable pub start_session :
    AuthService → LoginInput → ℕ → Provided → Result (LoginResult × Tables)
start_session a i now p = do
  refuse (not p.user.is_active) inactive_user
  token ← a.generate_token
  created ← create_session (session_params a i p.user token now) now p.tables
  ok (
    record { raw_token = token; session = created.0; user = p.user; provisioned = p.provisioned },
    update_last_login_at p.user.id now created.1,
  )

-- The tables with the user stay where the rest fails.
unfoldable pub or_without : Tables → Result (LoginResult × Tables) → Tables × Result LoginResult
or_without t (err e) = (t, err e)
or_without t (ok (result, t')) = (t', ok result)

-- From the user that was found or created.
unfoldable pub open_session : AuthService → LoginInput → ℕ → Provided → Tables × Result LoginResult
open_session a i now p = or_without p.tables (start_session a i now p)

unfoldable pub opened_for :
    AuthService → LoginInput → ℕ → Tables → Result Provided → Tables × Result LoginResult
opened_for a i now t (err e) = (t, err e)
opened_for a i now t (ok p) = open_session a i now p

-- After Fincloud accepted the name.
unfoldable pub accepted :
    (Tables → Tables) → AuthService → LoginInput → ℕ → Tables → Tables × Result LoginResult
accepted meanwhile a i now t =
    let canonical = normalize_username (trim_space i.username) in
    opened_for a i now t (validate_username canonical >> find_or_create meanwhile canonical now t)

unfoldable pub judged :
    (Tables → Tables)
    → AuthService
    → LoginInput
    → ℕ
    → World
    → Result (Unit {0})
    → World × Result LoginResult
judged meanwhile a i now w (err e) =
    if is_error e (error_code fincloud_invalid_credentials)
    then (
      record w { failures = fail a.lockout (throttle_key i) now w.failures },
      err invalid_credentials,
    )
    else (w, err e)
judged meanwhile a i now w (ok u) =
    let (t, result) = accepted meanwhile a i now w.tables in
    (record { failures = clear (throttle_key i) w.failures; tables = t }, result)

unfoldable pub login :
    (Tables → Tables) → AuthService → LoginInput → ℕ → World → World × Result LoginResult
login meanwhile a i now w =
    if bad_input i
    then (w, err invalid_credentials)
    else (let (failures, is_blocked) = blocked a.lockout (throttle_key i) now w.failures in
        let asked = record w { failures = failures } in
        if is_blocked
        then (asked, err login_throttled)
        else judged meanwhile a i now asked
            (a.authenticate (trim_space i.username) i.password i.location_id i.role_id))

unfoldable pub touched : Session → ℕ → Tables → Tables
touched s now t =
    if leb (s.last_seen_at + last_seen_touch_interval) now
    then update_last_seen_at s.id now t
    else t

unfoldable pub principal_of : Session → User → Tables → Principal
principal_of s u t = record {
  user_id = u.id;
  username = u.username;
  name = u.name;
  permissions = assigned_keys u.id t.permissions t.grants ++ permission_loan_inquiry ∷ [];
  session_id = s.id;
  remember_me = s.remember_me;
}

-- A session without an active user is revoked.
unfoldable pub resolve_user : Text → ℕ → Tables → Session → Option User → Tables × Result Principal
resolve_user hash now t s none = (revoke hash t, err unauthenticated)
resolve_user hash now t s (some u) =
    if u.is_active
    then (touched s now t, ok (principal_of s u t))
    else (revoke hash t, err unauthenticated)

unfoldable pub resolve_found : Text → ℕ → Tables → Result Session → Tables × Result Principal
resolve_found hash now t (err e) =
    (t, err (if is_error e (error_code session_not_found) then unauthenticated else e))
resolve_found hash now t (ok s) = resolve_user hash now t s (find_user s.user_id t.users)

unfoldable pub resolve_session : Text → ℕ → Tables → Tables × Result Principal
resolve_session hash now t = resolve_found hash now t (find_valid_session hash now t)

unfoldable pub logout : Text → Tables → Tables
logout hash t = revoke hash t
