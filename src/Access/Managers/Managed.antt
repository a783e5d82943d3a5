-- ===== src/Access/Managers/Managed.antt =====
-- Every transaction of the running application leaves somebody who can manage access.
use new_trs.Common.{
  ℕ, ◌≡◌, subst, true, not, ◌&&◌, ◌==◌, List, [], length, ok, foreign, >>=-eq-ok, refuse-eq-ok,
  ok-injective, unknown_permission, last_access_manager, user_not_found,
}
use new_trs.Common.Text.{Text}
use new_trs.Audit.{Metadata, Identity, append}
use new_trs.Access.Tables.{Tables, find_user, find_permission, count_managers, permission_manage}
use new_trs.Access.Users.{user_of}
use new_trs.Access.Sessions.{revoke, delete_expired}
use new_trs.Access.Management.{
  permission_changes, permissions_event, is_nil, assigned_keys, canonical_keys, select_keys,
  lock_manage_permission, permission_of, set_active, resolved_permissions, without_grants,
  grant_all, replace_permissions, submit_permissions,
}
use new_trs.Access.Login.{resolve_session, logout}
use new_trs.Access.Managers.{
  has_manager, AccessStep, activated, permitted, booted, signed_in, resolved, signed_out, swept,
  IsRunning, started, went_on,
}
use new_trs.Access.Managers.Booted.{bootstrap-has_manager, permission_of-eq-ok}
use new_trs.Access.Managers.Kept.{IsKept, sessions_IsKept}
use new_trs.Access.Managers.SignedIn.{login-IsKept, resolve_found-IsKept}
use new_trs.Access.Managers.Changed.{
  IsManaged, kept-IsManaged, set_user_active-IsManaged, granted_manager, user_of-eq-ok,
}

replace_permissions-IsManaged :
    (encode : Metadata → Text) (requester : Identity) (id : ℕ) (canonical selected : List Text)
    (now : ℕ) (s t : Tables)
    → replace_permissions encode requester id canonical selected now s ≡ ok t
    → IsManaged s
    → IsManaged t
unfolding replace_permissions lock_manage_permission
replace_permissions-IsManaged encode requester id canonical selected now s t h m =
    let (p, locked, h₁) =
      >>=-eq-ok (permission_of (find_permission permission_manage s.permissions)) _ h in
    let (target, there, h₂) = >>=-eq-ok (user_of (find_user id s.users)) _ h₁ in
    let (some_keys, h₃) = refuse-eq-ok (is_nil canonical) foreign _ h₂ in
    let known = resolved_permissions canonical s.permissions in
    let (all_known, h₄) =
      refuse-eq-ok (not (length known == length canonical)) unknown_permission _ h₃ in
    let (granted, made, h₅) =
      >>=-eq-ok (grant_all id selected known (without_grants id known s.grants)) _ h₄ in
    let (safe, h₆) =
      refuse-eq-ok (target.is_active && (count_managers p.id s.users granted == 0))
        last_access_manager _ h₅ in
    let (rows, logged, h₇) =
      >>=-eq-ok
        (append encode
          (permissions_event requester id
            (permission_changes (assigned_keys id known s.grants) selected) now)
          s.audit_rows)
        _ h₆ in
    let manager : has_manager (record s { grants = granted; audit_rows = rows }) ≡ true =
      granted_manager id p target selected known granted s rows m (permission_of-eq-ok _ p locked)
        (user_of-eq-ok _ target there) made safe in
    subst IsManaged (ok-injective _ t h₇) (manager, m.1)

logout-IsKept : (hash : Text) (s : Tables) → IsKept s (logout hash s)
unfolding logout revoke
logout-IsKept hash s = sessions_IsKept s _

step-IsManaged : (s t : Tables) → AccessStep s t → IsManaged s → IsManaged t
unfolding set_active submit_permissions resolve_session delete_expired
step-IsManaged _ _ (activated encode requester id active now s t h) m =
    let (known, h₁) = refuse-eq-ok (id == 0) user_not_found _ h in
    set_user_active-IsManaged encode requester id active now s t h₁ m
step-IsManaged _ _ (permitted encode definitions requester id submitted now s t h) m =
    let (selected, checked, h₁) =
      >>=-eq-ok (select_keys (canonical_keys definitions) [] submitted) _ h in
    replace_permissions-IsManaged encode requester id (canonical_keys definitions) selected now s t
      h₁ m
step-IsManaged _ _ (booted encode definitions configured now s t h) m =
    let after = bootstrap-has_manager encode definitions configured now s t h in
    (after.0, after.1 m.1)
step-IsManaged _ _ (signed_in a i now w) m = kept-IsManaged w.tables _ (login-IsKept a i now w) m
step-IsManaged _ _ (resolved hash now s) m =
    kept-IsManaged s _ (resolve_found-IsKept hash now s _) m
step-IsManaged _ _ (signed_out hash s) m = kept-IsManaged s _ (logout-IsKept hash s) m
step-IsManaged _ _ (swept now s) m = kept-IsManaged s _ (sessions_IsKept s _) m

running-IsManaged : (t : Tables) → IsRunning t → IsManaged t
running-IsManaged _ (started encode definitions configured now s t d h) =
    let after = bootstrap-has_manager encode definitions configured now s t h in
    (after.0, after.1 d)
running-IsManaged _ (went_on s t before step) = step-IsManaged s t step (running-IsManaged s before)

-- In all tables that the running application leads to, from its first start on tables with users
-- in order, and with any logins, resolved sessions, logouts, changes of users and of permissions,
-- restarts and sweeps, an active user has the permission to manage access.
pub running-has_manager : (t : Tables) → IsRunning t → has_manager t ≡ true
running-has_manager t running = (running-IsManaged t running).0
