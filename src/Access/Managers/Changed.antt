-- ===== src/Access/Managers/Changed.antt =====
-- Changes of users and of permissions leave somebody who can manage access.
use new_trs.Common.{
  ℕ, ◌≤◌, ◌≡◌, refl, ap, ◌∙◌, subst, Bool, true, false, not, ◌&&◌, ◌||◌, ◌==◌, Bool-cases, List, [],
  ◌∷◌, Option, none, some, inl, inr, All, All-imp, ok, foreign, >>=-eq-ok, refuse-eq-ok,
  ok-injective, last_access_manager, arith,
}
use new_trs.Common.Text.{Text}
use new_trs.Audit.{Metadata, Identity, AuditRow, append}
use new_trs.Access.Tables.{
  User, Permission, Grant, Tables, find_user, find_permission, is_granted, count_managers,
  permission_manage,
}
use new_trs.Access.Users.{user_of}
use new_trs.Access.Management.{
  status_event, lock_manage_permission, permission_of, with_status, set_user_active, has_id,
  without_grants, grant_all,
}
use new_trs.Access.Managers.{
  managed, has_manager, IsDescending, IsDescending-update, count_managers-update,
  count_managers-grants,
}
use new_trs.Access.Managers.Booted.{permission_of-eq-ok}
use new_trs.Access.Managers.Kept.{IsKept, IsKept-has_manager}

-- Somebody can manage access, and the users are in order.
abbrev pub IsManaged : Tables → Type 0
IsManaged t = (has_manager t ≡ true) × IsDescending t.next_id t.users

pub kept-IsManaged : (s t : Tables) → IsKept s t → IsManaged s → IsManaged t
kept-IsManaged s t k h = (IsKept-has_manager s t k h.0, k.descending h.1)

counted-has_manager :
    (p : Permission) (t : Tables)
    → find_permission permission_manage t.permissions ≡ some p
    → (count_managers p.id t.users t.grants == 0) ≡ false
    → has_manager t ≡ true
unfolding has_manager managed
counted-has_manager p t found h = rw (found, h) refl

with_status-IsDescending :
    (id : ℕ) (active : Bool) (now : ℕ) (t : Tables)
    → IsDescending t.next_id t.users
    → IsDescending (with_status id active now t).next_id (with_status id active now t).users
unfolding with_status
with_status-IsDescending id true now t d = IsDescending-update t.next_id id _ t.users (λ u. refl) d
with_status-IsDescending id false now t d = IsDescending-update t.next_id id _ t.users (λ u. refl) d

with_status-permissions :
    (id : ℕ) (active : Bool) (now : ℕ) (t : Tables)
    → (with_status id active now t).permissions ≡ t.permissions
unfolding with_status
with_status-permissions id true now t = refl
with_status-permissions id false now t = refl

with_status-IsKept : (id now : ℕ) (t : Tables) → IsKept t (with_status id true now t)
unfolding with_status
with_status-IsKept id now t = record {
  permissions = refl;
  descending = IsDescending-update t.next_id id _ t.users (λ u. refl);
  no_less = λ p. count_managers-update p id _ t.users t.grants (λ u. refl) (λ u a. refl);
}

status_manager :
    (id : ℕ) (active : Bool) (now : ℕ) (p : Permission) (s : Tables) (rows : List AuditRow)
    → find_permission permission_manage (with_status id active now s).permissions ≡ some p
    → (not active
        && (count_managers p.id
              (with_status id active now s).users
              (with_status id active now s).grants
            == 0))
      ≡ false
    → has_manager s ≡ true
    → has_manager (record (with_status id active now s) { audit_rows = rows }) ≡ true
unfolding has_manager
status_manager id true now p s rows still safe m =
    IsKept-has_manager s (with_status id true now s) (with_status-IsKept id now s) m
status_manager id false now p s rows still safe m =
    counted-has_manager p (with_status id false now s) still safe

-- Deactivating stops where no manager would be left.
pub set_user_active-IsManaged :
    (encode : Metadata → Text) (requester : Identity) (id : ℕ) (active : Bool) (now : ℕ)
    (s t : Tables)
    → set_user_active encode requester id active now s ≡ ok t
    → IsManaged s
    → IsManaged t
unfolding set_user_active lock_manage_permission
set_user_active-IsManaged encode requester id active now s t h m =
    let (p, locked, h₁) =
      >>=-eq-ok (permission_of (find_permission permission_manage s.permissions)) _ h in
    let (target, there, h₂) = >>=-eq-ok (user_of (find_user id s.users)) _ h₁ in
    let (safe, h₃) =
      refuse-eq-ok
        (not active
          && (count_managers p.id (with_status id active now s).users
                (with_status id active now s).grants
              == 0))
        last_access_manager _ h₂ in
    let (rows, logged, h₄) =
      >>=-eq-ok (append encode (status_event requester id target.is_active active now) s.audit_rows)
        _ h₃ in
    let still : find_permission permission_manage (with_status id active now s).permissions
        ≡ some p =
      ap (find_permission permission_manage) (with_status-permissions id active now s)
      ∙ permission_of-eq-ok _ p locked in
    let manager : has_manager (record (with_status id active now s) { audit_rows = rows }) ≡ true =
      status_manager id active now p s rows still safe m.0 in
    subst IsManaged (ok-injective _ t h₄) (manager, with_status-IsDescending id active now s m.1)

below_other :
    (b id : ℕ) (users : List User)
    → b ≤ id
    → IsDescending b users
    → All (λ v. v.is_active ≡ true → (v.id == id) ≡ false) users
unfolding IsDescending
below_other b id [] l d = tt
below_other b id (u ∷ rest) l d =
    ((λ a. ground (arith, d.0, l)), below_other u.id id rest (omega (arith, d.0, l)) d.1)

inactive_itself {ℓ} :
    {A : Type ℓ} (v u : User) → some v ≡ some u → u.is_active ≡ false → v.is_active ≡ true → A
inactive_itself v u same off on = cc

-- Ids are unique, so that a user that is found inactive has no active namesake.
inactive_other :
    (b id : ℕ) (u : User) (users : List User)
    → IsDescending b users
    → find_user id users ≡ some u
    → u.is_active ≡ false
    → All (λ v. v.is_active ≡ true → (v.id == id) ≡ false) users
unfolding IsDescending find_user
inactive_other b id u [] d found off = tt
inactive_other b id u (v ∷ rest) d found off = elim (Bool-cases (v.id == id)) [
  | inl e ↦ (
    (λ a. inactive_itself v u (rw e at found) off a),
    below_other v.id id rest (ground (arith, e)) d.1,
  )
  | inr e ↦ ((λ a. e), inactive_other v.id id u rest d.1 (rw e at found) off)
]

without_grants-other :
    (id u p : ℕ) (permissions : List Permission) (grants : List Grant)
    → (u == id) ≡ false
    → is_granted u p grants ≡ true
    → is_granted u p (without_grants id permissions grants) ≡ true
unfolding is_granted without_grants
without_grants-other id u p permissions [] other h = h
without_grants-other id u p permissions (g ∷ rest) other h =
    let later = without_grants-other id u p permissions rest other in
    elim (Bool-cases ((g.user_id == u) && (g.permission_id == p))) [
      | inl m ↦
          let away : (g.user_id == id) ≡ false = ground (arith, m, other) in rw away (rw m refl)
      | inr m ↦
          let rest_h : is_granted u p rest ≡ true = rw m at h in
          elim (Bool-cases ((g.user_id == id) && has_id g.permission_id permissions)) [
            | inl k ↦ rw k (later rest_h)
            | inr k ↦ rw (k, is_granted, m) (later rest_h)
          ]
    ]

or-right : (a b : Bool) → b ≡ true → (a || b) ≡ true
or-right true b h = refl
or-right false b h = h

pub grant_all-more :
    (id u p : ℕ) (keys : List Text) (permissions : List Permission) (grants more : List Grant)
    → grant_all id keys permissions grants ≡ ok more
    → is_granted u p grants ≡ true
    → is_granted u p more ≡ true
unfolding grant_all is_granted
grant_all-more id u p [] permissions grants more h g =
    subst (λ x. is_granted u p x ≡ true) (ok-injective _ more h) g
grant_all-more id u p (key ∷ rest) permissions grants more h g =
    let (q, found, h₁) = >>=-eq-ok (permission_of (find_permission key permissions)) _ h in
    let (fresh, h₂) = refuse-eq-ok (is_granted id q.id grants) foreign _ h₁ in
    grant_all-more id u p rest permissions (record { user_id = id; permission_id = q.id } ∷ grants)
      more h₂ (or-right _ _ g)

-- The grants of an inactive user may go, as nobody else loses a permission.
inactive-no_less :
    (id p : ℕ) (u : User) (keys : List Text) (known : List Permission) (granted : List Grant)
    (s : Tables)
    → IsDescending s.next_id s.users
    → find_user id s.users ≡ some u
    → u.is_active ≡ false
    → grant_all id keys known (without_grants id known s.grants) ≡ ok granted
    → count_managers p s.users s.grants ≤ count_managers p s.users granted
inactive-no_less id p u keys known granted s d found off made =
    count_managers-grants p s.users s.grants granted (
      All-imp _ _
        (λ v other a g.
          grant_all-more id v.id p keys known _ granted made
            (without_grants-other id v.id p known s.grants (other a) g))
        s.users (inactive_other s.next_id id u s.users d found off))

pub granted_manager :
    (id : ℕ) (p : Permission) (u : User) (keys : List Text) (known : List Permission)
    (granted : List Grant) (s : Tables) (rows : List AuditRow)
    → IsManaged s
    → find_permission permission_manage s.permissions ≡ some p
    → find_user id s.users ≡ some u
    → grant_all id keys known (without_grants id known s.grants) ≡ ok granted
    → (u.is_active && (count_managers p.id s.users granted == 0)) ≡ false
    → has_manager (record s { grants = granted; audit_rows = rows }) ≡ true
unfolding has_manager
granted_manager id p u keys known granted s rows m still found made safe =
    elim (Bool-cases u.is_active) [
      | inl on ↦ counted-has_manager p (record s { grants = granted }) still (rw on at safe)
      | inr off ↦
          IsKept-has_manager s (record s { grants = granted; audit_rows = rows })
            (record {
              permissions = refl;
              descending = λ d. d;
              no_less = λ q. inactive-no_less id q u keys known granted s m.1 found off made;
            })
            m.0
    ]

pub user_of-eq-ok : (o : Option User) (u : User) → user_of o ≡ ok u → o ≡ some u
unfolding user_of
user_of-eq-ok none u h = cc
user_of-eq-ok (some v) u h = ap some (ok-injective v u h)
