-- ===== src/Access/Managers/Staffed.antt =====
-- What Bootstrap does for a manager who is named: the user is there, active and permitted.
use new_trs.Common.{
  ℕ, ◌≤◌, ◌≡◌, refl, ap, ◌∙◌, subst, true, ◌==◌, ==_iff, Bool-cases, List, [], ◌∷◌, none, some,
  Option-cases, inl, inr, All, ok, >>=-eq-ok, ok-injective, arith,
}
use new_trs.Common.Text.{Text, eq_text}
use new_trs.Audit.{Metadata, AuditRow, append}
use new_trs.Access.Tables.{
  User, Permission, Grant, Tables, find_username, update_user, find_permission, is_granted,
  count_managers,
}
use new_trs.Access.Management.{PermissionDefinition}
use new_trs.Access.Bootstrap.{
  changed_permission, sync_rows, sync_permission, sync_all, ensure_user, grant_once,
  bootstrap_event, ensure_manager, ensure_managers,
}
use new_trs.Access.Managers.{
  IsDescending, IsDescending-update, count_managers-update, count_managers-grants,
}

some-injective {ℓ} : {A : Type ℓ} (a b : A) → some a ≡ some b → a ≡ b
some-injective a b h = cc

-- A permission of a key keeps its id when the registry is written.
sync_rows-find :
    (d : PermissionDefinition) (now id : ℕ) (key : Text) (rows : List Permission) (p : Permission)
    → find_permission key rows ≡ some p
    → (q : Permission) × (find_permission key (sync_rows d now id rows) ≡ some q) × (q.id ≡ p.id)
unfolding find_permission sync_rows changed_permission
sync_rows-find d now id key [] p h = cc
sync_rows-find d now id key (r ∷ rest) p h = elim (Bool-cases (eq_text r.key key)) [
  | inl k ↦
      let same = some-injective r p (rw (k, find_permission) at h) in
      elim (Bool-cases (eq_text r.key d.key)) [
        | inl e ↦ (changed_permission d now r, simp (e, k), ap (λ x. x.id) same)
        | inr e ↦ (r, simp (e, k), ap (λ x. x.id) same)
      ]
  | inr k ↦
      let later = sync_rows-find d now id key rest p (rw (k, find_permission) at h) in
      elim (Bool-cases (eq_text r.key d.key)) [
        | inl e ↦ (p, simp (e, k, (rw (k, find_permission) at h)), refl)
        | inr e ↦ (later.0, simp (e, k, later.1), later.2)
      ]
]

pub sync_all-find :
    (definitions : List PermissionDefinition) (now : ℕ) (key : Text) (t : Tables) (p : Permission)
    → find_permission key t.permissions ≡ some p
    → (q : Permission) × (find_permission key (sync_all definitions now t).permissions ≡ some q)
      × (q.id ≡ p.id)
unfolding sync_all sync_permission
sync_all-find [] now key t p h = (p, h, refl)
sync_all-find (d ∷ rest) now key t p h =
    let (q, found, same) = sync_rows-find d now t.next_id key t.permissions p h in
    let (r, found', same') = sync_all-find rest now key (sync_permission d now t) q found in
    (r, found', same' ∙ same)

-- Writing the registry touches neither users nor grants, and leaves the ids in order.
pub sync_all-rest :
    (definitions : List PermissionDefinition) (now : ℕ) (t : Tables)
    → ((sync_all definitions now t).users ≡ t.users)
      × ((sync_all definitions now t).grants ≡ t.grants)
      × (t.next_id ≤ (sync_all definitions now t).next_id)
unfolding sync_all sync_permission
sync_all-rest [] now t = (refl, refl, omega arith)
sync_all-rest (d ∷ rest) now t =
    let later = sync_all-rest rest now (sync_permission d now t) in
    (later.0, later.1, omega (arith, later.2))

grant_once-granted :
    (user p : ℕ) (grants : List Grant) → is_granted user p (grant_once user p grants) ≡ true
unfolding grant_once is_granted
grant_once-granted user p grants = elim (Bool-cases (is_granted user p grants)) [
  | inl g ↦ rw (g, g) refl
  | inr g ↦ rw g (ground arith)
]

grant_once-more :
    (user p : ℕ) (users : List User) (grants : List Grant)
    → All
        (λ u.
          u.is_active ≡ true
          → is_granted u.id p grants ≡ true
          → is_granted u.id p (grant_once user p grants) ≡ true)
        users
unfolding grant_once is_granted
grant_once-more user p [] grants = tt
grant_once-more user p (u ∷ rest) grants = (
  λ a g. elim (Bool-cases (is_granted user p grants)) [
    | inl e ↦ rw e g
    | inr e ↦ rw e (ground arith)
  ],
  grant_once-more user p rest grants,
)

-- An activated user with the permission is a manager.
count_managers-activated :
    (p now : ℕ) (name : Text) (users : List User) (u : User) (grants : List Grant)
    → find_username name users ≡ some u
    → is_granted u.id p grants ≡ true
    → 1
      ≤ count_managers p
          (update_user u.id (λ v. record v { is_active = true; updated_at = now }) users)
          grants
unfolding find_username count_managers update_user
count_managers-activated p now name [] u grants h g = cc
count_managers-activated p now name (x ∷ rest) u grants h g = elim (Bool-cases (x.id == u.id)) [
  | inl e ↦
      let same : x.id ≡ u.id = (==_iff x.id u.id).0 e in
      let granted : is_granted x.id p grants ≡ true = ap (λ i. is_granted i p grants) same ∙ g in
      simp (e, granted) (omega arith)
  | inr e ↦ elim (Bool-cases (eq_text x.username name)) [
    | inl k ↦
        let same : x.id ≡ u.id = ap (λ v. v.id) (some-injective x u (rw (k, find_username) at h)) in
        absurd (ground arith)
    | inr k ↦
        let later =
          count_managers-activated p now name rest u grants (rw (k, find_username) at h) g in
        rw e (ground (arith, later))
  ]
]

-- What creating a manager does to the tables.
pub record IsStaffed (p : ℕ) (s t : Tables) : Type 0 where
  pub permissions : t.permissions ≡ s.permissions
  pub descending : IsDescending s.next_id s.users → IsDescending t.next_id t.users
  pub no_less : count_managers p s.users s.grants ≤ count_managers p t.users t.grants
  pub staffed : 1 ≤ count_managers p t.users t.grants

abbrev granted_tables : ℕ → ℕ × Tables → Tables
granted_tables p found = record (found.1) { grants = grant_once found.0 p found.1.grants }

created_IsStaffed :
    (p now : ℕ) (name : Text) (t : Tables)
    → IsStaffed p t (granted_tables p (ensure_user name now none t))
unfolding ensure_user count_managers IsDescending
created_IsStaffed p now name t =
    let granted = grant_once-granted t.next_id p t.grants in
    let kept =
      count_managers-grants p t.users t.grants (grant_once t.next_id p t.grants)
        (grant_once-more t.next_id p t.users t.grants) in
    record {
      permissions = refl;
      descending = λ d. (omega arith, d);
      no_less = simp granted (omega (arith, kept));
      staffed = simp granted (omega arith);
    }

activated_IsStaffed :
    (p now : ℕ) (name : Text) (t : Tables) (u : User)
    → find_username name t.users ≡ some u
    → IsStaffed p t (granted_tables p (ensure_user name now (some u) t))
unfolding ensure_user
activated_IsStaffed p now name t u found =
    let change : User → User = λ v. record v { is_active = true; updated_at = now } in
    let granted = grant_once u.id p t.grants in
    let more =
      count_managers-grants p t.users t.grants granted (grant_once-more u.id p t.users t.grants) in
    let active = count_managers-update p u.id change t.users granted (λ v. refl) (λ v a. refl) in
    record {
      permissions = refl;
      descending = IsDescending-update t.next_id u.id change t.users (λ v. refl);
      no_less = omega (arith, more, active);
      staffed =
          count_managers-activated p now name t.users u granted found
            (grant_once-granted u.id p t.grants);
    }

with_rows :
    (p : ℕ) (s t : Tables) (rows : List AuditRow)
    → IsStaffed p s t
    → IsStaffed p s (record t { audit_rows = rows })
with_rows p s t rows h = record {
  permissions = h.permissions;
  descending = h.descending;
  no_less = h.no_less;
  staffed = h.staffed;
}

ensure_manager-IsStaffed :
    (encode : Metadata → Text) (p : ℕ) (name : Text) (now : ℕ) (s t : Tables)
    → ensure_manager encode p name now s ≡ ok t
    → IsStaffed p s t
unfolding ensure_manager
ensure_manager-IsStaffed encode p name now s t h =
    elim (Option-cases (find_username name s.users)) [
      | inl e ↦
          let (rows, logged, h₁) =
            >>=-eq-ok
              (append encode (bootstrap_event (ensure_user name now none s).0 now)
                (ensure_user name now none s).1.audit_rows)
              _ (rw (e, ensure_manager) at h) in
          subst (IsStaffed p s) (ok-injective _ t h₁) (
            with_rows p s (granted_tables p (ensure_user name now none s)) rows
              (created_IsStaffed p now name s))
      | inr (u, e) ↦
          let (rows, logged, h₁) =
            >>=-eq-ok
              (append encode (bootstrap_event (ensure_user name now (some u) s).0 now)
                (ensure_user name now (some u) s).1.audit_rows)
              _ (rw (e, ensure_manager) at h) in
          subst (IsStaffed p s) (ok-injective _ t h₁) (
            with_rows p s (granted_tables p (ensure_user name now (some u) s)) rows
              (activated_IsStaffed p now name s u e))
    ]

trans-IsStaffed : (p : ℕ) (s t u : Tables) → IsStaffed p s t → IsStaffed p t u → IsStaffed p s u
trans-IsStaffed p s t u a b = record {
  permissions = b.permissions ∙ a.permissions;
  descending = λ d. b.descending (a.descending d);
  no_less = omega (arith, a.no_less, b.no_less);
  staffed = b.staffed;
}

pub ensure_managers-IsStaffed :
    (encode : Metadata → Text) (p : ℕ) (name : Text) (names : List Text) (now : ℕ) (s t : Tables)
    → ensure_managers encode p (name ∷ names) now s ≡ ok t
    → IsStaffed p s t
unfolding ensure_managers
ensure_managers-IsStaffed encode p name [] now s t h =
    let (u, done, h₁) = >>=-eq-ok (ensure_manager encode p name now s) _ h in
    subst (IsStaffed p s) (ok-injective u t h₁)
      (ensure_manager-IsStaffed encode p name now s u done)
ensure_managers-IsStaffed encode p name (next ∷ names) now s t h =
    let (u, done, h₁) = >>=-eq-ok (ensure_manager encode p name now s) _ h in
    trans-IsStaffed p s u t (ensure_manager-IsStaffed encode p name now s u done)
      (ensure_managers-IsStaffed encode p next names now u t h₁)
