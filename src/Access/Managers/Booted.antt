-- ===== src/Access/Managers/Booted.antt =====
-- After Bootstrap somebody can manage access.
use new_trs.Common.{
  ℕ, ◌≤◌, ◌≡◌, sym, ap, ◌∙◌, subst, true, ◌==◌, Bool-cases, List, [], ◌∷◌, Option, none, some, inl,
  inr, ok, >>=-eq-ok, ok-injective, arith,
}
use new_trs.Common.Text.{Text, split}
use new_trs.Audit.{Metadata}
use new_trs.Access.Tables.{Permission, Tables, find_permission, count_managers, permission_manage}
use new_trs.Access.Management.{PermissionDefinition, lock_manage_permission, permission_of}
use new_trs.Access.Bootstrap.{
  validate_registry, sync_all, ensure_managers, some_name, bootstrap_names, bootstrap_usernames,
  bootstrap,
}
use new_trs.Access.Managers.{managed, has_manager, IsDescending, IsDescending-le}
use new_trs.Access.Managers.Staffed.{sync_all-rest, ensure_managers-IsStaffed}

some_name-cons :
    (names more : List Text)
    → some_name names ≡ ok more
    → (n : Text) × (r : List Text) × (more ≡ n ∷ r)
unfolding some_name
some_name-cons [] more h = cc
some_name-cons (n ∷ r) more h = (n, r, sym (ok-injective (n ∷ r) more h))

bootstrap_usernames-cons :
    (configured : Text) (names : List Text)
    → bootstrap_usernames configured ≡ ok names
    → (n : Text) × (r : List Text) × (names ≡ n ∷ r)
unfolding bootstrap_usernames
bootstrap_usernames-cons configured names h =
    let (all, read, h₁) = >>=-eq-ok (bootstrap_names [] (split b',' configured)) some_name h in
    some_name-cons all names h₁

pub permission_of-eq-ok :
    (o : Option Permission) (p : Permission) → permission_of o ≡ ok p → o ≡ some p
unfolding permission_of
permission_of-eq-ok none p h = cc
permission_of-eq-ok (some q) p h = cc

managed-positive :
    (p : Permission) (t : Tables)
    → find_permission permission_manage t.permissions ≡ some p
    → 1 ≤ count_managers p.id t.users t.grants
    → has_manager t ≡ true
unfolding has_manager managed
managed-positive p t found h = rw found (ground arith)

-- When Bootstrap succeeds, an active user has the permission to manage access, and the users stay in
-- order of ids if they were.
pub bootstrap-has_manager :
    (encode : Metadata → Text) (definitions : List PermissionDefinition) (configured : Text)
    (now : ℕ) (s t : Tables)
    → bootstrap encode definitions configured now s ≡ ok t
    → (has_manager t ≡ true) × (IsDescending s.next_id s.users → IsDescending t.next_id t.users)
unfolding bootstrap lock_manage_permission
bootstrap-has_manager encode definitions configured now s t h =
    let synced = sync_all definitions now s in
    let still = sync_all-rest definitions now s in
    let (v, valid, h₁) = >>=-eq-ok (validate_registry definitions) _ h in
    let (p, locked, h₂) =
      >>=-eq-ok (permission_of (find_permission permission_manage synced.permissions)) _ h₁ in
    let found = permission_of-eq-ok _ p locked in
    let ordered : IsDescending s.next_id s.users → IsDescending synced.next_id synced.users = λ d.
      IsDescending-le s.next_id synced.next_id synced.users still.2
        (subst (IsDescending s.next_id) (sym still.0) d) in
    elim (Bool-cases (count_managers p.id synced.users synced.grants == 0)) [
      | inl none_yet ↦
          let (names, read, h₃) =
            >>=-eq-ok (bootstrap_usernames configured) _ (rw none_yet at h₂) in
          let (n, r, cons) = bootstrap_usernames-cons configured names read in
          let staffed =
            ensure_managers-IsStaffed encode p.id n r now synced t
              (subst (λ l. ensure_managers encode p.id l now synced ≡ ok t) cons h₃) in
          (
            managed-positive p t
                (ap (find_permission permission_manage) staffed.permissions ∙ found)
                staffed.staffed,
            λ d. staffed.descending (ordered d),
          )
      | inr some_yet ↦
          let same = ok-injective synced t (rw some_yet at h₂) in
          (
            subst (λ u. has_manager u ≡ true) same (managed-positive p synced found (ground arith)),
            λ d. subst (λ u. IsDescending u.next_id u.users) same (ordered d),
          )
    ]
