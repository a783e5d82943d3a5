-- ===== src/Access/Granted.antt =====
-- What replacing a user's permissions does to the grants.
use new_trs.Common.{
  ℕ, ◌≡◌, refl, sym, ap, ◌∙◌, subst, Bool, true, false, not, ◌&&◌, ◌||◌, ◌==◌, Bool-cases, inl, inr,
  List, [], ◌∷◌, some, length, ok, foreign, refuse-eq-ok, ok-injective, >>=-eq-ok, All,
  unknown_permission, last_access_manager, arith,
}
use new_trs.Common.Text.{Text, eq_text, eq_text-eq, contains}
use new_trs.Audit.{Metadata, Identity, append}
use new_trs.Access.Tables.{
  Permission, Grant, Tables, find_user, find_permission, is_granted, count_managers,
  permission_manage,
}
use new_trs.Access.Users.{user_of}
use new_trs.Access.Management.{
  lock_manage_permission, permission_of, resolved_permissions, has_id, assigned_keys,
  without_grants, grant_all, permission_changes, permissions_event, is_nil, replace_permissions,
}
use new_trs.Access.Managers.Booted.{permission_of-eq-ok}
use new_trs.Access.Managers.Changed.{grant_all-more}

false-true : false ≡ true → ⊥
false-true h = cc

and-first : (a b : Bool) → (a && b) ≡ true → a ≡ true
and-first true b h = refl
and-first false b h = h

and-second : (a b : Bool) → (a && b) ≡ true → b ≡ true
and-second true b h = h
and-second false b h = cc

never : (a : Bool) → (a && false) ≡ false
never true = refl
never false = refl

own : (a b : ℕ) (c : Bool) → (((a == a) && (b == b)) || c) ≡ true
own a b c = ground arith

some-same {ℓ} : {A : Type ℓ} (a b : A) → some a ≡ some b → a ≡ b
some-same a b h = cc

same_id :
    (a b : ℕ) (known : List Permission)
    → (a == b) ≡ true
    → has_id b known ≡ true
    → has_id a known ≡ true
same_id a b known e h =
    let same : a ≡ b = ground (arith, e) in subst (λ n. has_id n known ≡ true) (sym same) h

without_grants-eq :
    (id u p : ℕ) (known : List Permission) (grants : List Grant)
    → (u == id) ≡ false
    → is_granted u p (without_grants id known grants) ≡ is_granted u p grants
unfolding is_granted without_grants
without_grants-eq id u p known [] other = refl
without_grants-eq id u p known (g ∷ rest) other =
    let later = without_grants-eq id u p known rest other in
    elim (Bool-cases ((g.user_id == id) && has_id g.permission_id known)) [
      | inl k ↦
          let away : ((g.user_id == u) && (g.permission_id == p)) ≡ false =
            ground (arith, k, other) in
          rw k (later ∙ ap (λ b. b || is_granted u p rest) (sym away))
      | inr k ↦ rw k (ap (λ b. ((g.user_id == u) && (g.permission_id == p)) || b) later)
    ]

without_grants-gone :
    (id p : ℕ) (known : List Permission) (grants : List Grant)
    → has_id p known ≡ true
    → is_granted id p (without_grants id known grants) ≡ false
unfolding is_granted without_grants
without_grants-gone id p known [] there = refl
without_grants-gone id p known (g ∷ rest) there =
    let later = without_grants-gone id p known rest there in
    elim (Bool-cases ((g.user_id == id) && has_id g.permission_id known)) [
      | inl k ↦ rw k later
      | inr k ↦ elim (Bool-cases ((g.user_id == id) && (g.permission_id == p))) [
        | inl m ↦ absurd (
            false-true (
              sym (rw (and-first (g.user_id == id) (g.permission_id == p) m) at k)
              ∙ same_id g.permission_id p known
                  (and-second (g.user_id == id) (g.permission_id == p) m) there))
        | inr m ↦ rw k (ap (λ b. b || is_granted id p (without_grants id known rest)) m ∙ later)
      ]
    ]

grant_all-other :
    (id u p : ℕ) (keys : List Text) (known : List Permission) (grants more : List Grant)
    → grant_all id keys known grants ≡ ok more
    → (u == id) ≡ false
    → is_granted u p more ≡ is_granted u p grants
unfolding grant_all is_granted
grant_all-other id u p [] known grants more h other =
    ap (is_granted u p) (sym (ok-injective grants more h))
grant_all-other id u p (key ∷ rest) known grants more h other =
    let (q, found, h₁) = >>=-eq-ok (permission_of (find_permission key known)) _ h in
    let (fresh, h₂) = refuse-eq-ok (is_granted id q.id grants) foreign _ h₁ in
    let away : ((id == u) && (q.id == p)) ≡ false = ground (arith, other) in
    grant_all-other id u p rest known (record { user_id = id; permission_id = q.id } ∷ grants) more
      h₂ other
    ∙ ap (λ b. b || is_granted u p grants) away

-- A permission to which none of the keys leads stays as it was.
grant_all-without :
    (id p : ℕ) (keys : List Text) (known : List Permission) (grants more : List Grant)
    → grant_all id keys known grants ≡ ok more
    → All (λ k. (q : Permission) → find_permission k known ≡ some q → (q.id == p) ≡ false) keys
    → is_granted id p more ≡ is_granted id p grants
unfolding grant_all is_granted
grant_all-without id p [] known grants more h other =
    ap (is_granted id p) (sym (ok-injective grants more h))
grant_all-without id p (key ∷ rest) known grants more h other =
    let (q, found, h₁) = >>=-eq-ok (permission_of (find_permission key known)) _ h in
    let (fresh, h₂) = refuse-eq-ok (is_granted id q.id grants) foreign _ h₁ in
    let away : ((id == id) && (q.id == p)) ≡ false =
      ap (λ b. (id == id) && b) (other.0 q (permission_of-eq-ok _ q found)) ∙ never (id == id) in
    grant_all-without id p rest known (record { user_id = id; permission_id = q.id } ∷ grants) more
      h₂ other.1
    ∙ ap (λ b. b || is_granted id p grants) away

grant_all-granted :
    (id : ℕ) (key : Text) (q : Permission) (keys : List Text) (known : List Permission)
    (grants more : List Grant)
    → grant_all id keys known grants ≡ ok more
    → contains key keys ≡ true
    → find_permission key known ≡ some q
    → is_granted id q.id more ≡ true
unfolding grant_all is_granted contains
grant_all-granted id key q [] known grants more h there found = absurd (false-true there)
grant_all-granted id key q (k ∷ rest) known grants more h there found =
    let (r, leads, h₁) = >>=-eq-ok (permission_of (find_permission k known)) _ h in
    let (fresh, h₂) = refuse-eq-ok (is_granted id r.id grants) foreign _ h₁ in
    let next = record { user_id = id; permission_id = r.id } ∷ grants in
    elim (Bool-cases (eq_text k key)) [
      | inl e ↦
          let same = some-same r q (
            sym (permission_of-eq-ok _ r leads)
            ∙ ap (λ t. find_permission t known) (eq_text-eq k key e)
            ∙ found) in
          grant_all-more id id q.id rest known next more h₂ (
            ap (λ x. ((id == id) && (x.id == q.id)) || is_granted id q.id grants) same
            ∙ own id q.id _)
      | inr e ↦ grant_all-granted id key q rest known next more h₂ (rw e at there) found
    ]

-- The grants after a replacement: those of others are as before, a selected key is granted, and a
-- permission that may be assigned and to which no selected key leads is not.
pub record IsReplaced (id : ℕ) (known : List Permission) (selected : List Text)
    (grants more : List Grant) : Type 0 where
  pub others : (u p : ℕ) → (u == id) ≡ false → is_granted u p more ≡ is_granted u p grants
  pub given :
      (key : Text) (q : Permission)
      → contains key selected ≡ true
      → find_permission key known ≡ some q
      → is_granted id q.id more ≡ true
  pub taken :
      (p : ℕ)
      → has_id p known ≡ true
      → All
          (λ k. (q : Permission) → find_permission k known ≡ some q → (q.id == p) ≡ false)
          selected
      → is_granted id p more ≡ false

grant_all-IsReplaced :
    (id : ℕ) (selected : List Text) (known : List Permission) (grants more : List Grant)
    → grant_all id selected known (without_grants id known grants) ≡ ok more
    → IsReplaced id known selected grants more
grant_all-IsReplaced id selected known grants more h = record {
  others = λ u p other.
      grant_all-other id u p selected known _ more h other
      ∙ without_grants-eq id u p known grants other;
  given = λ key q there found. grant_all-granted id key q selected known _ more h there found;
  taken = λ p there none_leads.
      grant_all-without id p selected known _ more h none_leads
      ∙ without_grants-gone id p known grants there;
}

-- After a replacement of a user's permissions that succeeds, the grants of others are as before, the user
-- has each selected key, and no permission that may be assigned and to which no selected key leads.
pub replace_permissions-IsReplaced :
    (encode : Metadata → Text) (requester : Identity) (id : ℕ) (canonical selected : List Text)
    (now : ℕ) (s t : Tables)
    → replace_permissions encode requester id canonical selected now s ≡ ok t
    → IsReplaced id (resolved_permissions canonical s.permissions) selected s.grants t.grants
unfolding replace_permissions lock_manage_permission
replace_permissions-IsReplaced encode requester id canonical selected now s t h =
    let (p, locked, h₁) =
      >>=-eq-ok (permission_of (find_permission permission_manage s.permissions)) _ h in
    let (target, there, h₂) = >>=-eq-ok (user_of (find_user id s.users)) _ h₁ in
    let (some_keys, h₃) = refuse-eq-ok (is_nil canonical) foreign _ h₂ in
    let known = resolved_permissions canonical s.permissions in
    let (all_known, h₄) =
      refuse-eq-ok (not (length known == length canonical)) unknown_permission _ h₃ in
    let (granted, made, h₅) =
      >>=-eq-ok (grant_all id selected known (without_grants id known s.grants)) _ h₄ in
    let (safe, h₆) =
      refuse-eq-ok (target.is_active && (count_managers p.id s.users granted == 0))
        last_access_manager _ h₅ in
    let (rows, logged, h₇) =
      >>=-eq-ok
        (append encode
          (permissions_event requester id
            (permission_changes (assigned_keys id known s.grants) selected) now)
          s.audit_rows)
        _ h₆ in
    subst (λ y. IsReplaced id known selected s.grants y.grants) (ok-injective _ t h₇)
      (grant_all-IsReplaced id selected known s.grants granted made)
