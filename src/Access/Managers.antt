-- ===== src/Access/Managers.antt =====
-- Somebody can always manage access: what the tables hold for that, the steps of the application on
-- them, and how counting managers behaves.
pub mod Staffed
pub mod Booted
pub mod Kept
pub mod SignedIn
pub mod Changed
pub mod Managed
use new_trs.Common.{
  ℕ, suc, ◌+◌, ◌≤◌, ◌<◌, ◌≡◌, refl, sym, ap, ◌∙◌, subst, Bool, true, false, not, ◌&&◌, ◌||◌, ◌==◌,
  ==_iff, Bool-cases, if◌then◌else◌, List, [], ◌∷◌, Option, none, some, Option-cases, inl, inr, All,
  Result, ok, arith,
}
use new_trs.Common.Text.{Text, eq_text}
use new_trs.Audit.{Metadata, Identity}
use new_trs.Access.Tables.{
  User, Permission, Grant, Tables, find_user, find_username, update_user, find_permission,
  is_granted, count_managers, permission_manage,
}
use new_trs.Access.Sessions.{delete_expired}
use new_trs.Access.Management.{PermissionDefinition, submit_permissions, set_active}
use new_trs.Access.Bootstrap.{bootstrap}
use new_trs.Access.Login.{AuthService, LoginInput, World, login, resolve_session, logout}

unfoldable pub managed : Option Permission → List User → List Grant → Bool
managed none users grants = false
managed (some p) users grants = not (count_managers p.id users grants == 0)

-- An active user has the permission to manage access.
unfoldable pub has_manager : Tables → Bool
has_manager t = managed (find_permission permission_manage t.permissions) t.users t.grants

-- The users stand in the table by falling ids, all below the bound.
unfoldable pub IsDescending : ℕ → List User → Type 0
IsDescending bound [] = Unit
IsDescending bound (u ∷ rest) = (u.id < bound) × IsDescending u.id rest

-- What each transaction of the application does to the tables; a transaction runs alone.
pub data AccessStep : Tables → Tables → Type 0 where
  activated :
      (encode : Metadata → Text) (requester : Identity) (id : ℕ) (active : Bool) (now : ℕ)
      (s t : Tables)
      → set_active encode requester id active now s ≡ ok t
      → AccessStep s t
  permitted :
      (encode : Metadata → Text) (definitions : List PermissionDefinition) (requester : Identity)
      (id : ℕ) (submitted : List Text) (now : ℕ) (s t : Tables)
      → submit_permissions encode definitions requester id submitted now s ≡ ok t
      → AccessStep s t
  booted :
      (encode : Metadata → Text) (definitions : List PermissionDefinition) (configured : Text)
      (now : ℕ) (s t : Tables)
      → bootstrap encode definitions configured now s ≡ ok t
      → AccessStep s t
  signed_in :
      (a : AuthService) (i : LoginInput) (now : ℕ) (w : World)
      → AccessStep w.tables ((login (λ t. t) a i now w).0.tables)
  resolved : (hash : Text) (now : ℕ) (s : Tables) → AccessStep s ((resolve_session hash now s).0)
  signed_out : (hash : Text) (s : Tables) → AccessStep s (logout hash s)
  swept : (now : ℕ) (s : Tables) → AccessStep s ((delete_expired now s).0)

-- The tables that the application leads to once it has started on tables with users in order.
pub data IsRunning : Tables → Type 0 where
  started :
      (encode : Metadata → Text) (definitions : List PermissionDefinition) (configured : Text)
      (now : ℕ) (s t : Tables)
      → IsDescending s.next_id s.users
      → bootstrap encode definitions configured now s ≡ ok t
      → IsRunning t
  went_on : (s t : Tables) → IsRunning s → AccessStep s t → IsRunning t

pub IsDescending-le :
    (b c : ℕ) (users : List User) → b ≤ c → IsDescending b users → IsDescending c users
unfolding IsDescending
IsDescending-le b c [] l h = tt
IsDescending-le b c (u ∷ rest) l h = (omega (arith, h.0), h.1)

pub IsDescending-update :
    (b id : ℕ) (change : User → User) (users : List User)
    → ((u : User) → (change u).id ≡ u.id)
    → IsDescending b users
    → IsDescending b (update_user id change users)
unfolding IsDescending update_user
IsDescending-update b id change [] same h = tt
IsDescending-update b id change (u ∷ rest) same h = elim (Bool-cases (u.id == id)) [
  | inl e ↦ rw e (rw (same u) h)
  | inr e ↦ rw e (h.0, IsDescending-update u.id id change rest same h.1)
]

counted_no_less :
    (a b g : Bool) (n m : ℕ)
    → (a ≡ true → b ≡ true)
    → n ≤ m
    → (if a && g then suc n else n) ≤ (if b && g then suc m else m)
counted_no_less true b g n m f h = let on = f refl in ground arith
counted_no_less false b g n m f h = ground arith

-- A change that keeps ids and deactivates nobody loses no manager.
pub count_managers-update :
    (p id : ℕ) (change : User → User) (users : List User) (grants : List Grant)
    → ((u : User) → (change u).id ≡ u.id)
    → ((u : User) → u.is_active ≡ true → (change u).is_active ≡ true)
    → count_managers p users grants ≤ count_managers p (update_user id change users) grants
unfolding count_managers update_user
count_managers-update p id change [] grants same stays = omega arith
count_managers-update p id change (u ∷ rest) grants same stays =
    let later = count_managers-update p id change rest grants same stays in
    elim (Bool-cases (u.id == id)) [
      | inl e ↦
          rw (e, same u)
            (counted_no_less u.is_active (change u).is_active (is_granted u.id p grants) _ _
              (stays u) (omega arith))
      | inr e ↦ rw e (ground (arith, later))
    ]

-- Grants that reach every active user keep the managers.
pub count_managers-grants :
    (p : ℕ) (users : List User) (grants more : List Grant)
    → All
        (λ u. u.is_active ≡ true → is_granted u.id p grants ≡ true → is_granted u.id p more ≡ true)
        users
    → count_managers p users grants ≤ count_managers p users more
unfolding count_managers
count_managers-grants p [] grants more h = omega arith
count_managers-grants p (u ∷ rest) grants more h =
    let later = count_managers-grants p rest grants more h.1 in
    elim (Bool-cases u.is_active) [
      | inl a ↦ elim (Bool-cases (is_granted u.id p grants)) [
        | inl g ↦ rw (a, g, h.0 a g) (omega (arith, later))
        | inr g ↦ rw (a, g) (ground (arith, later))
      ]
      | inr a ↦ rw a later
    ]

pub positive : (n m : ℕ) → n ≤ m → not (n == 0) ≡ true → not (m == 0) ≡ true
positive n m l h = ground arith
