-- ===== src/Access/Managers/Kept.antt =====
-- Changes of the tables that lose no manager.
use new_trs.Common.{ℕ, suc, ◌≤◌, ◌≡◌, refl, sym, ◌∙◌, subst, true, List, Option, none, some, arith}
use new_trs.Access.Tables.{
  User, Permission, Grant, Session, Tables, find_permission, count_managers, permission_manage,
}
use new_trs.Access.Managers.{managed, has_manager, IsDescending, IsDescending-le, positive}

-- A change that loses no manager.
pub record IsKept (s t : Tables) : Type 0 where
  pub permissions : t.permissions ≡ s.permissions
  pub descending : IsDescending s.next_id s.users → IsDescending t.next_id t.users
  pub no_less : (p : ℕ) → count_managers p s.users s.grants ≤ count_managers p t.users t.grants

pub refl_IsKept : (t : Tables) → IsKept t t
refl_IsKept t = record { permissions = refl; descending = λ d. d; no_less = λ p. omega arith }

pub trans_IsKept : (s t u : Tables) → IsKept s t → IsKept t u → IsKept s u
trans_IsKept s t u a b = record {
  permissions = b.permissions ∙ a.permissions;
  descending = λ d. b.descending (a.descending d);
  no_less = λ p. omega (arith, a.no_less p, b.no_less p);
}

-- The sessions are of no concern.
pub sessions_IsKept :
    (t : Tables) (sessions : List Session) → IsKept t (record t { sessions = sessions })
sessions_IsKept t sessions = record {
  permissions = refl;
  descending = λ d. d;
  no_less = λ p. omega arith;
}

pub session_IsKept :
    (t : Tables) (sessions : List Session)
    → IsKept t (record t { sessions = sessions; next_id = suc t.next_id })
session_IsKept t sessions = record {
  permissions = refl;
  descending = IsDescending-le t.next_id (suc t.next_id) t.users (omega arith);
  no_less = λ q. omega arith;
}

managed-le :
    (o : Option Permission) (users users' : List User) (grants grants' : List Grant)
    → ((p : ℕ) → count_managers p users grants ≤ count_managers p users' grants')
    → managed o users grants ≡ true
    → managed o users' grants' ≡ true
unfolding managed
managed-le none users users' grants grants' l h = h
managed-le (some p) users users' grants grants' l h = positive _ _ (l p.id) h

pub IsKept-has_manager : (s t : Tables) → IsKept s t → has_manager s ≡ true → has_manager t ≡ true
unfolding has_manager
IsKept-has_manager s t k h =
    subst (λ ps. managed (find_permission permission_manage ps) t.users t.grants ≡ true)
      (sym k.permissions)
      (managed-le (find_permission permission_manage s.permissions) s.users t.users s.grants
        t.grants k.no_less h)
