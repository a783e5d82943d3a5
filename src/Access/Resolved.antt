-- ===== src/Access/Resolved.antt =====
-- Who a session resolves to, after a login and after a deactivation.
use new_trs.Common.{
  ℕ, ◌<◌, ◌≡◌, refl, sym, ap, ◌∙◌, subst, true, false, not, ◌==◌, Bool-cases, List, [], ◌∷◌, Option,
  none, some, inl, inr, length, ok, err, Error, >>=-eq-ok, refuse-eq-ok, ok-injective,
  last_access_manager, user_not_found, ltb, arith,
}
use new_trs.Common.Text.{Text}
use new_trs.Audit.{Metadata, Identity, append}
use new_trs.Access.Tables.{
  User, Session, Tables, find_user, update_user, find_permission, count_managers, permission_manage,
}
use new_trs.Access.Users.{user_of}
use new_trs.Access.Sessions.{find_hash, valid_session, find_valid_session}
use new_trs.Access.Management.{
  lock_manage_permission, permission_of, with_status, status_event, set_user_active, set_active,
}
use new_trs.Access.Login.{Principal, principal_of, resolve_user, resolve_found, resolve_session}

abbrev pub changed : (User → User) → Option User → Option User
changed f none = none
changed f (some u) = some (f u)

inactive-active {ℓ} : {A : Type ℓ} (u : User) → u.is_active ≡ false → u.is_active ≡ true → A
inactive-active u off on = cc

-- The session of a principal and its user.
pub record Origin (hash : Text) (now : ℕ) (t : Tables) (p : Principal) : Type 0 where
  pub session : Session
  pub user : User
  pub stored : find_hash hash t.sessions ≡ some session
  pub unexpired : now < session.expires_at
  pub known : find_user session.user_id t.users ≡ some user
  pub active : user.is_active ≡ true
  pub principal : p ≡ principal_of session user t

pub err-ok {ℓ κ} : {A : Type ℓ} {B : Type κ} (e : Error) (a : A) → err e ≡ ok a → B
err-ok e a h = cc

not-ltb : (n m : ℕ) → not (ltb n m) ≡ false → n < m
not-ltb n m h = ground arith

resolve_user-Origin :
    (hash : Text) (now : ℕ) (t : Tables) (s : Session) (o : Option User) (p : Principal)
    → find_hash hash t.sessions ≡ some s
    → now < s.expires_at
    → find_user s.user_id t.users ≡ o
    → (resolve_user hash now t s o).1 ≡ ok p
    → Origin hash now t p
unfolding resolve_user principal_of
resolve_user-Origin hash now t s none p stored unexpired known h = err-ok _ _ h
resolve_user-Origin hash now t s (some u) p stored unexpired known h =
    elim (Bool-cases u.is_active) [
      | inl a ↦ record {
        session = s;
        user = u;
        stored = stored;
        unexpired = unexpired;
        known = known;
        active = a;
        principal = sym (ok-injective _ p (rw a at h));
      }
      | inr a ↦ err-ok _ p (rw a at h)
    ]

resolve_found-Origin :
    (hash : Text) (now : ℕ) (t : Tables) (o : Option Session) (p : Principal)
    → find_hash hash t.sessions ≡ o
    → (resolve_found hash now t (valid_session now o)).1 ≡ ok p
    → Origin hash now t p
unfolding resolve_found valid_session
resolve_found-Origin hash now t none p stored h = err-ok _ _ h
resolve_found-Origin hash now t (some s) p stored h =
    elim (Bool-cases (not (ltb now s.expires_at))) [
      | inl late ↦ err-ok _ _ (rw late at h)
      | inr early ↦ elim (Bool-cases (not (length s.token_hash == 32))) [
        | inl bad ↦ err-ok _ _ (rw (early, bad) at h)
        | inr good ↦
            resolve_user-Origin hash now t s (find_user s.user_id t.users) p stored
              (not-ltb _ _ early) refl (rw (early, good) at h)
      ]
    ]

-- A hash that resolves to a principal is that of a stored session which has not expired, the session's
-- user is there and active, and the principal is made of the two.
pub resolve_session-Origin :
    (hash : Text) (now : ℕ) (t : Tables) (p : Principal)
    → (resolve_session hash now t).1 ≡ ok p
    → Origin hash now t p
unfolding resolve_session find_valid_session
resolve_session-Origin hash now t p h =
    resolve_found-Origin hash now t (find_hash hash t.sessions) p refl h

pub some-injective {ℓ} : {A : Type ℓ} (a b : A) → some a ≡ some b → a ≡ b
some-injective a b h = cc

find_user-id :
    (id : ℕ) (users : List User) (u : User) → find_user id users ≡ some u → (u.id == id) ≡ true
unfolding find_user
find_user-id id [] u h = cc
find_user-id id (v ∷ rest) u h = elim (Bool-cases (v.id == id)) [
  | inl e ↦ subst (λ w. (w.id == id) ≡ true) (some-injective v u (rw e at h)) e
  | inr e ↦ find_user-id id rest u (rw e at h)
]

pub find_user-update :
    (id : ℕ) (change : User → User) (users : List User)
    → ((v : User) → (change v).id ≡ v.id)
    → find_user id (update_user id change users) ≡ changed change (find_user id users)
unfolding find_user update_user
find_user-update id change [] same = refl
find_user-update id change (v ∷ rest) same = elim (Bool-cases (v.id == id)) [
  | inl e ↦ let e' : ((change v).id == id) ≡ true = ap (λ n. n == id) (same v) ∙ e in simp (e, e')
  | inr e ↦ simp (e, find_user-update id change rest same)
]

changed_inactive :
    (o : Option User) (change : User → User) (u : User)
    → ((v : User) → (change v).is_active ≡ false)
    → changed change o ≡ some u
    → u.is_active ≡ false
changed_inactive none change u off h = cc
changed_inactive (some v) change u off h =
    subst (λ w. w.is_active ≡ false) (some-injective _ u h) (off v)

set_user_active-inactive :
    (encode : Metadata → Text) (requester : Identity) (id now : ℕ) (s t : Tables) (u : User)
    → set_user_active encode requester id false now s ≡ ok t
    → find_user id t.users ≡ some u
    → u.is_active ≡ false
unfolding set_user_active lock_manage_permission with_status
set_user_active-inactive encode requester id now s t u h found =
    let (p, locked, h₁) =
      >>=-eq-ok (permission_of (find_permission permission_manage s.permissions)) _ h in
    let (target, there, h₂) = >>=-eq-ok (user_of (find_user id s.users)) _ h₁ in
    let (safe, h₃) =
      refuse-eq-ok
        (count_managers p.id (with_status id false now s).users (with_status id false now s).grants
          == 0)
        last_access_manager _ h₂ in
    let (rows, logged, h₄) =
      >>=-eq-ok (append encode (status_event requester id target.is_active false now) s.audit_rows)
        _ h₃ in
    let change : User → User = λ w. record w { is_active = false; updated_at = now } in
    let same : (with_status id false now s).users ≡ t.users =
      ap (λ x. x.users) (ok-injective _ t h₄) in
    changed_inactive (find_user id s.users) change u (λ w. refl)
      (sym (find_user-update id change s.users (λ w. refl)) ∙ ap (find_user id) same ∙ found)

-- After a deactivation of a user that succeeds, no hash resolves to that user.
pub set_active-resolve_session :
    (encode : Metadata → Text) (requester : Identity) (id now : ℕ) (s t : Tables) (hash : Text)
    (later : ℕ) (p : Principal)
    → set_active encode requester id false now s ≡ ok t
    → (resolve_session hash later t).1 ≡ ok p
    → (p.user_id == id) ≡ false
unfolding set_active principal_of
set_active-resolve_session encode requester id now s t hash later p h resolved =
    let (known, h₁) = refuse-eq-ok (id == 0) user_not_found _ h in
    let o = resolve_session-Origin hash later t p resolved in
    let his : p.user_id ≡ o.user.id = ap (λ q. q.user_id) o.principal in
    let its = find_user-id o.session.user_id t.users o.user o.known in
    elim (Bool-cases (p.user_id == id)) [
      | inl e ↦
          let as_id : o.session.user_id ≡ id = ground (arith, his, its, e) in
          inactive-active o.user
            (set_user_active-inactive encode requester id now s t o.user h₁
              (subst (λ n. find_user n t.users ≡ some o.user) as_id o.known))
            o.active
      | inr e ↦ e
    ]
