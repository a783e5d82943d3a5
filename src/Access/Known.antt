-- ===== src/Access/Known.antt =====
-- A session that a login starts resolves to its user.
use new_trs.Common.{
  ℕ, suc, ◌<◌, ◌≡◌, refl, ap, ◌∙◌, subst, true, false, not, ◌==◌, Bool-cases, List, [], ◌∷◌, Option,
  none, some, inl, inr, length, Result, ok, err, foreign, >>=-eq-ok, refuse-eq-ok, ok-injective,
  user_not_found, username_taken, inactive_user, ltb, arith,
}
use new_trs.Common.Text.{Text, eq_text, eq_text_refl, trim_space}
use new_trs.Common.Errors.{error_code, is_error}
use new_trs.Access.Tables.{User, Session, Tables, find_user, find_username}
use new_trs.Access.Users.{
  Provided, CreateParams, new_user, create_user, user_of, find_by_username, found_user,
  created_user, provide_user, normalize_username, validate_username, validate_name,
  update_last_login_at,
}
use new_trs.Access.Sessions.{
  CreateSessionParams, no_hash, is_stored, new_session, create_session, find_hash, valid_session,
  find_valid_session,
}
use new_trs.Access.Managers.{IsDescending}
use new_trs.Access.Resolved.{changed, some-injective, err-ok, find_user-update}
use new_trs.Access.Login.{
  AuthService, LoginInput, LoginResult, session_params, start_session, principal_of, resolve_user,
  resolve_found, resolve_session,
}

found_first : (u : User) (rest : List User) → find_user u.id (u ∷ rest) ≡ some u
unfolding find_user
found_first u rest = let same : (u.id == u.id) ≡ true = ground arith in simp same

-- The user is the one that its id finds.
abbrev pub IsKnown : Provided → Type 0
IsKnown p = find_user p.user.id p.tables.users ≡ some p.user

find_username-find_user :
    (b : ℕ) (name : Text) (users : List User) (u : User)
    → IsDescending b users
    → find_username name users ≡ some u
    → (find_user u.id users ≡ some u) × (u.id < b)
unfolding find_username find_user IsDescending
find_username-find_user b name [] u d h = cc
find_username-find_user b name (v ∷ rest) u d h = elim (Bool-cases (eq_text v.username name)) [
  | inl e ↦
      let same : v ≡ u = some-injective v u (rw e at h) in
      subst (λ w. (find_user w.id (v ∷ rest) ≡ some w) × (w.id < b)) same (found_first v rest, d.0)
  | inr e ↦
      let (found, below) = find_username-find_user v.id name rest u d.1 (rw e at h) in
      let other : (v.id == u.id) ≡ false = ground (arith, below) in
      (simp (other, found), omega (arith, below, d.0))
]

user_of-some : (o : Option User) (u : User) → user_of o ≡ ok u → o ≡ some u
unfolding user_of
user_of-some none u h = err-ok _ u h
user_of-some (some v) u h = ap some (ok-injective v u h)

found_by_name :
    (username : Text) (s : Tables) (r : Result User) (p : Provided)
    → IsDescending s.next_id s.users
    → ((u : User) → r ≡ ok u → find_by_username username s ≡ ok u)
    → found_user s r ≡ ok p
    → IsKnown p
unfolding found_user find_by_username
found_by_name username s (err e) p d k h = err-ok e p h
found_by_name username s (ok u) p d k h =
    let (v, valid, h₁) = >>=-eq-ok (validate_username (normalize_username username)) _ (k u refl) in
    let found = user_of-some _ u h₁ in
    subst IsKnown (ok-injective _ p h)
      (find_username-find_user s.next_id (normalize_username username) s.users u d found).0

create_user-IsKnown :
    (params : CreateParams) (now : ℕ) (s t : Tables) (u : User)
    → create_user params now s ≡ ok (u, t)
    → find_user u.id t.users ≡ some u
unfolding create_user
create_user-IsKnown params now s t u h =
    let (v, c₁, h₁) = >>=-eq-ok (validate_username (normalize_username params.username)) _ h in
    let (w, c₂, h₂) = >>=-eq-ok (validate_name (trim_space params.name)) _ h₁ in
    let (c₃, h₃) = refuse-eq-ok _ username_taken _ h₂ in
    subst (λ q. find_user q.0.id q.1.users ≡ some q.0) (ok-injective _ (u, t) h₃)
      (found_first (new_user params now s.next_id) s.users)

created_user-IsKnown :
    (username : Text) (s : Tables) (r : Result (User × Tables)) (p : Provided)
    → IsDescending s.next_id s.users
    → ((u : User) (t : Tables) → r ≡ ok (u, t) → find_user u.id t.users ≡ some u)
    → created_user username s r ≡ ok p
    → IsKnown p
unfolding created_user
created_user-IsKnown username s (ok (u, t)) p d k h =
    subst IsKnown (ok-injective _ p h) (k u t refl)
created_user-IsKnown username s (err e) p d k h =
    elim (Bool-cases (is_error e (error_code username_taken))) [
      | inl b ↦
          found_by_name username s (find_by_username username s) p d (λ u r. r)
            (rw (b, created_user) at h)
      | inr b ↦ err-ok e p (rw (b, created_user) at h)
    ]

pub provide_user-IsKnown :
    (username : Text) (now : ℕ) (s : Tables) (r : Result User) (p : Provided)
    → IsDescending s.next_id s.users
    → ((u : User) → r ≡ ok u → find_by_username username s ≡ ok u)
    → provide_user username now s s r ≡ ok p
    → IsKnown p
unfolding provide_user
provide_user-IsKnown username now s (ok u) p d k h = found_by_name username s (ok u) p d k h
provide_user-IsKnown username now s (err e) p d k h =
    elim (Bool-cases (is_error e (error_code user_not_found))) [
      | inl b ↦
          created_user-IsKnown username s _ p d
            (λ u t.
              create_user-IsKnown
                (record { username = username; name = username; is_active = true }) now s t u)
            (rw (b, provide_user) at h)
      | inr b ↦ err-ok e p (rw (b, provide_user) at h)
    ]

front_session-resolve_session :
    (x : Session) (rest : List Session) (v : User) (later : ℕ) (t : Tables)
    → t.sessions ≡ x ∷ rest
    → length x.token_hash ≡ 32
    → later < x.expires_at
    → find_user x.user_id t.users ≡ some v
    → v.is_active ≡ true
    → (resolve_session x.token_hash later t).1 ≡ ok (principal_of x v t)
unfolding resolve_session resolve_found resolve_user find_valid_session valid_session find_hash
front_session-resolve_session x rest v later t front size early found active =
    let in_time : ltb later x.expires_at ≡ true = ground (arith, early) in
    let sized : (length x.token_hash == 32) ≡ true = ground (arith, size) in
    simp (front, eq_text_refl x.token_hash, in_time, sized, found, active)

created_tables : CreateSessionParams → ℕ → Tables → Tables
created_tables params now s = record s {
  sessions = new_session params now s.next_id ∷ s.sessions;
  next_id = suc s.next_id;
}

create_session-eq :
    (params : CreateSessionParams) (now : ℕ) (s : Tables) (c : Session × Tables)
    → create_session params now s ≡ ok c
    → (new_session params now s.next_id, created_tables params now s) ≡ c
unfolding create_session created_tables
create_session-eq params now s c h =
    let (c₁, g₁) = refuse-eq-ok (params.user_id == 0) foreign _ h in
    let (c₂, g₂) = refuse-eq-ok (eq_text params.token_hash no_hash) foreign _ g₁ in
    let (c₃, g₃) = refuse-eq-ok (params.last_seen_at == 0) foreign _ g₂ in
    let (c₄, g₄) = refuse-eq-ok (not (ltb now params.expires_at)) foreign _ g₃ in
    let (c₅, g₅) = refuse-eq-ok (is_stored (find_hash params.token_hash s.sessions)) foreign _ g₄ in
    ok-injective _ c g₅

abbrev started_session : AuthService → LoginInput → ℕ → Provided → Text → LoginResult × Tables
started_session a i now p token = (
  record {
    raw_token = token;
    session = new_session (session_params a i p.user token now) now p.tables.next_id;
    user = p.user;
    provisioned = p.provisioned;
  },
  update_last_login_at p.user.id now
      (created_tables (session_params a i p.user token now) now p.tables),
)

start_session-eq :
    (a : AuthService) (i : LoginInput) (now : ℕ) (p : Provided) (r : LoginResult × Tables)
    → start_session a i now p ≡ ok r
    → (token : Text) × (p.user.is_active ≡ true) × (started_session a i now p token ≡ r)
unfolding start_session
start_session-eq a i now p r h =
    let (active, h₁) = refuse-eq-ok (not p.user.is_active) inactive_user _ h in
    let (token, drawn, h₂) = >>=-eq-ok a.generate_token _ h₁ in
    let (c, made, h₃) =
      >>=-eq-ok (create_session (session_params a i p.user token now) now p.tables) _ h₂ in
    let same = create_session-eq _ now p.tables c made in
    let on : p.user.is_active ≡ true = ground (arith, active) in
    (
      token,
      on,
      ap
            (λ d. (
              record {
                raw_token = token;
                session = d.0;
                user = p.user;
                provisioned = p.provisioned;
              },
              update_last_login_at p.user.id now d.1,
            ))
            same
          ∙ ok-injective _ r h₃,
    )

-- The token of the result resolves to the user of the result.
unfoldable pub IsResolved : AuthService → ℕ → LoginResult × Tables → Type 0
IsResolved a later r =
    length (a.hash_token r.0.raw_token) ≡ 32
    → later < r.0.session.expires_at
    → (resolve_session (a.hash_token r.0.raw_token) later r.1).1
      ≡ ok (principal_of r.0.session r.0.user r.1)

started_session-IsResolved :
    (a : AuthService) (i : LoginInput) (now : ℕ) (p : Provided) (token : Text) (later : ℕ)
    → IsKnown p
    → p.user.is_active ≡ true
    → IsResolved a later (started_session a i now p token)
unfolding IsResolved update_last_login_at created_tables session_params principal_of
started_session-IsResolved a i now p token later known active size early =
    let x = (started_session a i now p token).0.session in
    let t = (started_session a i now p token).1 in
    let change : User → User = λ u. record u { last_login_at = some now; updated_at = now } in
    front_session-resolve_session x p.tables.sessions (change p.user) later t refl size early
      (find_user-update p.user.id change p.tables.users (λ u. refl) ∙ ap (changed change) known)
      active

-- The session that is started resolves until it expires.
pub start_session-IsResolved :
    (a : AuthService) (i : LoginInput) (now : ℕ) (p : Provided) (r : LoginResult × Tables)
    (later : ℕ)
    → IsKnown p
    → start_session a i now p ≡ ok r
    → IsResolved a later r
start_session-IsResolved a i now p r later known h =
    let (token, active, same) = start_session-eq a i now p r h in
    subst (IsResolved a later) same (started_session-IsResolved a i now p token later known active)
