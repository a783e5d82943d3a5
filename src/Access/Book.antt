-- ===== src/Access/Book.antt =====
-- The sessions as a book of tokens: what the statements of internal/auth/repository.go do to it.
use new_trs.Common.{
  ℕ, arith, ◌≡◌, refl, ap, ◌∙◌, subst, Bool, true, false, not, ◌==◌, if◌then◌else◌, Bool-cases, inl,
  inr, List, [], ◌∷◌, Option, some, ltb, ok, foreign, refuse-eq-ok, ok-injective,
}
use new_trs.Common.Text.{eq_text}
use new_trs.Access.Tables.{Session, Tables}
use new_trs.Access.Sessions.{
  CreateSessionParams, no_hash, is_stored, find_hash, new_session, create_session, touch,
  update_last_seen_at, revoke, revoke_all_for_user, delete_expired,
}
use new_trs.Access.Entries.{
  created, seen, revoked, revoked_all, swept, entry_of, entry, Action, open_until, asked, book,
  BookStep, SessionStep, IsOnce, keep-IsOnce, book-keep, unstored, book-revoke, find_hash-touch,
  entry-none,
}

touch-IsOnce :
    (id now : ℕ) (sessions : List Session) → IsOnce sessions → IsOnce (touch id now sessions)
unfolding IsOnce touch
touch-IsOnce id now [] h = tt
touch-IsOnce id now (s ∷ rest) h = elim (Bool-cases (s.id == id)) [
  | inl e ↦ rw e h
  | inr e ↦ rw e (
    entry-none _ (find_hash-touch id now s.token_hash rest ∙ ap entry h.0),
    touch-IsOnce id now rest h.1,
  )
]

entry-if :
    (c : Bool) (x : Session) (o : Option Session)
    → entry (if c then some x else o) ≡ (if c then some (entry_of x) else entry o)
entry-if true x o = refl
entry-if false x o = refl

created-refines :
    (p : CreateSessionParams) (now : ℕ) (s : Tables) (x : Session) (t : Tables)
    → create_session p now s ≡ ok (x, t)
    → IsOnce s.sessions
    → IsOnce t.sessions
      × BookStep (open_until now p.token_hash (asked p)) (book s.sessions) (book t.sessions)
unfolding create_session IsOnce book find_hash BookStep
created-refines p now s x t h once =
    let (c₁, h₁) = refuse-eq-ok (p.user_id == 0) foreign _ h in
    let (c₂, h₂) = refuse-eq-ok (eq_text p.token_hash no_hash) foreign _ h₁ in
    let (c₃, h₃) = refuse-eq-ok (p.last_seen_at == 0) foreign _ h₂ in
    let (c₄, h₄) = refuse-eq-ok (not (ltb now p.expires_at)) foreign _ h₃ in
    let (c₅, h₅) = refuse-eq-ok (is_stored (find_hash p.token_hash s.sessions)) foreign _ h₄ in
    let fresh = unstored (find_hash p.token_hash s.sessions) c₅ in
    let made = new_session p now s.next_id in
    subst
      (λ y.
        IsOnce y.sessions
        × BookStep (open_until now p.token_hash (asked p)) (book s.sessions) (book y.sessions))
      (ap (λ q. q.1) (ok-injective _ (x, t) h₅))
      (
        (fresh, once),
        (
          ap entry fresh,
          ground arith,
          λ h. entry-if (eq_text p.token_hash h) made (find_hash h s.sessions),
        ),
      )

-- Where each hash is there once, a statement on the sessions leaves it so, and does to the book of
-- tokens the one thing that it is for. Creating a session enters its hash, which was not there, with the
-- user and the expiry asked for, which is later than now; revoking takes out the hash; revoking all of a
-- user takes out the entries of that user; the sweep takes out those that do not expire after now; and
-- the update of the last use changes nothing. All other entries stay.
pub SessionStep-BookStep :
    (action : Action) (s t : Tables)
    → SessionStep action s t
    → IsOnce s.sessions
    → IsOnce t.sessions × BookStep action (book s.sessions) (book t.sessions)
unfolding update_last_seen_at revoke revoke_all_for_user delete_expired book BookStep
SessionStep-BookStep _ _ _ (created p now s x t h) once = created-refines p now s x t h once
SessionStep-BookStep _ _ _ (seen id now s) once =
    (touch-IsOnce id now s.sessions once, λ h. find_hash-touch id now h s.sessions)
SessionStep-BookStep _ _ _ (revoked hash s) once =
    (keep-IsOnce _ s.sessions once, λ h. book-revoke hash h s.sessions)
SessionStep-BookStep _ _ _ (revoked_all user s) once = (
  keep-IsOnce _ s.sessions once,
  λ h. book-keep _ (λ e. not (e.user_id == user)) h s.sessions (λ x. refl) once,
)
SessionStep-BookStep _ _ _ (swept now s) once = (
  keep-IsOnce _ s.sessions once,
  λ h. book-keep _ (λ e. ltb now e.expires_at) h s.sessions (λ x. refl) once,
)
