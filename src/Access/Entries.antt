-- ===== src/Access/Entries.antt =====
-- The sessions as a book of tokens, and how the lists of sessions change it.
use new_trs.Common.{
  ℕ, ◌<◌, ltb, ◌≡◌, refl, sym, ◌∙◌, subst, Bool, true, false, not, ◌==◌, if◌then◌else◌, Bool-cases,
  inl, inr, List, [], ◌∷◌, Option, none, some, keep, ok,
}
use new_trs.Common.Text.{Text, eq_text, eq_text-eq}
use new_trs.Access.Tables.{Session, Tables}
use new_trs.Access.Sessions.{
  CreateSessionParams, is_stored, find_hash, create_session, touch, update_last_seen_at, revoke,
  revoke_all_for_user, delete_expired,
}

-- What a token stands for.
pub record Entry : Type 0 where
  pub user_id : ℕ
  pub remember_me : Bool
  pub expires_at : ℕ

-- A book forgets the order of the sessions, their ids and when they were seen.
abbrev pub Book : Type 0
Book = Text → Option Entry

abbrev pub entry_of : Session → Entry
entry_of s = record { user_id = s.user_id; remember_me = s.remember_me; expires_at = s.expires_at }

abbrev pub entry : Option Session → Option Entry
entry none = none
entry (some s) = some (entry_of s)

unfoldable pub book : List Session → Book
book sessions hash = entry (find_hash hash sessions)

abbrev those : (Entry → Bool) → Option Entry → Option Entry
those p none = none
those p (some e) = if p e then some e else none

-- What is done to a book, which is what callers of the statements rely on.
pub data Action : Type 0 where
  open_until : (now : ℕ) (hash : Text) (e : Entry) → Action
  close : (hash : Text) → Action
  close_user : (user : ℕ) → Action
  close_expired : (now : ℕ) → Action
  note : Action

-- What an action does: a new entry, which has not expired, for a hash without one; the entry of a hash
-- taken out; the entries of a user taken out; the entries that have expired taken out; nothing.
unfoldable pub BookStep : Action → Book → Book → Type 0
BookStep (open_until now hash e) b c =
    (b hash ≡ none)
    × (now < e.expires_at)
    × ((h : Text) → c h ≡ (if eq_text hash h then some e else b h))
BookStep (close hash) b c = (h : Text) → c h ≡ (if eq_text hash h then none else b h)
BookStep (close_user user) b c = (h : Text) → c h ≡ those (λ e. not (e.user_id == user)) (b h)
BookStep (close_expired now) b c = (h : Text) → c h ≡ those (λ e. ltb now e.expires_at) (b h)
BookStep note b c = (h : Text) → c h ≡ b h

-- What the parameters of a new session ask for.
abbrev pub asked : CreateSessionParams → Entry
asked p = record { user_id = p.user_id; remember_me = p.remember_me; expires_at = p.expires_at }

-- The statements on the sessions, each as the action that it stands for.
pub data SessionStep : Action → Tables → Tables → Type 0 where
  created :
      (p : CreateSessionParams) (now : ℕ) (s : Tables) (x : Session) (t : Tables)
      → create_session p now s ≡ ok (x, t)
      → SessionStep (open_until now p.token_hash (asked p)) s t
  seen : (id now : ℕ) (s : Tables) → SessionStep note s (update_last_seen_at id now s)
  revoked : (hash : Text) (s : Tables) → SessionStep (close hash) s (revoke hash s)
  revoked_all :
      (user : ℕ) (s : Tables) → SessionStep (close_user user) s (revoke_all_for_user user s)
  swept : (now : ℕ) (s : Tables) → SessionStep (close_expired now) s ((delete_expired now s).0)

-- A hash is there once.
unfoldable pub IsOnce : List Session → Type 0
IsOnce [] = Unit
IsOnce (s ∷ rest) = (find_hash s.token_hash rest ≡ none) × IsOnce rest

false-true : false ≡ true → ⊥
false-true h = cc

some-none {ℓ} : {A : Type ℓ} (a : A) → some a ≡ none → ⊥
some-none a h = cc

find_hash-keep :
    (p : Session → Bool) (hash : Text) (sessions : List Session)
    → find_hash hash sessions ≡ none
    → find_hash hash (keep p sessions) ≡ none
unfolding find_hash
find_hash-keep p hash [] h = refl
find_hash-keep p hash (s ∷ rest) h = elim (Bool-cases (eq_text s.token_hash hash)) [
  | inl e ↦ absurd (some-none s (rw e at h))
  | inr e ↦ elim (Bool-cases (p s)) [
    | inl k ↦ rw (k, find_hash, e) (find_hash-keep p hash rest (rw e at h))
    | inr k ↦ rw k (find_hash-keep p hash rest (rw e at h))
  ]
]

pub keep-IsOnce :
    (p : Session → Bool) (sessions : List Session) → IsOnce sessions → IsOnce (keep p sessions)
unfolding IsOnce
keep-IsOnce p [] h = tt
keep-IsOnce p (s ∷ rest) h = elim (Bool-cases (p s)) [
  | inl k ↦ rw k (find_hash-keep p s.token_hash rest h.0, keep-IsOnce p rest h.1)
  | inr k ↦ rw k (keep-IsOnce p rest h.1)
]

-- Where hashes are there once, filtering the sessions filters the book.
pub book-keep :
    (p : Session → Bool) (q : Entry → Bool) (hash : Text) (sessions : List Session)
    → ((s : Session) → p s ≡ q (entry_of s))
    → IsOnce sessions
    → book (keep p sessions) hash ≡ those q (book sessions hash)
unfolding book find_hash IsOnce
book-keep p q hash [] same h = refl
book-keep p q hash (s ∷ rest) same h = elim (Bool-cases (eq_text s.token_hash hash)) [
  | inl e ↦ elim (Bool-cases (p s)) [
    | inl k ↦ let k' : q (entry_of s) ≡ true = sym (same s) ∙ k in simp (k, e, k')
    | inr k ↦
        let k' : q (entry_of s) ≡ false = sym (same s) ∙ k in
        let gone =
          find_hash-keep p hash rest
            (subst (λ t. find_hash t rest ≡ none) (eq_text-eq s.token_hash hash e) h.0) in
        simp (k, e, k', gone)
  ]
  | inr e ↦ elim (Bool-cases (p s)) [
    | inl k ↦ rw (k, e) (book-keep p q hash rest same h.1)
    | inr k ↦ rw (k, e) (book-keep p q hash rest same h.1)
  ]
]

not_both : (a b h : Text) → eq_text a b ≡ false → eq_text a h ≡ true → eq_text b h ≡ false
not_both a b h e d = elim (Bool-cases (eq_text b h)) [
  | inl k ↦ absurd (false-true (sym e ∙ subst (λ x. eq_text a x ≡ true) (sym (eq_text-eq b h k)) d))
  | inr k ↦ k
]

pub unstored : (o : Option Session) → is_stored o ≡ false → o ≡ none
unstored none h = refl
unstored (some s) h = absurd (false-true (sym h))

-- Revoking a hash takes it out of the book, and nothing else.
pub book-revoke :
    (hash h : Text) (sessions : List Session)
    → book (keep (λ s. not (eq_text s.token_hash hash)) sessions) h
      ≡ (if eq_text hash h then none else book sessions h)
unfolding book find_hash
book-revoke hash h [] = elim (Bool-cases (eq_text hash h)) [ inl e ↦ rw e refl | inr e ↦ rw e refl ]
book-revoke hash h (s ∷ rest) =
    let later = book-revoke hash h rest in
    elim (Bool-cases (eq_text s.token_hash hash)) [
      | inl e ↦ elim (Bool-cases (eq_text hash h)) [
        | inl d ↦ simp (e, d) (rw d at later)
        | inr d ↦
            let other : eq_text s.token_hash h ≡ false =
              subst (λ t. eq_text t h ≡ false) (sym (eq_text-eq s.token_hash hash e)) d in
            simp (e, d, other) (rw d at later)
      ]
      | inr e ↦ elim (Bool-cases (eq_text s.token_hash h)) [
        | inl d ↦
            let other : eq_text hash h ≡ false = not_both s.token_hash hash h e d in
            simp (e, d, other)
        | inr d ↦ simp (e, d) later
      ]
    ]

pub find_hash-touch :
    (id now : ℕ) (hash : Text) (sessions : List Session)
    → entry (find_hash hash (touch id now sessions)) ≡ entry (find_hash hash sessions)
unfolding find_hash touch
find_hash-touch id now hash [] = refl
find_hash-touch id now hash (s ∷ rest) = elim (Bool-cases (s.id == id)) [
  | inl e ↦ elim (Bool-cases (eq_text s.token_hash hash)) [
    | inl d ↦ simp (e, d)
    | inr d ↦ simp (e, d)
  ]
  | inr e ↦ elim (Bool-cases (eq_text s.token_hash hash)) [
    | inl d ↦ simp (e, d)
    | inr d ↦ simp (e, d) (find_hash-touch id now hash rest)
  ]
]

pub entry-none : (o : Option Session) → entry o ≡ none → o ≡ none
entry-none none h = refl
entry-none (some s) h = absurd (some-none (entry_of s) h)
