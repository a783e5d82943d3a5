-- ===== src/Login/Lockout/Blocked.antt =====
-- What a lock does, and when there is one.
use new_trs.Common.{
  ℕ, suc, ◌+◌, ◌<◌, ◌≡◌, refl, ap, ◌∙◌, true, false, not, ◌&&◌, leb, lt→ltb, Bool-cases, List, [],
  ◌∷◌, some, length, keep, inl, inr,
}
use new_trs.Common.Text.{Text, eq_text, eq_text_refl}
use new_trs.Login.Lockout.{
  LockoutConfig, LoginFailure, LoginFailures, max_login_failure_entries, is_after, is_known,
  or_zero, is_due, is_expired, cleanup, lookup, blocked, current, counted, fail,
}

lookup-keep :
    (config : LockoutConfig) (now : ℕ) (name : Text) (entries : List (Text × LoginFailure))
    (e : LoginFailure)
    → is_expired config now e ≡ false
    → lookup name entries ≡ some e
    → lookup name (keep (λ p. not (is_expired config now p.1)) entries) ≡ some e
unfolding lookup
lookup-keep config now name [] e live h = cc
lookup-keep config now name ((key, x) ∷ rest) e live h = elim (Bool-cases (eq_text key name)) [
  | inl m ↦
      let same : x ≡ e = some-injective x e (rw (m, lookup) at h) in
      let stays : is_expired config now x ≡ false = ap (is_expired config now) same ∙ live in
      rw (stays, m, same) refl
  | inr m ↦
      let later = lookup-keep config now name rest e live (rw (m, lookup) at h) in
      elim (Bool-cases (is_expired config now x)) [ inl t ↦ rw t later | inr t ↦ rw (t, m) later ]
]
  where
    some-injective : (a b : LoginFailure) → some a ≡ some b → a ≡ b
    some-injective a b h = cc

lookup-cleanup :
    (config : LockoutConfig) (now t : ℕ) (name : Text) (f : LoginFailures) (e : LoginFailure)
    → lookup name f.entries ≡ some e
    → e.locked_until ≡ some t
    → now < t
    → lookup name (cleanup config now f).entries ≡ some e
unfolding cleanup is_expired
lookup-cleanup config now t name f e h l before =
    let live : is_expired config now e ≡ false = simp (l, lt→ltb now t before) in
    elim (Bool-cases (is_due config now f.last_cleanup)) [
      | inl d ↦ simp (d, lookup-keep config now name f.entries e live h)
      | inr d ↦ simp (d, h)
    ]

-- Before the lock of a user name ends, blocked says so, and neither blocked nor a further failure of
-- the name changes its entry.
blocked-locked :
    (config : LockoutConfig) (now t : ℕ) (name : Text) (f : LoginFailures) (e : LoginFailure)
    → lookup name f.entries ≡ some e
    → e.locked_until ≡ some t
    → now < t
    → ((blocked config name now f).1 ≡ true)
      × (lookup name (blocked config name now f).0.entries ≡ some e)
      × (lookup name (fail config name now f).entries ≡ some e)
unfolding blocked fail
blocked-locked config now t name f e h l before =
    let there = lookup-cleanup config now t name f e h l before in
    let open_lock = lt→ltb now t before in
    (simp (there, l, open_lock), simp (there, l, open_lock), simp (there, l, open_lock))

-- A failure that is not ignored, and that reaches the maximum of the configuration, blocks the user
-- name from then on for the time of the lockout.
pub fail-blocked :
    (config : LockoutConfig) (now later : ℕ) (name : Text) (f : LoginFailures)
    → is_after (or_zero (lookup name (cleanup config now f).entries)).locked_until now ≡ false
    → (not (is_known (lookup name (cleanup config now f).entries))
        && leb max_login_failure_entries (length (cleanup config now f).entries))
      ≡ false
    → leb config.max_failures
        (suc (current config now (or_zero (lookup name (cleanup config now f).entries))).count)
      ≡ true
    → later < now + config.lockout
    → (blocked config name later (fail config name now f)).1 ≡ true
unfolding fail counted lookup
fail-blocked config now later name f unlocked room reached before =
    let e = current config now (or_zero (lookup name (cleanup config now f).entries)) in
    let locked : LoginFailure = record e {
      count = suc e.count;
      locked_until = some (now + config.lockout);
    } in
    (blocked-locked config later (now + config.lockout) name (fail config name now f) locked
      (simp (unlocked, room, reached, eq_text_refl name)) refl before).0
