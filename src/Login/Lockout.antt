-- ===== src/Login/Lockout.antt =====
-- internal/browserauth/security.go: the count of failed logins of each user name. Times are
-- nanoseconds, the zero time is none; the map is a list of keys and entries, of which the first with
-- a key counts.
pub mod Blocked
use new_trs.Common.{
  ℕ, zero, suc, ◌+◌, ◌≤◌, ◌<◌, ◌≡◌, refl, sym, ap, ◌∙◌, Bool, true, false, not, ◌&&◌, ◌||◌, ltb,
  leb, lt→ltb, ◌==◌, if◌then◌else◌, Bool-cases, List, [], ◌∷◌, Option, none, some, length, keep,
  inl, inr, arith,
}
use new_trs.Common.Text.{Text, eq_text}

pub record LockoutConfig : Type 0 where
  pub window : ℕ
  pub max_failures : ℕ
  pub lockout : ℕ

pub record LoginFailure : Type 0 where
  pub count : ℕ
  pub first : Option ℕ
  pub locked_until : Option ℕ

pub record LoginFailures : Type 0 where
  pub entries : List (Text × LoginFailure)
  pub last_cleanup : Option ℕ

abbrev pub max_login_failure_entries : ℕ
max_login_failure_entries = 10000

-- `t.After(now)`.
abbrev pub is_after : Option ℕ → ℕ → Bool
is_after none now = false
is_after (some t) now = ltb now t

-- `t.Add(d).After(now)`.
abbrev pub is_within : Option ℕ → ℕ → ℕ → Bool
is_within none d now = false
is_within (some t) d now = ltb now (t + d)

abbrev pub is_set : Option ℕ → Bool
is_set none = false
is_set (some t) = true

unfoldable pub smaller : ℕ → ℕ → ℕ
smaller a b = if ltb b a then b else a

-- Whether the last cleanup is so long ago that another one is due.
unfoldable pub is_due : LockoutConfig → ℕ → Option ℕ → Bool
is_due config now none = true
is_due config now (some t) =
    leb (t + smaller (smaller 60000000000 config.window) config.lockout) now

unfoldable pub is_expired : LockoutConfig → ℕ → LoginFailure → Bool
is_expired config now e =
    if is_set e.locked_until
    then not (is_after e.locked_until now)
    else not (is_within e.first config.window now)

unfoldable pub cleanup : LockoutConfig → ℕ → LoginFailures → LoginFailures
cleanup config now f =
    if is_due config now f.last_cleanup
    then record {
      entries = keep (λ p. not (is_expired config now p.1)) f.entries;
      last_cleanup = some now;
    }
    else f

unfoldable pub lookup : Text → List (Text × LoginFailure) → Option LoginFailure
lookup name [] = none
lookup name (p ∷ rest) = if eq_text p.0 name then some p.1 else lookup name rest

abbrev pub or_zero : Option LoginFailure → LoginFailure
or_zero none = record { count = 0; first = none; locked_until = none }
or_zero (some e) = e

abbrev pub is_known : Option LoginFailure → Bool
is_known none = false
is_known (some e) = true

unfoldable pub delete : Text → List (Text × LoginFailure) → List (Text × LoginFailure)
delete name entries = keep (λ p. not (eq_text p.0 name)) entries

unfoldable pub blocked : LockoutConfig → Text → ℕ → LoginFailures → LoginFailures × Bool
blocked config name now f =
    let g = cleanup config now f in
    let e = or_zero (lookup name g.entries) in
    (
      (if is_set e.locked_until && not (is_after e.locked_until now)
          then record g { entries = delete name g.entries }
          else g),
      is_after e.locked_until now,
    )

-- A first failure, one after the window, or one after a lock starts a new count.
unfoldable pub current : LockoutConfig → ℕ → LoginFailure → LoginFailure
current config now e =
    if not (is_set e.first) || not (is_within e.first config.window now) || is_set e.locked_until
    then record { count = 0; first = some now; locked_until = none }
    else e

unfoldable pub counted : LockoutConfig → ℕ → LoginFailure → LoginFailure
counted config now e =
    if leb config.max_failures (suc e.count)
    then record e { count = suc e.count; locked_until = some (now + config.lockout) }
    else record e { count = suc e.count }

unfoldable pub fail : LockoutConfig → Text → ℕ → LoginFailures → LoginFailures
fail config name now f =
    let g = cleanup config now f in
    let found = lookup name g.entries in
    if is_after (or_zero found).locked_until now
    then g
    else if not (is_known found) && leb max_login_failure_entries (length g.entries)
    then g
    else record g {
      entries =
          (name, counted config now (current config now (or_zero found))) ∷ delete name g.entries;
    }

unfoldable pub clear : Text → LoginFailures → LoginFailures
clear name f = record f { entries = delete name f.entries }
