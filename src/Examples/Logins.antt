-- ===== src/Examples/Logins.antt =====
-- A user name that fails once where one failure is too many.
use new_trs.Common.{◌≡◌, refl, true, [], none, some, arith, ◌∷◌}
use new_trs.Common.Text.{codes, eq_text}
use new_trs.Login.Lockout.{
  LockoutConfig, LoginFailure, LoginFailures, is_due, cleanup, lookup, blocked, current, fail,
}
use new_trs.Login.Lockout.Blocked.{fail-blocked}

abbrev strict : LockoutConfig
strict = record { window = 100; max_failures = 1; lockout = 50 }

abbrev nobody : LoginFailures
nobody = record { entries = []; last_cleanup = none }

abbrev locked_entry : LoginFailure
locked_entry = record { count = 1; first = some 10; locked_until = some 60 }

abbrev one_locked : LoginFailures
one_locked = record { entries = (codes "ana", locked_entry) ∷ []; last_cleanup = some 10 }

fail-blocked_example :
    (blocked strict (codes "ana") 20 (fail strict (codes "ana") 10 nobody)).1 ≡ true
unfolding lookup eq_text cleanup is_due current
fail-blocked_example = fail-blocked strict 10 20 (codes "ana") nobody refl refl refl (omega arith)
