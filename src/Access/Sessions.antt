-- ===== src/Access/Sessions.antt =====
-- internal/auth: the repository of sessions.
use new_trs.Common.{
  ℕ, suc, Bool, true, false, not, ltb, leb, ◌==◌, if◌then◌else◌, List, [], ◌∷◌, Option, none, some,
  length, keep, replicate, Result, ok, err, refuse, ◌>>◌, session_not_found, foreign,
}
use new_trs.Common.Text.{Text, eq_text}
use new_trs.Access.Tables.{Session, Tables}

pub record CreateSessionParams : Type 0 where
  pub user_id : ℕ
  pub token_hash : Text
  pub remember_me : Bool
  pub expires_at : ℕ
  pub last_seen_at : ℕ

-- The zero value of [32]byte.
abbrev pub no_hash : Text
no_hash = replicate 32 0

unfoldable pub find_hash : Text → List Session → Option Session
find_hash hash [] = none
find_hash hash (s ∷ rest) = if eq_text s.token_hash hash then some s else find_hash hash rest

abbrev pub is_stored : Option Session → Bool
is_stored none = false
is_stored (some s) = true

abbrev pub new_session : CreateSessionParams → ℕ → ℕ → Session
new_session p now id = record {
  id = id;
  user_id = p.user_id;
  token_hash = p.token_hash;
  remember_me = p.remember_me;
  expires_at = p.expires_at;
  last_seen_at = p.last_seen_at;
  created_at = now;
  updated_at = now;
}

unfoldable pub create_session : CreateSessionParams → ℕ → Tables → Result (Session × Tables)
create_session p now t = do
  refuse (p.user_id == 0) foreign
  refuse (eq_text p.token_hash no_hash) foreign
  refuse (p.last_seen_at == 0) foreign
  refuse (not (ltb now p.expires_at)) foreign
  refuse (is_stored (find_hash p.token_hash t.sessions)) foreign
  let created = new_session p now t.next_id
  ok (created, record t { sessions = created ∷ t.sessions; next_id = suc t.next_id })

unfoldable pub valid_session : ℕ → Option Session → Result Session
valid_session now none = err session_not_found
valid_session now (some s) = do
  refuse (not (ltb now s.expires_at)) session_not_found
  refuse (not (length s.token_hash == 32)) foreign
  ok s

-- The row with the hash, if it has not expired; a hash that is not of 32 bytes is refused.
unfoldable pub find_valid_session : Text → ℕ → Tables → Result Session
find_valid_session hash now t = valid_session now (find_hash hash t.sessions)

unfoldable pub touch : ℕ → ℕ → List Session → List Session
touch id now [] = []
touch id now (s ∷ rest) =
    if s.id == id
    then record s { last_seen_at = now; updated_at = now } ∷ rest
    else s ∷ touch id now rest

unfoldable pub update_last_seen_at : ℕ → ℕ → Tables → Tables
update_last_seen_at id now t = record t { sessions = touch id now t.sessions }

unfoldable pub revoke : Text → Tables → Tables
revoke hash t = record t { sessions = keep (λ s. not (eq_text s.token_hash hash)) t.sessions }

unfoldable pub revoke_all_for_user : ℕ → Tables → Tables
revoke_all_for_user user t = record t { sessions = keep (λ s. not (s.user_id == user)) t.sessions }

-- The tables after, and the number of rows deleted.
unfoldable pub delete_expired : ℕ → Tables → Tables × ℕ
delete_expired now t = (
  record t { sessions = keep (λ s. ltb now s.expires_at) t.sessions },
  length (keep (λ s. leb s.expires_at now) t.sessions),
)
