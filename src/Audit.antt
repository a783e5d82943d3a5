-- ===== src/Audit.antt =====
-- internal/audit/audit.go: events, and the rows that Append writes. A time of 0 is the zero time. The
-- JSON of a metadata record is an argument; columns are lists of rows, of which the newest is first.
-- An executor that fails is left out.
use new_trs.Common.{
  ℕ, Bool, true, false, not, ◌&&◌, ◌||◌, ltb, ◌==◌, if◌then◌else◌, List, [], ◌∷◌, Option, none,
  some, length, Result, ok, refuse, ◌>>◌, ◌>>=◌, foreign,
}
use new_trs.Common.Text.{Text, codes, eq_text, contains, is_empty, trim_space, has_prefix}

-- An action is its text, as rows of older versions may hold others than those below.
abbrev pub Action : Type 0
Action = Text

pub known_actions : List Action
known_actions =
    codes "auth.login.success"
    ∷ codes "auth.login.failed"
    ∷ codes "auth.logout"
    ∷ codes "auth.registration"
    ∷ codes "impersonation.started"
    ∷ codes "impersonation.stopped"
    ∷ codes "user.created"
    ∷ codes "user.profile_updated"
    ∷ codes "user.role_changed"
    ∷ codes "user.activated"
    ∷ codes "user.deactivated"
    ∷ codes "user.auto_provisioned"
    ∷ codes "user.permissions_updated"
    ∷ codes "access.bootstrap"
    ∷ codes "user.password_reset"
    ∷ codes "role.created"
    ∷ codes "role.updated"
    ∷ codes "role.deleted"
    ∷ codes "role.permissions_updated"
    ∷ codes "admin.bootstrap"
    ∷ codes "loan.inquiry"
    ∷ codes "api.loan_lookup"
    ∷ codes "reporting.generate"
    ∷ codes "lps.generate"
    ∷ codes "snapshot.refresh.started"
    ∷ codes "snapshot.refresh.succeeded"
    ∷ codes "snapshot.refresh.failed"
    ∷ []

unfoldable pub known_action : Action → Bool
unfolding known_actions
known_action action = contains action known_actions

pub record Identity : Type 0 where
  pub user_id : ℕ
  pub username : Text

pub record Attribution : Type 0 where
  pub actor : Option Identity
  pub effective : Option Identity
  pub system_actor : Text

pub data Metadata : Type 0 where
  role_change : Text → Text → Metadata
  status_change : Text → Text → Metadata
  permissions_updated : List Text → List Text → Metadata
  impersonation_started : Text → Metadata
  login_failed : Text → Metadata
  loan_inquiry : Text → Text → Text → Metadata
  api_loan_lookup : Text → Text → Text → Text → Text → Metadata
  reporting : Text → ℕ → ℕ → Metadata
  lps : Text → Text → ℕ → Metadata
  snapshot_refresh : Text → ℕ → Text → Metadata

pub record Event : Type 0 where
  pub attribution : Attribution
  pub action : Action
  pub resource : Text
  pub resource_id : ℕ
  pub metadata : Option Metadata
  pub created_at : ℕ

pub record AuditRow : Type 0 where
  pub actor_id : Option ℕ
  pub actor_username : Option Text
  pub effective_id : Option ℕ
  pub effective_username : Option Text
  pub action : Action
  pub resource : Option (Text × ℕ)
  pub metadata : Option Text
  pub created_at : ℕ

abbrev pub max_metadata_bytes : ℕ
max_metadata_bytes = 65536

abbrev pub resource_user : Text
resource_user = codes "user"

abbrev pub resource_role : Text
resource_role = codes "role"

unfoldable pub invalid_identity : Option Identity → Bool
invalid_identity none = false
invalid_identity (some i) = (i.user_id == 0) || is_empty (trim_space i.username)

abbrev pub is_given {ℓ} : {A : Type ℓ} → Option A → Bool
is_given none = false
is_given (some a) = true

abbrev pub differ : Bool → Bool → Bool
differ true b = not b
differ false b = b

unfoldable pub encode_metadata : (Metadata → Text) → Option Metadata → Result (Option Text)
encode_metadata encode none = ok none
encode_metadata encode (some m) = do
  refuse (ltb max_metadata_bytes (length (encode m))) foreign
  ok (some (encode m))

abbrev pub identity_id : Option Identity → Option ℕ
identity_id none = none
identity_id (some i) = some i.user_id

abbrev pub identity_name : Option Identity → Option Text
identity_name none = none
identity_name (some i) = some i.username

unfoldable pub row_of : Event → Option Text → AuditRow
row_of e metadata = record {
  actor_id = identity_id e.attribution.actor;
  actor_username =
      if is_empty e.attribution.system_actor
      then identity_name e.attribution.actor
      else some e.attribution.system_actor;
  effective_id = identity_id e.attribution.effective;
  effective_username = identity_name e.attribution.effective;
  action = e.action;
  resource = if is_empty e.resource then none else some (e.resource, e.resource_id);
  metadata = metadata;
  created_at = e.created_at;
}

unfoldable pub invalid_system_actor : Attribution → Bool
invalid_system_actor a =
    not (is_empty a.system_actor)
    && (not (has_prefix (codes "system:") a.system_actor)
        || is_given a.actor
        || is_given a.effective)

unfoldable pub append : (Metadata → Text) → Event → List AuditRow → Result (List AuditRow)
append encode e rows = do
  refuse (not (known_action e.action)) foreign
  refuse (invalid_identity e.attribution.actor) foreign
  refuse (invalid_identity e.attribution.effective) foreign
  refuse (invalid_system_actor e.attribution) foreign
  refuse (differ (is_empty e.resource) (e.resource_id == 0)) foreign
  refuse
      (not (is_empty e.resource)
        && not (eq_text e.resource resource_user)
        && not (eq_text e.resource resource_role))
      foreign
  refuse (e.created_at == 0) foreign
  metadata ← encode_metadata encode e.metadata
  ok (row_of e metadata ∷ rows)
