-- ===== src/Audit/Wanted.antt =====
-- What a page of the audit trail should hold, in terms of the filters and the rows alone.
use text.Mathlib.Text.{◌==◌ as str_eq}
use Prim.Native.String.{String}
use multi_tenant_saas.Base.{
  ◌≡◌, refl, Bool, true, ◌&&◌, ◌||◌, Option, none, some, List, ◌==◌, leb, arith, filter, head?,
  Option-cases, inl, inr,
}
use multi_tenant_saas.Models.{Uuid, Timestamp, User, AuditLog, action_eq}
use multi_tenant_saas.Tasks.Listing.{given}
use multi_tenant_saas.Tasks.OffsetPages.{admits, admits_or_null, admits-given, admits_or_null-given}
use multi_tenant_saas.Audit.{
  AuditLogFilterParams, AuditLogResponse, build_criteria, audit_log_response, actor_of, name_of,
  email_of,
}

-- An entity type that is missing or empty admits every record, a missing date every time.
abbrev pub of_type : Option String → String → Bool
of_type none s = true
of_type (some t) s = str_eq s t || str_eq t ""

abbrev pub since : Option Timestamp → Timestamp → Bool
since none t = true
since (some d) t = leb d t

abbrev pub until : Option Timestamp → Timestamp → Bool
until none t = true
until (some d) t = leb t d

-- A record that the listing should hold.
abbrev pub wanted_record : Uuid → AuditLogFilterParams → AuditLog → Bool
wanted_record organization_id filters log =
    since filters.start_date log.timestamp
    && until filters.end_date log.timestamp
    && (log.organization_id == organization_id)
    && of_type filters.entity_type log.entity_type
    && admits ◌==◌ filters.entity_id log.entity_id
    && admits_or_null filters.actor_id log.actor_id
    && admits action_eq filters.action log.action

pub wanted_record-build_criteria :
    (organization_id : Uuid) (filters : AuditLogFilterParams) (log : AuditLog)
    → build_criteria organization_id filters log ≡ wanted_record organization_id filters log
unfolding build_criteria
wanted_record-build_criteria organization_id filters log =
    rw
      (
        of_type-given filters.entity_type,
        admits-given ◌==◌ filters.entity_id log.entity_id,
        admits_or_null-given filters.actor_id log.actor_id,
        admits-given action_eq filters.action log.action,
        since-given filters.start_date,
        until-given filters.end_date,
      )
      (ground arith)
  where
    of_type-given :
        (t : Option String)
        → given t (λ t. str_eq t "" || str_eq log.entity_type t) ≡ of_type t log.entity_type
    of_type-given none = refl
    of_type-given (some t) = ground arith

    since-given :
        (d : Option Timestamp) → given d (λ d. leb d log.timestamp) ≡ since d log.timestamp
    since-given none = refl
    since-given (some d) = refl

    until-given :
        (d : Option Timestamp) → given d (λ d. leb log.timestamp d) ≡ until d log.timestamp
    until-given none = refl
    until-given (some d) = refl

-- What a record shows of the user who acted, if there is one.
abbrev pub shown {ℓ} : {A : Type ℓ} → (User → A) → Option User → Option A
shown field none = none
shown field (some user) = some (field user)

abbrev pub of_actor {ℓ} : {A : Type ℓ} → (User → A) → List User → Option Uuid → Option A
of_actor field users none = none
of_actor field users (some id) = shown field (head? (filter (λ u. u.id == id) users))

-- The record as the answer should show it: its columns, with the name and the address of the actor.
abbrev pub shown_record : List User → AuditLog → AuditLogResponse
shown_record users log = record {
  id = log.id;
  organization_id = log.organization_id;
  actor_id = log.actor_id;
  actor_name = of_actor (λ u. u.full_name) users log.actor_id;
  actor_email = of_actor (λ u. u.email) users log.actor_id;
  entity_type = log.entity_type;
  entity_id = log.entity_id;
  action = log.action;
  before_state = log.before_state;
  after_state = log.after_state;
  ip_address = log.ip_address;
  user_agent = log.user_agent;
  timestamp = log.timestamp;
}

pub shown_record-audit_log_response :
    (users : List User) (log : AuditLog) → audit_log_response users log ≡ shown_record users log
shown_record-audit_log_response users log = rw (name log.actor_id, email log.actor_id) refl
  where
    name :
        (actor : Option Uuid)
        → name_of (actor_of users actor) ≡ of_actor (λ u. u.full_name) users actor
    name none = refl
    name (some id) = elim (Option-cases (head? (filter (λ u. u.id == id) users))) [
      | inl missing ↦ rw missing refl
      | inr (user, found) ↦ rw found refl
    ]

    email :
        (actor : Option Uuid)
        → email_of (actor_of users actor) ≡ of_actor (λ u. u.email) users actor
    email none = refl
    email (some id) = elim (Option-cases (head? (filter (λ u. u.id == id) users))) [
      | inl missing ↦ rw missing refl
      | inr (user, found) ↦ rw found refl
    ]
