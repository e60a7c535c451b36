-- ===== src/Audit.antt =====
-- The audit trail: app/repositories/audit.py and app/api/v1/endpoints/audit.py. The database sorts
-- by the time alone, so its order of the selected rows is a parameter, which may put records of one
-- time in another order from one query to the next.
pub mod Wanted
pub mod Pages
mod Tests
use Prim.Native.String.{String}
use mathlib.Core.List.{Memᴰ}
use text.Mathlib.Text.{◌==◌ as str_eq}
use multi_tenant_saas.Base.{
  ℕ, suc, ◌+◌, ◌-◌, ◌*◌, ◌/◌, ◌≤◌, ◌≡◌, Bool, true, false, ◌&&◌, ◌||◌, Option, none, some, List, [],
  ◌∷◌, ◌==◌, ltb, leb, if◌then◌else◌, filter, head?, take, drop, length, map, option_is,
}
use multi_tenant_saas.Text.{Text}
use multi_tenant_saas.Models.{
  Db, Uuid, Timestamp, User, AuditLog, AuditAction, action_eq, JsonState,
}
use multi_tenant_saas.Session.{Action, query}
use multi_tenant_saas.Access.{TenantContext}
use multi_tenant_saas.Tasks.Listing.{given}

pub record AuditLogFilterParams : Type 0 where
  pub entity_type : Option String
  pub entity_id : Option Uuid
  pub actor_id : Option Uuid
  pub action : Option AuditAction
  pub start_date : Option Timestamp
  pub end_date : Option Timestamp

pub record AuditLogResponse : Type 0 where
  pub id : Uuid
  pub organization_id : Uuid
  pub actor_id : Option Uuid
  pub actor_name : Option Text
  pub actor_email : Option Text
  pub entity_type : String
  pub entity_id : Uuid
  pub action : AuditAction
  pub before_state : Option JsonState
  pub after_state : Option JsonState
  pub ip_address : Option Text
  pub user_agent : Option Text
  pub timestamp : Timestamp

pub record AuditPage : Type 0 where
  pub items : List AuditLogResponse
  pub total : ℕ
  pub page : ℕ
  pub page_size : ℕ
  pub total_pages : ℕ

abbrev pub NewestFirst : List AuditLog → Type 0
NewestFirst [] = Unit
NewestFirst (a ∷ []) = Unit
NewestFirst (a ∷ b ∷ logs) = (b.timestamp ≤ a.timestamp) × NewestFirst (b ∷ logs)

-- `ORDER BY timestamp DESC` in one query: the same records, each as often as before.
pub record TimestampOrder : Type 0 where
  pub newest_first : List AuditLog → List AuditLog
  pub newest_first-NewestFirst : (logs : List AuditLog) → NewestFirst (newest_first logs)
  pub newest_first-Memᴰ :
      (x : AuditLog) (logs : List AuditLog) → Memᴰ x (newest_first logs) → Memᴰ x logs
  pub length-filter-newest_first :
      (p : AuditLog → Bool) (logs : List AuditLog)
      → length (filter p (newest_first logs)) ≡ length (filter p logs)

-- `AuditLogRepository._build_criteria`; an empty entity type is no filter.
unfoldable pub build_criteria : Uuid → AuditLogFilterParams → AuditLog → Bool
build_criteria organization_id filters log =
    (log.organization_id == organization_id)
    && given filters.entity_type (λ t. str_eq t "" || str_eq log.entity_type t)
    && given filters.entity_id (λ e. log.entity_id == e)
    && given filters.actor_id (option_is log.actor_id)
    && given filters.action (λ a. action_eq log.action a)
    && given filters.start_date (λ d. leb d log.timestamp)
    && given filters.end_date (λ d. leb log.timestamp d)

-- The `joinedload` of the actor.
abbrev pub actor_of : List User → Option Uuid → Option User
actor_of users none = none
actor_of users (some id) = head? (filter (λ u. u.id == id) users)

abbrev pub name_of : Option User → Option Text
name_of none = none
name_of (some user) = some user.full_name

abbrev pub email_of : Option User → Option Text
email_of none = none
email_of (some user) = some user.email

abbrev pub audit_log_response : List User → AuditLog → AuditLogResponse
audit_log_response users log = record {
  id = log.id;
  organization_id = log.organization_id;
  actor_id = log.actor_id;
  actor_name = name_of (actor_of users log.actor_id);
  actor_email = email_of (actor_of users log.actor_id);
  entity_type = log.entity_type;
  entity_id = log.entity_id;
  action = log.action;
  before_state = log.before_state;
  after_state = log.after_state;
  ip_address = log.ip_address;
  user_agent = log.user_agent;
  timestamp = log.timestamp;
}

module _ (order : TimestampOrder) where
  open order use {newest_first}

  -- `AuditLogRepository.list_audit_logs`
  unfoldable pub list_audit_logs :
      Uuid → AuditLogFilterParams → ℕ → ℕ → List AuditLog → List AuditLog × ℕ
  unfolding build_criteria
  list_audit_logs organization_id filters offset limit logs =
      let selected = filter (build_criteria organization_id filters) logs in
      (take limit (drop offset (newest_first selected)), length selected)

  unfoldable pub audit_page : Uuid → AuditLogFilterParams → ℕ → ℕ → Db → AuditPage
  unfolding list_audit_logs
  audit_page organization_id filters page page_size db =
      let (items, total) =
        list_audit_logs organization_id filters ((page - 1) * page_size) page_size db.audit_logs in
      record {
        items = map (audit_log_response db.users) items;
        total = total;
        page = page;
        page_size = page_size;
        total_pages = if ltb 0 total then (total + (page_size - 1)) / page_size else 0;
      }

  -- The handler `query_audit_logs`.
  unfoldable pub query_audit_logs : AuditLogFilterParams → ℕ → ℕ → TenantContext → Action AuditPage
  query_audit_logs filters page page_size ctx =
      query (λ db. audit_page ctx.organization_id filters page page_size db)
