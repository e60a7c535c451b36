-- ===== src/Models/Tables.antt =====
-- The rows of app/models/user.py, organization.py, team.py, project.py, task.py and audit.py, each
-- with the columns of its mixins in app/models/base.py.
use Prim.Native.String.{String}
use multi_tenant_saas.Base.{ℕ, Bool, List, Option}
use multi_tenant_saas.Text.{Text}
use multi_tenant_saas.Models.Enums.{OrgRole, TaskStatus, TaskPriority, AuditAction}

abbrev pub Uuid : Type 0
Uuid = ℕ

abbrev pub Timestamp : Type 0
Timestamp = ℕ

-- Python's `int`; `negsuc n` is the number below 0 by `n` and one more.
pub data ℤ : Type 0 where
  pos negsuc : ℕ → ℤ

pub record User : Type 0 where
  pub id : Uuid
  pub email : Text
  pub hashed_password : Text
  pub full_name : Text
  pub avatar_url : Option Text
  pub is_active : Bool
  pub is_verified : Bool
  pub created_at : Timestamp
  pub updated_at : Timestamp

pub record Organization : Type 0 where
  pub id : Uuid
  pub name : Text
  pub slug : Text
  pub logo_url : Option Text
  pub is_active : Bool
  pub created_at : Timestamp
  pub updated_at : Timestamp

pub record OrganizationMember : Type 0 where
  pub id : Uuid
  pub organization_id : Uuid
  pub user_id : Uuid
  pub role : OrgRole
  pub created_at : Timestamp
  pub updated_at : Timestamp

pub record Team : Type 0 where
  pub id : Uuid
  pub organization_id : Uuid
  pub name : Text
  pub slug : Text
  pub description : Option Text
  pub created_at : Timestamp
  pub updated_at : Timestamp

pub record TeamMember : Type 0 where
  pub id : Uuid
  pub organization_id : Uuid
  pub team_id : Uuid
  pub user_id : Uuid
  pub created_at : Timestamp
  pub updated_at : Timestamp

pub record Project : Type 0 where
  pub id : Uuid
  pub organization_id : Uuid
  pub team_id : Option Uuid
  pub name : Text
  pub key : Text
  pub description : Option Text
  pub is_archived : Bool
  pub version_id : ℕ
  pub created_at : Timestamp
  pub updated_at : Timestamp

pub record Task : Type 0 where
  pub id : Uuid
  pub organization_id : Uuid
  pub project_id : Uuid
  pub parent_id : Option Uuid
  pub reporter_id : Uuid
  pub assignee_id : Option Uuid
  pub title : Text
  pub description : Option Text
  pub status : TaskStatus
  pub priority : TaskPriority
  pub due_date : Option Timestamp
  pub version_id : ℕ
  pub created_at : Timestamp
  pub updated_at : Timestamp
  pub is_deleted : Bool
  pub deleted_at : Option Timestamp

pub record Comment : Type 0 where
  pub id : Uuid
  pub organization_id : Uuid
  pub task_id : Uuid
  pub author_id : Uuid
  pub content : Text
  pub is_edited : Bool
  pub created_at : Timestamp
  pub updated_at : Timestamp

pub record Attachment : Type 0 where
  pub id : Uuid
  pub organization_id : Uuid
  pub task_id : Uuid
  pub uploader_id : Uuid
  pub file_name : Text
  pub file_size : ℤ
  pub content_type : Text
  pub s3_key : Text
  pub created_at : Timestamp
  pub updated_at : Timestamp

-- The values that the services put into the JSON of an audit record.
pub data JsonValue : Type 0 where
  text : Text → JsonValue
  optional_text : Option Text → JsonValue
  status : TaskStatus → JsonValue
  priority : TaskPriority → JsonValue
  flag : Bool → JsonValue
  number : ℕ → JsonValue
  uuid : Uuid → JsonValue

abbrev pub JsonState : Type 0
JsonState = List (String × JsonValue)

pub record AuditLog : Type 0 where
  pub id : Uuid
  pub organization_id : Uuid
  pub actor_id : Option Uuid
  pub entity_type : String
  pub entity_id : Uuid
  pub action : AuditAction
  pub before_state : Option JsonState
  pub after_state : Option JsonState
  pub ip_address : Option Text
  pub user_agent : Option Text
  pub timestamp : Timestamp
