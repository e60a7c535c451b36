-- ===== src/Models/Enums.antt =====
-- app/models/enums.py. Two members of a `StrEnum` are equal when they are the same member; the test
-- compares their places in the class.
use multi_tenant_saas.Base.{ℕ, Bool, ◌==◌}

pub data OrgRole : Type 0 where
  owner admin manager member viewer : OrgRole

pub data TaskStatus : Type 0 where
  backlog todo in_progress in_review done : TaskStatus

pub data TaskPriority : Type 0 where
  low medium high urgent : TaskPriority

pub data AuditAction : Type 0 where
  create update delete soft_delete restore : AuditAction

abbrev pub role_index : OrgRole → ℕ
role_index owner = 0
role_index admin = 1
role_index manager = 2
role_index member = 3
role_index viewer = 4

abbrev pub status_index : TaskStatus → ℕ
status_index backlog = 0
status_index todo = 1
status_index in_progress = 2
status_index in_review = 3
status_index done = 4

abbrev pub priority_index : TaskPriority → ℕ
priority_index low = 0
priority_index medium = 1
priority_index high = 2
priority_index urgent = 3

abbrev pub action_index : AuditAction → ℕ
action_index create = 0
action_index update = 1
action_index delete = 2
action_index soft_delete = 3
action_index restore = 4

abbrev pub role_eq : OrgRole → OrgRole → Bool
role_eq a b = role_index a == role_index b

abbrev pub status_eq : TaskStatus → TaskStatus → Bool
status_eq a b = status_index a == status_index b

abbrev pub priority_eq : TaskPriority → TaskPriority → Bool
priority_eq a b = priority_index a == priority_index b

abbrev pub action_eq : AuditAction → AuditAction → Bool
action_eq a b = action_index a == action_index b
