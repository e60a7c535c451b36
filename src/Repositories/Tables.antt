-- ===== src/Repositories/Tables.antt =====
-- The mapped classes of app/models/: keys, foreign keys, unique constraints, column lengths
-- and the widths of integers: a `version_id` is an `Integer` of 32 bits.
use multi_tenant_saas.Base.{
  ℕ, Bool, true, ◌&&◌, not, Option, none, some, ◌==◌, ltb, leb, any, length,
}
use multi_tenant_saas.Text.{Text, text_eq}
use multi_tenant_saas.Models.{
  Db, Uuid, User, Organization, OrganizationMember, Team, TeamMember, Project, Task, Comment,
  Attachment, AuditLog, ℤ, pos, negsuc,
}
use multi_tenant_saas.Repositories.{Model, TenantModel, Deletion}

-- Foreign keys.
module _ (db : Db) where
  abbrev pub has_user : Uuid → Bool
  has_user u = any (λ row. row.id == u) db.users

  abbrev pub has_organization : Uuid → Bool
  has_organization o = any (λ row. row.id == o) db.organizations

  abbrev pub has_team : Uuid → Bool
  has_team t = any (λ row. row.id == t) db.teams

  abbrev pub has_project : Uuid → Bool
  has_project p = any (λ row. row.id == p) db.projects

  abbrev pub has_task : Uuid → Bool
  has_task t = any (λ row. row.id == t) db.tasks

-- A nullable foreign key.
abbrev pub nullable : (Uuid → Bool) → Option Uuid → Bool
nullable has none = true
nullable has (some k) = has k

-- `BigInteger`: from -2 ^ 63 to 2 ^ 63 - 1.
abbrev pub is_big_integer : ℤ → Bool
is_big_integer (pos n) = ltb n 9223372036854775808
is_big_integer (negsuc n) = ltb n 9223372036854775808

-- `String(n)`
abbrev pub fits : ℕ → Text → Bool
fits n t = leb (length t) n

-- A nullable `String(n)`.
abbrev pub fits_or_null : ℕ → Option Text → Bool
fits_or_null n none = true
fits_or_null n (some t) = fits n t

abbrev pub user_table : Model User
user_table = record {
  table = λ db. db.users;
  with_table = λ rows db. record db { users = rows };
  row_id = λ row. row.id;
  valid = λ db row.
      fits 255 row.email
      && fits 255 row.hashed_password
      && fits 100 row.full_name
      && fits_or_null 1024 row.avatar_url;
  is_unique = λ db row. not (any (λ r. text_eq r.email row.email) db.users);
}

abbrev pub organization_table : Model Organization
organization_table = record {
  table = λ db. db.organizations;
  with_table = λ rows db. record db { organizations = rows };
  row_id = λ row. row.id;
  valid = λ db row. fits 100 row.name && fits 100 row.slug && fits_or_null 1024 row.logo_url;
  is_unique = λ db row. not (any (λ r. text_eq r.slug row.slug) db.organizations);
}

abbrev pub member_table : Model OrganizationMember
member_table = record {
  table = λ db. db.members;
  with_table = λ rows db. record db { members = rows };
  row_id = λ row. row.id;
  valid = λ db row. has_organization db row.organization_id && has_user db row.user_id;
  is_unique = λ db row. not (
      any (λ r. (r.organization_id == row.organization_id) && (r.user_id == row.user_id))
        db.members);
}

abbrev pub team_table : Model Team
team_table = record {
  table = λ db. db.teams;
  with_table = λ rows db. record db { teams = rows };
  row_id = λ row. row.id;
  valid =
      λ db row. has_organization db row.organization_id && fits 100 row.name && fits 100 row.slug;
  is_unique = λ db row.
      not
        (any (λ r. (r.organization_id == row.organization_id) && text_eq r.slug row.slug) db.teams);
}

abbrev pub team_model : TenantModel Team
team_model = record {
  base = team_table;
  row_organization = λ row. row.organization_id;
  deletion = none;
}

abbrev pub team_member_table : Model TeamMember
team_member_table = record {
  table = λ db. db.team_members;
  with_table = λ rows db. record db { team_members = rows };
  row_id = λ row. row.id;
  valid = λ db row.
      has_organization db row.organization_id && has_team db row.team_id && has_user db row.user_id;
  is_unique = λ db row.
      not (any (λ r. (r.team_id == row.team_id) && (r.user_id == row.user_id)) db.team_members);
}

abbrev pub project_table : Model Project
project_table = record {
  table = λ db. db.projects;
  with_table = λ rows db. record db { projects = rows };
  row_id = λ row. row.id;
  valid = λ db row.
      has_organization db row.organization_id
      && nullable (has_team db) row.team_id
      && fits 100 row.name
      && fits 10 row.key
      && ltb row.version_id 2147483648;
  is_unique = λ db row.
      not (
        any (λ r. (r.organization_id == row.organization_id) && text_eq r.key row.key) db.projects);
}

abbrev pub project_model : TenantModel Project
project_model = record {
  base = project_table;
  row_organization = λ row. row.organization_id;
  deletion = none;
}

abbrev pub task_table : Model Task
task_table = record {
  table = λ db. db.tasks;
  with_table = λ rows db. record db { tasks = rows };
  row_id = λ row. row.id;
  valid = λ db row.
      has_organization db row.organization_id
      && has_project db row.project_id
      && nullable (has_task db) row.parent_id
      && has_user db row.reporter_id
      && nullable (has_user db) row.assignee_id
      && fits 255 row.title
      && ltb row.version_id 2147483648;
  is_unique = λ db row. true;
}

-- `.values(is_deleted=True, deleted_at=func.now())`; `updated_at` has `onupdate=utc_now`.
abbrev pub task_deletion : Deletion Task
task_deletion = record {
  is_deleted = λ row. row.is_deleted;
  mark_deleted =
      λ now row. record row { is_deleted = true; deleted_at = some now; updated_at = now };
}

abbrev pub task_model : TenantModel Task
task_model = record {
  base = task_table;
  row_organization = λ row. row.organization_id;
  deletion = some task_deletion;
}

abbrev pub comment_table : Model Comment
comment_table = record {
  table = λ db. db.comments;
  with_table = λ rows db. record db { comments = rows };
  row_id = λ row. row.id;
  valid = λ db row.
      has_organization db row.organization_id
      && has_task db row.task_id
      && has_user db row.author_id;
  is_unique = λ db row. true;
}

abbrev pub comment_model : TenantModel Comment
comment_model = record {
  base = comment_table;
  row_organization = λ row. row.organization_id;
  deletion = none;
}

abbrev pub attachment_table : Model Attachment
attachment_table = record {
  table = λ db. db.attachments;
  with_table = λ rows db. record db { attachments = rows };
  row_id = λ row. row.id;
  valid = λ db row.
      has_organization db row.organization_id
      && has_task db row.task_id
      && has_user db row.uploader_id
      && fits 255 row.file_name
      && fits 100 row.content_type
      && fits 1024 row.s3_key
      && is_big_integer row.file_size;
  is_unique = λ db row. true;
}

abbrev pub attachment_model : TenantModel Attachment
attachment_model = record {
  base = attachment_table;
  row_organization = λ row. row.organization_id;
  deletion = none;
}

abbrev pub audit_table : Model AuditLog
audit_table = record {
  table = λ db. db.audit_logs;
  with_table = λ rows db. record db { audit_logs = rows };
  row_id = λ row. row.id;
  valid = λ db row. has_organization db row.organization_id && nullable (has_user db) row.actor_id;
  is_unique = λ db row. true;
}

abbrev pub audit_model : TenantModel AuditLog
audit_model = record {
  base = audit_table;
  row_organization = λ row. row.organization_id;
  deletion = none;
}
