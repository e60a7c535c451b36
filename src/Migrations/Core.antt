-- ===== src/Migrations/Core.antt =====
-- The migration alembic/versions/745e36ac4031_create_core_domain_tables.py.
use multi_tenant_saas.Base.{true, false, List, [], ◌∷◌}
use multi_tenant_saas.Migrations.{
  Operation, create_table, create_index, drop_index, drop_table, index,
}
use multi_tenant_saas.Migrations.CoreTables.{
  organizations_definition, users_definition, audit_logs_definition, notifications_definition,
  organization_members_definition,
}
use multi_tenant_saas.Migrations.WorkTables.{
  teams_definition, projects_definition, team_members_definition, tasks_definition,
  attachments_definition, comments_definition,
}

abbrev pub upgrade : List Operation
upgrade =
    create_table organizations_definition
    ∷ create_index (index "ix_organizations_slug" "organizations" ("slug" ∷ []) true)
    ∷ create_table users_definition
    ∷ create_index (index "ix_users_email" "users" ("email" ∷ []) true)
    ∷ create_table audit_logs_definition
    ∷ create_index (
        index "ix_audit_org_entity" "audit_logs"
          ("organization_id" ∷ "entity_type" ∷ "entity_id" ∷ []) false)
    ∷ create_index
        (index "ix_audit_org_timestamp" "audit_logs" ("organization_id" ∷ "timestamp" ∷ []) false)
    ∷ create_table notifications_definition
    ∷ create_index (
        index "ix_notification_user_unread" "notifications"
          ("organization_id" ∷ "user_id" ∷ "is_read" ∷ []) false)
    ∷ create_table organization_members_definition
    ∷ create_index (
        index "ix_org_member_lookup" "organization_members" ("organization_id" ∷ "user_id" ∷ [])
          false)
    ∷ create_table teams_definition
    ∷ create_index (index "ix_team_org_id" "teams" ("organization_id" ∷ []) false)
    ∷ create_table projects_definition
    ∷ create_index
        (index "ix_project_org_team" "projects" ("organization_id" ∷ "team_id" ∷ []) false)
    ∷ create_table team_members_definition
    ∷ create_index (index "ix_team_member_org" "team_members" ("organization_id" ∷ []) false)
    ∷ create_table tasks_definition
    ∷ create_index
        (index "ix_task_org_assignee" "tasks" ("organization_id" ∷ "assignee_id" ∷ []) false)
    ∷ create_index
        (index "ix_task_org_created" "tasks" ("organization_id" ∷ "created_at" ∷ []) false)
    ∷ create_index (
        index "ix_task_org_project_status" "tasks"
          ("organization_id" ∷ "project_id" ∷ "status" ∷ []) false)
    ∷ create_index (index "ix_tasks_is_deleted" "tasks" ("is_deleted" ∷ []) false)
    ∷ create_table attachments_definition
    ∷ create_index
        (index "ix_attachment_org_task" "attachments" ("organization_id" ∷ "task_id" ∷ []) false)
    ∷ create_table comments_definition
    ∷ create_index
        (index "ix_comment_org_task" "comments" ("organization_id" ∷ "task_id" ∷ []) false)
    ∷ []

abbrev pub downgrade : List Operation
downgrade =
    drop_index "ix_comment_org_task" "comments"
    ∷ drop_table "comments"
    ∷ drop_index "ix_attachment_org_task" "attachments"
    ∷ drop_table "attachments"
    ∷ drop_index "ix_tasks_is_deleted" "tasks"
    ∷ drop_index "ix_task_org_project_status" "tasks"
    ∷ drop_index "ix_task_org_created" "tasks"
    ∷ drop_index "ix_task_org_assignee" "tasks"
    ∷ drop_table "tasks"
    ∷ drop_index "ix_team_member_org" "team_members"
    ∷ drop_table "team_members"
    ∷ drop_index "ix_project_org_team" "projects"
    ∷ drop_table "projects"
    ∷ drop_index "ix_team_org_id" "teams"
    ∷ drop_table "teams"
    ∷ drop_index "ix_org_member_lookup" "organization_members"
    ∷ drop_table "organization_members"
    ∷ drop_index "ix_notification_user_unread" "notifications"
    ∷ drop_table "notifications"
    ∷ drop_index "ix_audit_org_timestamp" "audit_logs"
    ∷ drop_index "ix_audit_org_entity" "audit_logs"
    ∷ drop_table "audit_logs"
    ∷ drop_index "ix_users_email" "users"
    ∷ drop_table "users"
    ∷ drop_index "ix_organizations_slug" "organizations"
    ∷ drop_table "organizations"
    ∷ []
