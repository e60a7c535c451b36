-- ===== src/Migrations/WorkTables.antt =====
-- The tables of alembic/versions/745e36ac4031_create_core_domain_tables.py: projects and tasks.
use multi_tenant_saas.Base.{true, false, [], ◌∷◌}
use multi_tenant_saas.Migrations.{
  TableDefinition, uuid_type, string_type, boolean_type, timestamp_type, text_type, integer_type,
  big_integer_type, enum_type, column, foreign_key, unique_constraint,
}

abbrev pub teams_definition : TableDefinition
teams_definition = record {
  name = "teams";
  columns =
      column "id" uuid_type false
      ∷ column "organization_id" uuid_type false
      ∷ column "name" (string_type 100) false
      ∷ column "slug" (string_type 100) false
      ∷ column "description" text_type true
      ∷ column "created_at" timestamp_type false
      ∷ column "updated_at" timestamp_type false
      ∷ [];
  foreign_keys = foreign_key "organization_id" "organizations" "CASCADE" ∷ [];
  unique_constraints = unique_constraint "uq_team_org_slug" ("organization_id" ∷ "slug" ∷ []) ∷ [];
}

abbrev pub projects_definition : TableDefinition
projects_definition = record {
  name = "projects";
  columns =
      column "id" uuid_type false
      ∷ column "organization_id" uuid_type false
      ∷ column "team_id" uuid_type true
      ∷ column "name" (string_type 100) false
      ∷ column "key" (string_type 10) false
      ∷ column "description" text_type true
      ∷ column "is_archived" boolean_type false
      ∷ column "created_at" timestamp_type false
      ∷ column "updated_at" timestamp_type false
      ∷ [];
  foreign_keys =
      foreign_key "organization_id" "organizations" "CASCADE"
      ∷ foreign_key "team_id" "teams" "SET NULL"
      ∷ [];
  unique_constraints = unique_constraint "uq_project_org_key" ("organization_id" ∷ "key" ∷ []) ∷ [];
}

abbrev pub team_members_definition : TableDefinition
team_members_definition = record {
  name = "team_members";
  columns =
      column "id" uuid_type false
      ∷ column "organization_id" uuid_type false
      ∷ column "team_id" uuid_type false
      ∷ column "user_id" uuid_type false
      ∷ column "created_at" timestamp_type false
      ∷ column "updated_at" timestamp_type false
      ∷ [];
  foreign_keys =
      foreign_key "organization_id" "organizations" "CASCADE"
      ∷ foreign_key "team_id" "teams" "CASCADE"
      ∷ foreign_key "user_id" "users" "CASCADE"
      ∷ [];
  unique_constraints = unique_constraint "uq_team_member_user" ("team_id" ∷ "user_id" ∷ []) ∷ [];
}

abbrev pub tasks_definition : TableDefinition
tasks_definition = record {
  name = "tasks";
  columns =
      column "id" uuid_type false
      ∷ column "organization_id" uuid_type false
      ∷ column "project_id" uuid_type false
      ∷ column "parent_id" uuid_type true
      ∷ column "reporter_id" uuid_type false
      ∷ column "assignee_id" uuid_type true
      ∷ column "title" (string_type 255) false
      ∷ column "description" text_type true
      ∷ column "status"
          (enum_type "task_status_enum"
            ("BACKLOG" ∷ "TODO" ∷ "IN_PROGRESS" ∷ "IN_REVIEW" ∷ "DONE" ∷ []))
          false
      ∷ column "priority"
          (enum_type "task_priority_enum" ("LOW" ∷ "MEDIUM" ∷ "HIGH" ∷ "URGENT" ∷ [])) false
      ∷ column "due_date" timestamp_type true
      ∷ column "version_id" integer_type false
      ∷ column "created_at" timestamp_type false
      ∷ column "updated_at" timestamp_type false
      ∷ column "is_deleted" boolean_type false
      ∷ column "deleted_at" timestamp_type true
      ∷ [];
  foreign_keys =
      foreign_key "assignee_id" "users" "SET NULL"
      ∷ foreign_key "organization_id" "organizations" "CASCADE"
      ∷ foreign_key "parent_id" "tasks" "CASCADE"
      ∷ foreign_key "project_id" "projects" "CASCADE"
      ∷ foreign_key "reporter_id" "users" "RESTRICT"
      ∷ [];
  unique_constraints = [];
}

abbrev pub attachments_definition : TableDefinition
attachments_definition = record {
  name = "attachments";
  columns =
      column "id" uuid_type false
      ∷ column "organization_id" uuid_type false
      ∷ column "task_id" uuid_type false
      ∷ column "uploader_id" uuid_type false
      ∷ column "file_name" (string_type 255) false
      ∷ column "file_size" big_integer_type false
      ∷ column "content_type" (string_type 100) false
      ∷ column "s3_key" (string_type 1024) false
      ∷ column "created_at" timestamp_type false
      ∷ column "updated_at" timestamp_type false
      ∷ [];
  foreign_keys =
      foreign_key "organization_id" "organizations" "CASCADE"
      ∷ foreign_key "task_id" "tasks" "CASCADE"
      ∷ foreign_key "uploader_id" "users" "RESTRICT"
      ∷ [];
  unique_constraints = [];
}

abbrev pub comments_definition : TableDefinition
comments_definition = record {
  name = "comments";
  columns =
      column "id" uuid_type false
      ∷ column "organization_id" uuid_type false
      ∷ column "task_id" uuid_type false
      ∷ column "author_id" uuid_type false
      ∷ column "content" text_type false
      ∷ column "is_edited" boolean_type false
      ∷ column "created_at" timestamp_type false
      ∷ column "updated_at" timestamp_type false
      ∷ [];
  foreign_keys =
      foreign_key "author_id" "users" "CASCADE"
      ∷ foreign_key "organization_id" "organizations" "CASCADE"
      ∷ foreign_key "task_id" "tasks" "CASCADE"
      ∷ [];
  unique_constraints = [];
}
