-- ===== src/Migrations/CoreTables.antt =====
-- The tables of alembic/versions/745e36ac4031_create_core_domain_tables.py: users and tenants.
use multi_tenant_saas.Base.{true, false, [], ◌∷◌}
use multi_tenant_saas.Migrations.{
  TableDefinition, uuid_type, string_type, boolean_type, timestamp_type, json_type, enum_type,
  column, foreign_key, unique_constraint,
}

abbrev pub organizations_definition : TableDefinition
organizations_definition = record {
  name = "organizations";
  columns =
      column "id" uuid_type false
      ∷ column "name" (string_type 100) false
      ∷ column "slug" (string_type 100) false
      ∷ column "logo_url" (string_type 1024) true
      ∷ column "is_active" boolean_type false
      ∷ column "created_at" timestamp_type false
      ∷ column "updated_at" timestamp_type false
      ∷ [];
  foreign_keys = [];
  unique_constraints = [];
}

abbrev pub users_definition : TableDefinition
users_definition = record {
  name = "users";
  columns =
      column "id" uuid_type false
      ∷ column "email" (string_type 255) false
      ∷ column "hashed_password" (string_type 255) false
      ∷ column "full_name" (string_type 100) false
      ∷ column "avatar_url" (string_type 1024) true
      ∷ column "is_active" boolean_type false
      ∷ column "is_verified" boolean_type false
      ∷ column "created_at" timestamp_type false
      ∷ column "updated_at" timestamp_type false
      ∷ [];
  foreign_keys = [];
  unique_constraints = [];
}

abbrev pub audit_logs_definition : TableDefinition
audit_logs_definition = record {
  name = "audit_logs";
  columns =
      column "id" uuid_type false
      ∷ column "organization_id" uuid_type false
      ∷ column "actor_id" uuid_type true
      ∷ column "entity_type" (string_type 50) false
      ∷ column "entity_id" uuid_type false
      ∷ column "action"
          (enum_type "audit_action_enum"
            ("CREATE" ∷ "UPDATE" ∷ "DELETE" ∷ "SOFT_DELETE" ∷ "RESTORE" ∷ []))
          false
      ∷ column "before_state" json_type true
      ∷ column "after_state" json_type true
      ∷ column "ip_address" (string_type 45) true
      ∷ column "user_agent" (string_type 512) true
      ∷ column "timestamp" timestamp_type false
      ∷ [];
  foreign_keys =
      foreign_key "actor_id" "users" "SET NULL"
      ∷ foreign_key "organization_id" "organizations" "CASCADE"
      ∷ [];
  unique_constraints = [];
}

abbrev pub notifications_definition : TableDefinition
notifications_definition = record {
  name = "notifications";
  columns =
      column "id" uuid_type false
      ∷ column "organization_id" uuid_type false
      ∷ column "user_id" uuid_type false
      ∷ column "actor_id" uuid_type true
      ∷ column "title" (string_type 255) false
      ∷ column "body" (string_type 1024) false
      ∷ column "event_type"
          (enum_type "notification_type_enum" (
            "TASK_ASSIGNED" ∷ "TASK_STATUS_CHANGED" ∷ "TASK_COMMENTED" ∷ "ORG_INVITATION"
            ∷ "ROLE_UPDATED" ∷ []))
          false
      ∷ column "is_read" boolean_type false
      ∷ column "read_at" timestamp_type true
      ∷ column "resource_type" (string_type 50) true
      ∷ column "resource_id" uuid_type true
      ∷ column "created_at" timestamp_type false
      ∷ column "updated_at" timestamp_type false
      ∷ [];
  foreign_keys =
      foreign_key "actor_id" "users" "SET NULL"
      ∷ foreign_key "organization_id" "organizations" "CASCADE"
      ∷ foreign_key "user_id" "users" "CASCADE"
      ∷ [];
  unique_constraints = [];
}

abbrev pub organization_members_definition : TableDefinition
organization_members_definition = record {
  name = "organization_members";
  columns =
      column "id" uuid_type false
      ∷ column "organization_id" uuid_type false
      ∷ column "user_id" uuid_type false
      ∷ column "role"
          (enum_type "org_role_enum" ("OWNER" ∷ "ADMIN" ∷ "MANAGER" ∷ "MEMBER" ∷ "VIEWER" ∷ []))
          false
      ∷ column "created_at" timestamp_type false
      ∷ column "updated_at" timestamp_type false
      ∷ [];
  foreign_keys =
      foreign_key "organization_id" "organizations" "CASCADE"
      ∷ foreign_key "user_id" "users" "CASCADE"
      ∷ [];
  unique_constraints =
      unique_constraint "uq_org_member_user" ("organization_id" ∷ "user_id" ∷ []) ∷ [];
}
