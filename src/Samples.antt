-- ===== src/Samples.antt =====
-- A small database for the tests: two tenants with a project and a task each.
use multi_tenant_saas.Base.{true, false, none, [], ◌∷◌}
use multi_tenant_saas.Models.{
  Db, User, Organization, OrganizationMember, manager, Project, Task, todo, medium,
}
use multi_tenant_saas.Session.{World}

abbrev pub ann : User
ann = record {
  id = 1;
  email = 97 ∷ [];
  hashed_password = 104 ∷ [];
  full_name = 65 ∷ [];
  avatar_url = none;
  is_active = true;
  is_verified = false;
  created_at = 10;
  updated_at = 10;
}

abbrev pub bob : User
bob = record ann { id = 2; email = 98 ∷ []; full_name = 66 ∷ [] }

abbrev pub acme : Organization
acme = record {
  id = 11;
  name = 65 ∷ [];
  slug = 97 ∷ [];
  logo_url = none;
  is_active = true;
  created_at = 10;
  updated_at = 10;
}

abbrev pub globex : Organization
globex = record acme { id = 12; name = 71 ∷ []; slug = 103 ∷ [] }

abbrev pub ann_membership : OrganizationMember
ann_membership = record {
  id = 21;
  organization_id = 11;
  user_id = 1;
  role = manager;
  created_at = 10;
  updated_at = 10;
}

abbrev pub acme_project : Project
acme_project = record {
  id = 31;
  organization_id = 11;
  team_id = none;
  name = 80 ∷ [];
  key = 80 ∷ [];
  description = none;
  is_archived = false;
  version_id = 1;
  created_at = 10;
  updated_at = 10;
}

abbrev pub globex_project : Project
globex_project = record acme_project { id = 32; organization_id = 12 }

abbrev pub acme_task : Task
acme_task = record {
  id = 41;
  organization_id = 11;
  project_id = 31;
  parent_id = none;
  reporter_id = 1;
  assignee_id = none;
  title = 84 ∷ [];
  description = none;
  status = todo;
  priority = medium;
  due_date = none;
  version_id = 3;
  created_at = 10;
  updated_at = 10;
  is_deleted = false;
  deleted_at = none;
}

abbrev pub globex_task : Task
globex_task = record acme_task { id = 42; organization_id = 12; project_id = 32 }

abbrev pub sample_db : Db
sample_db = record {
  users = ann ∷ bob ∷ [];
  organizations = acme ∷ globex ∷ [];
  members = ann_membership ∷ [];
  teams = [];
  team_members = [];
  projects = acme_project ∷ globex_project ∷ [];
  tasks = acme_task ∷ globex_task ∷ [];
  comments = [];
  attachments = [];
  audit_logs = [];
}

abbrev pub sample_world : World
sample_world = record {
  committed = sample_db;
  working = sample_db;
  now = 1000;
  next_uuid = 100;
  pubsub_up = true;
  published = [];
  queue_up = true;
  enqueued = [];
}
