-- ===== src/Models.antt =====
-- The tables of app/models/ and the database that holds them. A UUID is a number, a timestamp the
-- number of microseconds since 1970 in UTC, and a table the list of its rows in the order of
-- insertion. A relationship is the query by its foreign key, so it is no field of a row.
mod Enums
mod Tables
unfoldable pub use Enums.*
unfoldable pub use Tables.*
use multi_tenant_saas.Base.{List, []}

pub record Db : Type 0 where
  pub users : List User
  pub organizations : List Organization
  pub members : List OrganizationMember
  pub teams : List Team
  pub team_members : List TeamMember
  pub projects : List Project
  pub tasks : List Task
  pub comments : List Comment
  pub attachments : List Attachment
  pub audit_logs : List AuditLog

abbrev pub empty_db : Db
empty_db = record {
  users = [];
  organizations = [];
  members = [];
  teams = [];
  team_members = [];
  projects = [];
  tasks = [];
  comments = [];
  attachments = [];
  audit_logs = [];
}
