-- ===== src/Lib.antt =====
-- A multi-tenant task-management backend: a FastAPI application over SQLAlchemy, PostgreSQL and Redis
-- (app/). An organization is a tenant; its members have roles; projects, tasks, comments, teams and
-- audit records belong to one organization each. A request is authenticated by a JWT, authorized by a
-- role in the organization of its header, and runs in one database session; handlers call services, services
-- call tenant-scoped repositories, and handlers publish events to the room of a project.
--
-- Which file models which part:
--   Base        Boolean tests, lists, selections and updates of rows by a key.
--   Text        str methods and slugify (app/services/auth.py).
--   Models      the tables of app/models/, and the database as a record of lists of rows.
--   Session     exceptions and their status codes (app/core/exceptions.py, app/core/middleware.py), the
--               unit of work (app/services/base.py), the session of a request (app/core/database.py),
--               publishing (app/websockets/hub.py). An operation is a function from the world before it
--               to its result and the world after it; `working` is what the session sees, `committed`
--               what others see.
--   Repositories  BaseRepository and TenantScopedRepository (app/repositories/base.py) over any table;
--               Repositories/Tables has the keys and constraints of each table.
--   Access      get_current_user and RequireRole (app/api/deps.py).
--   Tenancy     what one tenant can see of a database.
--   Tasks       app/services/task.py, app/repositories/task.py and app/api/v1/endpoints/tasks.py:
--               Endpoints and Listing are the handlers, Occ, Create and Change (with Assigned) say what they do, Race
--               interleaves concurrent updates, Isolation compares tenants, OffsetPages joins pages.
--   Pages       keyset pagination (app/repositories/comment.py, app/repositories/task.py,
--               app/core/pagination.py); Cursor and Base64 are the text of a cursor.
--   Comments    app/services/comment.py and app/api/v1/endpoints/comments.py.
--   Organizations  app/api/v1/endpoints/organizations.py, and the job queue (app/services/queue.py) as a list
--               of jobs in the world.
--   Cache       app/core/cache.py: Keys has the keys of projects, Scan is `delete_pattern`.
--   Projects    app/services/project.py and app/api/v1/endpoints/projects.py. The cache is a second
--               state beside the world; Coherence has the service without one.
--   Teams       app/services/team.py; Details has the reads and app/api/v1/endpoints/teams.py.
--   Attachments  app/api/v1/endpoints/attachments.py; Storage has the keys of objects (app/services/storage.py).
--   Auth        app/services/auth.py, app/core/security.py and app/core/redis.py: Register, Login and
--               Rotation (refresh tokens and their blacklist); Endpoints is
--               app/api/v1/endpoints/auth.py, with the rate limiters in front of it.
--   Problems    error responses: app/core/exceptions.py, the handlers and the middleware of
--               app/core/middleware.py, in the order of app/main.py.
--   Audit       app/repositories/audit.py and app/api/v1/endpoints/audit.py. Wanted says what a page should
--               hold; each query may sort the records of one time in its own way.
--   Workers     the purge of app/workers/tasks.py with the cascades of app/models/task.py, round by round.
--   Health      the readiness probe of app/api/v1/endpoints/health.py over the replies that it gets.
--   Config      parse_cors of app/core/config.py.
--   Migrations  the first migration of alembic/versions/ as lists of operations on a schema.
--   RateLimit   app/core/rate_limit.py: Window counts calls, Bound the admitted ones.
--   Hub         the rooms and listeners of app/websockets/hub.py as a step relation, and who may open a
--               stream (app/api/v1/endpoints/ws.py).
--   Samples     the database that the tests use; each Tests module applies theorems to it.
--
-- Conventions. A UUID is a natural number and a generator that counts upwards, a timestamp a number of
-- microseconds, a table the list of its rows in the order of insertion, a `where` clause a Boolean test.
-- The clock of a request stands still. Integers that the code writes have the widths of their columns:
-- a `version_id` 32 bits, an attachment's `file_size`, an integer of either sign, 64; a value out of
-- range is an error of the database (Race takes versions to stay in range). Of the methods of texts,
-- `strip` knows the white space of Unicode; `lower`, `upper` and the word characters of `slugify` are
-- Python's on ASCII texts only.
-- Loops are structural; following cursors takes a number of pages, and one page more than there are
-- rows is enough; `delete_pattern` needs the calls that a full iteration of
-- `SCAN` takes, and one more; the cascade of a deletion needs as many rounds
-- as there are tasks. Constraints of the database are checked where a row is written.
--
-- Parameters, with their documented behaviour as laws where a proof needs it: the JWT codec, the password
-- hasher, Redis keys with a time to live, Redis strings and `SCAN`, Redis sorted sets, the JSON of a
-- response, `ILIKE`, the database's order of equal times, which may differ from query to query, and the texts of Python's library that a cursor
-- is made of, but for base64, which is written out. Deadlocks, lost connections and serialization
-- failures of the database are not modelled, nor is a failure between a commit and the event after it.
--
-- Not modelled: the object storage itself, the delivery loop of the hub's listeners, settings, logging, telemetry
-- and the second migration.
pub mod Base
pub mod Text
pub mod Models
pub mod Session
pub mod Repositories
mod Samples
pub mod RateLimit
pub mod Hub
pub mod Access
mod Tenancy
pub mod Auth
pub mod Pages
pub mod Tasks
pub mod Comments
pub mod Cache
pub mod Projects
pub mod Teams
pub mod Organizations
pub mod Attachments
pub mod Workers
pub mod Problems
pub mod Audit
pub mod Health
pub mod Config
pub mod Migrations
