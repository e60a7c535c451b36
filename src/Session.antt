-- ===== src/Session.antt =====
-- What a request runs in: app/core/exceptions.py, app/services/base.py (`UnitOfWork`), the
-- request's session of `get_db_session` (app/core/database.py), and the clock and the UUID
-- generator. A coroutine is a function from the world before it to its result or exception and the
-- world after it. `working` is what the session's transaction sees, `committed` what other requests
-- see. `uuid4` counts upwards, so that it never returns an identifier twice.
pub mod Laws
use Prim.Native.String.{String}
use multi_tenant_saas.Base.{ℕ, ◌+◌, Bool, true, false, List, [], ◌∷◌, ◌++◌, if◌then◌else◌}
use multi_tenant_saas.Text.{Text}
use multi_tenant_saas.Models.{Db, Uuid, Timestamp, JsonState}

-- The exceptions that leave a handler; messages and titles are left out, since no code reads them.
pub data Error : Type 0 where
  entity_not_found : String → Error
  entity_conflict forbidden_operation : Error
  app_exception http_exception : ℕ → Error
  database_error type_error value_error attribute_error : Error

-- The status code of the response that the exception handlers of app/core/middleware.py build.
unfoldable pub status_code : Error → ℕ
status_code (entity_not_found _) = 404
status_code entity_conflict = 409
status_code forbidden_operation = 403
status_code (app_exception code) = code
status_code (http_exception code) = code
status_code database_error = 500
status_code type_error = 500
status_code value_error = 500
status_code attribute_error = 500

pub data Result {ℓ} (A : Type ℓ) : Type ℓ where
  ok : A → Result A
  err : Error → Result A

-- A message that the WebSocket hub has published to a project's channel.
pub record Event : Type 0 where
  pub room : Uuid
  pub event_type : String
  pub payload : JsonState

-- A background job that has been put into the queue of the workers, with its arguments.
pub record Job : Type 0 where
  pub function_name : String
  pub args : List Text

pub record World : Type 0 where
  pub committed : Db
  pub working : Db
  pub now : Timestamp
  pub next_uuid : Uuid
  pub pubsub_up : Bool
  pub published : List Event
  pub queue_up : Bool
  pub enqueued : List Job

abbrev pub Action : Type 0 → Type 0
Action A = World → Result A × World

module _ {A : Type 0} where
  abbrev pub pure : A → Action A
  pure a w = (ok a, w)

  abbrev pub raise : Error → Action A
  raise e w = (err e, w)

  -- A query on what the session sees.
  abbrev pub query : (Db → A) → Action A
  query f w = (ok (f w.working), w)

infixl 5 ◌>>=◌ ◌>>◌
abbrev pub ◌>>=◌ : {A B : Type 0} → Action A → (A → Action B) → Action B
◌>>=◌ m f w = let (r, w') = m w in elim r [ ok a ↦ f a w' | err e ↦ (err e, w') ]

abbrev pub ◌>>◌ : {A B : Type 0} → Action A → Action B → Action B
m >> k = m >>= λ _. k

abbrev pub raise_if : Bool → Error → Action (Unit {0})
raise_if c e w = (if c then err e else ok tt, w)

-- A statement that changes what the session sees.
abbrev pub execute : (Db → Db) → Action (Unit {0})
execute f w = (ok tt, record w { working = f w.working })

abbrev pub utc_now : Action Timestamp
utc_now w = (ok w.now, w)

abbrev pub uuid4 : Action Uuid
uuid4 w = (ok w.next_uuid, record w { next_uuid = w.next_uuid + 1 })

abbrev pub commit : Action (Unit {0})
commit w = (ok tt, record w { committed = w.working })

abbrev pub roll_back : World → World
roll_back w = record w { working = w.committed }

-- `async with self.uow.transaction()`
unfoldable pub transaction : {A : Type 0} → Action A → Action A
transaction m w =
    let (r, w') = m w in
    elim r [ ok a ↦ (ok a, record w' { committed = w'.working }) | err e ↦ (err e, roll_back w') ]

-- One request: the session opens on what is committed, and closes without a further commit.
unfoldable pub with_session : {A : Type 0} → Action A → Action A
with_session m w = let (r, w') = m (roll_back w) in (r, roll_back w')

-- `WebSocketHub.broadcast_to_room`: a failure to publish is logged and dropped.
unfoldable pub broadcast_to_room : Uuid → String → JsonState → Action (Unit {0})
broadcast_to_room project_id event_type payload w =
    let event : Event = record { room = project_id; event_type = event_type; payload = payload } in
    (ok tt, if w.pubsub_up then record w { published = w.published ++ event ∷ [] } else w)

-- `JobQueueService.enqueue` of app/services/queue.py: a failure is logged and dropped. No caller
-- uses the identifier that it returns.
unfoldable pub enqueue : String → List Text → Action (Unit {0})
enqueue function_name args w =
    let job : Job = record { function_name = function_name; args = args } in
    (ok tt, if w.queue_up then record w { enqueued = w.enqueued ++ job ∷ [] } else w)
