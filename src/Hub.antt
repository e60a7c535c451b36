-- ===== src/Hub.antt =====
-- The rooms of app/websockets/hub.py: who is connected to which project, and which background task
-- listens to a project's channel. A socket and a task are numbers. `connect` after its `accept` and
-- `disconnect` have no `await`, so each is one step of the event loop; the endpoint of a socket
-- takes both, a listener that finds a dead socket takes the second. `running` are the listener
-- tasks that have been started and not been cancelled; a listener that fails by itself is left out.
pub mod Rooms
pub mod Members
pub mod Stream
mod Tests
use multi_tenant_saas.Base.{
  ℕ, ◌+◌, Bool, true, false, not, Option, none, some, List, [], ◌∷◌, ◌==◌, if◌then◌else◌, filter,
  any,
}
use multi_tenant_saas.Models.{Uuid}

pub record Hub : Type 0 where
  pub rooms : Uuid → Option (List ℕ)
  pub listener_tasks : Uuid → Option ℕ
  pub running : ℕ → Option Uuid
  pub next_task : ℕ

-- A dictionary with one key set, or deleted.
abbrev pub put {ℓ} : {A : Type ℓ} → ℕ → A → (ℕ → A) → ℕ → A
put k a f n = if n == k then a else f n

abbrev pub empty_hub : Hub
empty_hub = record {
  rooms = λ _. none;
  listener_tasks = λ _. none;
  running = λ _. none;
  next_task = 0;
}

-- `if project_id not in self.rooms`: a room without sockets and a listener for it.
abbrev pub open_room : Uuid → Option (List ℕ) → Hub → Hub
open_room project_id none hub = record hub {
  rooms = put project_id (some []) hub.rooms;
  listener_tasks = put project_id (some hub.next_task) hub.listener_tasks;
  running = put hub.next_task (some project_id) hub.running;
  next_task = hub.next_task + 1;
}
open_room project_id (some _) hub = hub

-- `set.add`
abbrev pub add_socket : ℕ → List ℕ → List ℕ
add_socket websocket sockets =
    if any (λ s. s == websocket) sockets then sockets else websocket ∷ sockets

-- `self.rooms[project_id].add(websocket)`, on a room that is there.
abbrev pub join_room : Uuid → ℕ → Option (List ℕ) → Hub → Hub
join_room project_id websocket none hub = hub
join_room project_id websocket (some sockets) hub = record hub {
  rooms = put project_id (some (add_socket websocket sockets)) hub.rooms;
}

-- `WebSocketHub.connect`
unfoldable pub connect : Uuid → ℕ → Hub → Hub
connect project_id websocket hub =
    let hub' = open_room project_id (hub.rooms project_id) hub in
    join_room project_id websocket (hub'.rooms project_id) hub'

-- `if project_id in self._listener_tasks`: the task is cancelled.
abbrev pub stop_listener : Uuid → Option ℕ → Hub → Hub
stop_listener project_id none hub = hub
stop_listener project_id (some task) hub = record hub {
  listener_tasks = put project_id none hub.listener_tasks;
  running = put task none hub.running;
}

-- What is left of the room: it is deleted when nobody is in it.
abbrev pub leave_room : Uuid → List ℕ → Hub → Hub
leave_room project_id [] hub =
    stop_listener project_id (hub.listener_tasks project_id)
      (record hub { rooms = put project_id none hub.rooms })
leave_room project_id (s ∷ left) hub = record hub {
  rooms = put project_id (some (s ∷ left)) hub.rooms;
}

abbrev pub discard_socket : Uuid → ℕ → Option (List ℕ) → Hub → Hub
discard_socket project_id websocket none hub = hub
discard_socket project_id websocket (some sockets) hub =
    leave_room project_id (filter (λ s. not (s == websocket)) sockets) hub

-- `WebSocketHub.disconnect`
unfoldable pub disconnect : Uuid → ℕ → Hub → Hub
disconnect project_id websocket hub = discard_socket project_id websocket (hub.rooms project_id) hub

-- One step of the event loop on the hub, and the hubs that can be reached from the start.
pub data Step : Hub → Hub → Type 0 where
  connected :
      (project_id : Uuid) (websocket : ℕ) (hub : Hub) → Step hub (connect project_id websocket hub)
  disconnected :
      (project_id : Uuid) (websocket : ℕ) (hub : Hub)
      → Step hub (disconnect project_id websocket hub)

pub data Reachable : Hub → Type 0 where
  started : Reachable empty_hub
  stepped : (hub hub' : Hub) → Reachable hub → Step hub hub' → Reachable hub'
