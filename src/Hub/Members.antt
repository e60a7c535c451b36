-- ===== src/Hub/Members.antt =====
-- Who is in a room after a connection and after a disconnection.
use multi_tenant_saas.Base.{
  ℕ, ◌≡◌, Bool, true, false, not, ◌&&◌, Option, none, some, List, [], ◌∷◌, ◌==◌, arith,
  if◌then◌else◌, filter, any, inl, inr, Option-cases,
}
use multi_tenant_saas.Models.{Uuid}
use multi_tenant_saas.Hub.{Hub, connect, disconnect}

abbrev pub holds : ℕ → Option (List ℕ) → Bool
holds websocket none = false
holds websocket (some sockets) = any (λ s. s == websocket) sockets

-- The socket is in the room of the project.
abbrev pub in_room : Uuid → ℕ → Hub → Bool
in_room project_id websocket hub = holds websocket (hub.rooms project_id)

any_discard :
    (v ws : ℕ) (sockets : List ℕ)
    → any (λ s. s == v) (filter (λ s. not (s == ws)) sockets)
      ≡ (if v == ws then false else any (λ s. s == v) sockets)
any_discard v ws [] = ground arith
any_discard v ws (s ∷ sockets) = ground (arith, any_discard v ws sockets)

any_same :
    (v ws : ℕ) (sockets : List ℕ)
    → (v == ws) ≡ true
    → any (λ s. s == ws) sockets ≡ true
    → any (λ s. s == v) sockets ≡ true
any_same v ws [] e h = cc
any_same v ws (s ∷ sockets) e h = ground (arith, any_same v ws sockets)

-- A connection puts its socket into the project's room, a disconnection takes it out, and neither
-- changes whether any other socket is in that room or any socket in another.
pub in_room_lem :
    (project_id websocket p v : ℕ) (hub : Hub)
    → let self = (p == project_id) && (v == websocket) in
      (in_room p v (connect project_id websocket hub) ≡ (if self then true else in_room p v hub))
      × (in_room p v (disconnect project_id websocket hub)
          ≡ (if self then false else in_room p v hub))
unfolding connect disconnect
in_room_lem project_id websocket p v hub = elim (Option-cases (hub.rooms project_id)) [
  | inl missing ↦ (ground arith, ground arith)
  | inr (sockets, there) ↦ (
    ground (arith, any_same v websocket sockets),
    ground (arith, any_discard v websocket sockets),
  )
]
