-- ===== src/Hub/Rooms.antt =====
-- Rooms and listeners in the hubs that can be reached (app/websockets/hub.py).
use multi_tenant_saas.Base.{
  ℕ, ◌≤◌, ◌≡◌, refl, Bool, true, false, Option, none, some, List, ◌∷◌, arith, inl, inr,
  Option-cases,
}
use multi_tenant_saas.Models.{Uuid}
use multi_tenant_saas.Hub.{
  Hub, empty_hub, connect, disconnect, connected, disconnected, Reachable, started, stepped,
}

-- No room and no listener, or somebody in the room and a listener for it.
abbrev pub paired : Option (List ℕ) → Option ℕ → Bool
paired none none = true
paired (some (_ ∷ _)) (some _) = true
paired _ _ = false

pub record IsConsistent (hub : Hub) : Type 0 where
  pub together : (p : Uuid) → paired (hub.rooms p) (hub.listener_tasks p) ≡ true
  pub listens : (p t : ℕ) → hub.listener_tasks p ≡ some t → hub.running t ≡ some p
  pub listed : (t p : ℕ) → hub.running t ≡ some p → hub.listener_tasks p ≡ some t
  pub fresh : (t : ℕ) → hub.next_task ≤ t → hub.running t ≡ none

empty-IsConsistent : IsConsistent empty_hub
empty-IsConsistent = record {
  together = λ p. refl;
  listens = λ p t h. cc;
  listed = λ t p h. cc;
  fresh = λ t h. refl;
}

module _ (project_id : Uuid) (websocket : ℕ) (hub : Hub) (ok : IsConsistent hub) where
  connect-IsConsistent : IsConsistent (connect project_id websocket hub)
  unfolding connect
  connect-IsConsistent = elim (Option-cases (hub.rooms project_id)) [
    | inl missing ↦ record {
      together = λ p. ground (arith, ok.together p, ok.together project_id);
      listens = λ p t h.
          ground
            (arith, ok.together project_id, ok.listens p t, ok.fresh hub.next_task, ok.fresh t);
      listed =
          λ t p h. ground (arith, ok.listed t p, ok.together project_id, ok.fresh hub.next_task);
      fresh = λ t h. ground (arith, ok.fresh t);
    }
    | inr (sockets, there) ↦ record {
      together = λ p. ground (arith, ok.together p);
      listens = λ p t h. ground (arith, ok.listens p t);
      listed = λ t p h. ground (arith, ok.listed t p);
      fresh = λ t h. ground (arith, ok.fresh t);
    }
  ]

  disconnect-IsConsistent : IsConsistent (disconnect project_id websocket hub)
  unfolding disconnect
  disconnect-IsConsistent = record {
    together = λ p. ground (arith, ok.together p, ok.together project_id);
    listens =
        λ p t h. ground (arith, ok.together project_id, ok.listens p t, ok.listens project_id t);
    listed = λ t p h. ground (arith, ok.listed t p);
    fresh = λ t h. ground (arith, ok.fresh t);
  }

-- In every hub that can be reached from the empty one by connections and disconnections in any
-- order, a project has a listener exactly if it has a room, no room is empty, a task that has been
-- started and not cancelled is the listener of its project, and the listener of a project has not
-- been cancelled.
pub hub-IsConsistent : (hub : Hub) → Reachable hub → IsConsistent hub
hub-IsConsistent _ started = empty-IsConsistent
hub-IsConsistent _ (stepped hub hub' r (connected p ws _)) =
    connect-IsConsistent p ws hub (hub-IsConsistent hub r)
hub-IsConsistent _ (stepped hub hub' r (disconnected p ws _)) =
    disconnect-IsConsistent p ws hub (hub-IsConsistent hub r)
