-- ===== src/Hub/Tests.antt =====
-- The theorems on the hub after two connections and a disconnection.
use text.Mathlib.Text.{◌==◌ as str_eq}
use multi_tenant_saas.Base.{
  ℕ, ◌≡◌, ◌&&◌, ◌==◌, refl, Option, some, none, [], ◌∷◌, ◌↔◌, ltb, true, false, if◌then◌else◌,
  filter, head?, any,
}
use multi_tenant_saas.Models.{User, Project}
use multi_tenant_saas.Session.{World, err, http_exception}
use multi_tenant_saas.Access.{Claims, get_current_user}
use multi_tenant_saas.Samples.{ann, acme_project, ann_membership, sample_db, sample_world}
use multi_tenant_saas.Hub.Stream.{open_stream, open_stream_iff, open_stream_inactive}
use multi_tenant_saas.Hub.{
  Hub, empty_hub, connect, disconnect, Reachable, started, stepped, connected, disconnected,
}
use multi_tenant_saas.Hub.Rooms.{IsConsistent, hub-IsConsistent}
use multi_tenant_saas.Hub.Members.{in_room, in_room_lem}

abbrev one_left : Hub
one_left = disconnect 31 1 (connect 31 2 (connect 31 1 empty_hub))

abbrev one_left_reachable : Reachable one_left
one_left_reachable =
    stepped (connect 31 2 (connect 31 1 empty_hub)) one_left
      (stepped (connect 31 1 empty_hub) (connect 31 2 (connect 31 1 empty_hub))
        (stepped empty_hub (connect 31 1 empty_hub) started (connected 31 1 empty_hub))
        (connected 31 2 (connect 31 1 empty_hub)))
      (disconnected 31 1 (connect 31 2 (connect 31 1 empty_hub)))

hub-IsConsistent_example : IsConsistent one_left
hub-IsConsistent_example = hub-IsConsistent one_left one_left_reachable

in_room_lem_example :
    (in_room 31 2 (connect 31 3 one_left)
      ≡ (if (31 == 31) && (2 == 3) then true else in_room 31 2 one_left))
    × (in_room 31 2 (disconnect 31 3 one_left)
        ≡ (if (31 == 31) && (2 == 3) then false else in_room 31 2 one_left))
in_room_lem_example = in_room_lem 31 3 31 2 one_left

-- A token of Ann, whose account has been deactivated.
abbrev as_claims : Claims → ℕ → Option Claims
as_claims claims now = if ltb now claims.exp then some claims else none

abbrev held : Claims
held = record { sub = some 1; jti = 7; token_type = "access"; exp = 2000 }

abbrev gone_ann : User
gone_ann = record ann { is_active = false }

abbrev deactivated : World
deactivated = record sample_world {
  working = record sample_db { users = gone_ann ∷ [] };
  committed = record sample_db { users = gone_ann ∷ [] };
}

open_stream_inactive_example :
    (open_stream as_claims held 31 deactivated ≡ true)
    × (get_current_user as_claims held deactivated ≡ (err (http_exception 401), deactivated))
open_stream_inactive_example =
    open_stream_inactive as_claims held 31 deactivated held 1 gone_ann acme_project ann_membership
      refl refl refl refl refl refl refl

open_stream_iff_example : (open_stream as_claims held 31 deactivated ≡ true) ↔ (
    (c : Claims) × (u : ℕ) × (project : Project) × (as_claims held deactivated.now ≡ some c)
    × (str_eq c.token_type "access" ≡ true)
    × (c.sub ≡ some u)
    × (head? (filter (λ r. r.id == 31) deactivated.committed.projects) ≡ some project)
    × (any
          (λ m. (m.user_id == u) && (m.organization_id == project.organization_id))
          deactivated.committed.members
        ≡ true))
open_stream_iff_example = open_stream_iff as_claims held 31 deactivated
