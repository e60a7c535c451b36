-- ===== src/Projects/Transparent.antt =====
-- The handlers of app/api/v1/endpoints/projects.py with the cache, compared with a service that has
-- none.
use multi_tenant_saas.Base.{
  ◌≡◌, refl, ap, ◌∙◌, Option, none, some, List, [], ◌∷◌, ◌==◌, inl, inr, Option-cases, Bool-cases,
}
use multi_tenant_saas.Text.{Text}
use multi_tenant_saas.Models.{Uuid, Timestamp, Project}
use multi_tenant_saas.Session.{ok, World}
use multi_tenant_saas.Repositories.Tables.{project_table}
use multi_tenant_saas.Access.{TenantContext}
use multi_tenant_saas.Cache.{RedisStrings, JsonCodec, cache_get, cache_delete}
use multi_tenant_saas.Cache.Keys.{UuidText, project_key}
use multi_tenant_saas.Projects.{ProjectUpdate}
use multi_tenant_saas.Projects.Change.{
  own_project, project_change, updated_project, update_project_lem, with_change,
}
use multi_tenant_saas.Projects.Endpoints.{
  ProjectResponse, get_project, update_project_route, cached_or_read, read_through, invalidated,
}
use multi_tenant_saas.Projects.Coherence.{
  ProjectRequest, read, change, opened, plain_serve, plain_answers, serve, answers, IsCoherent,
  cache_get-entry, cache_set-IsCoherent, cache_delete-IsCoherent,
}

module _ (redis : RedisStrings) (uuids : UuidText) (json : JsonCodec ProjectResponse) where
  open redis use {State}

  abbrev Coherent : List Project → State → Type 0
  Coherent = IsCoherent redis uuids json

  -- The answer, the world and the coherence after one request.
  abbrev Agrees : ProjectRequest → World → State → Type 0
  Agrees q w s =
      ((serve redis uuids json q (w, s)).0 ≡ (plain_serve q w).0)
      × ((serve redis uuids json q (w, s)).1 ≡ (plain_serve q w).1)
      × Coherent (plain_serve q w).1.committed.projects (serve redis uuids json q (w, s)).2

  module _ (now : Timestamp) (p : Uuid) (ctx : TenantContext) (w : World) (s : State)
      (coherent : Coherent w.committed.projects s) where
    abbrev key : Text
    key = project_key uuids ctx.organization_id p

    hit_lem :
        (r : ProjectResponse)
        → cache_get redis json now key s ≡ some r
        → get_project redis uuids json p ctx (opened now w, s) ≡ (ok r, opened now w, s)
    unfolding get_project
    hit_lem r e = ap (λ found. cached_or_read redis uuids json p ctx found (opened now w, s)) e

    missed_lem :
        (found : Option Project)
        → cache_get redis json now key s ≡ none
        → own_project ctx.organization_id p w.committed.projects ≡ found
        → get_project redis uuids json p ctx (opened now w, s)
          ≡ read_through redis uuids json key (ok found, opened now w) s
    unfolding get_project
    missed_lem found e f =
        ap (λ c. cached_or_read redis uuids json p ctx c (opened now w, s)) e
        ∙ ap (λ o. read_through redis uuids json key (ok o, opened now w) s) f

    read-Agrees : Agrees (read now p ctx) w s
    unfolding serve plain_serve
    read-Agrees = elim (Option-cases (cache_get redis json now key s)) [
      | inl missed ↦ elim (Option-cases (own_project ctx.organization_id p w.committed.projects)) [
        | inl nothing ↦ rw (missed_lem none missed nothing, nothing) (refl, refl, coherent)
        | inr (project, found) ↦
            rw (missed_lem (some project) missed found, found)
              (
                refl,
                refl,
                cache_set-IsCoherent redis uuids json w s ctx.organization_id p project now coherent
                    found,
              )
      ]
      | inr (r, hit) ↦
          let (value, stored, valid) = cache_get-entry redis uuids json now key s r hit in
          let (project, found, answer) =
            coherent.stored ctx.organization_id p value r stored valid in
          rw (hit_lem r hit, found) (ap ok answer, refl, coherent)
    ]

    module _ (payload : ProjectUpdate)
        (deletable : (k : Text) (t : State) → (t' : State) × (redis.delete k t ≡ some t')) where
      change_lem :
          update_project_route redis uuids json p payload ctx (opened now w, s)
          ≡ invalidated redis uuids json key
              (project_change ctx.organization_id payload none
                (opened now w)
                (own_project ctx.organization_id p w.committed.projects))
              s
      unfolding update_project_route
      change_lem =
          ap (λ r. invalidated redis uuids json key r s)
            (update_project_lem ctx.organization_id p payload none (opened now w) refl)

      change-Agrees : Agrees (change now p payload ctx) w s
      unfolding serve plain_serve cache_delete
      change-Agrees = elim (Option-cases (own_project ctx.organization_id p w.committed.projects)) [
        | inl nothing ↦ rw (change_lem, nothing) (refl, refl, coherent)
        | inr (before, found) ↦ elim (Bool-cases (before.version_id == payload.expected_version)) [
          | inr stale ↦ rw (change_lem, found, stale) (refl, refl, coherent)
          | inl current ↦
              elim (Bool-cases
                (project_table.valid w.committed (updated_project payload now before))) [
                  | inr refused ↦ rw (change_lem, found, current, refused) (refl, refl, coherent)
                  | inl accepted ↦
                      let (s', deleted) = deletable key s in
                      let after = updated_project payload now before in
                      rw (change_lem, found, current, accepted, cache_delete, deleted)
                        (
                          refl,
                          refl,
                          cache_delete-IsCoherent redis uuids json w
                              (with_change (opened now w) ctx.organization_id none before after) s
                              s' ctx.organization_id p before after coherent found refl refl refl
                              deleted,
                        )
                ]
        ]
      ]

  agrees :
      ((k : Text) (t : State) → (t' : State) × (redis.delete k t ≡ some t'))
      → (q : ProjectRequest) (w : World) (s : State) → Coherent w.committed.projects s
      → Agrees q w s
  agrees deletable (read now p ctx) w s coherent = read-Agrees now p ctx w s coherent
  agrees deletable (change now p payload ctx) w s coherent =
      change-Agrees now p ctx w s coherent payload deletable

  -- Start where the cache holds nothing but responses for committed rows and the keys of the
  -- projects are distinct, and let every deletion from the cache succeed. Then any reads and
  -- updates of projects, by any tenants, one after another, are answered as a service without a
  -- cache answers them, which reads the committed row each time, even if the cache loses entries or
  -- fails to store them.
  pub answers_refine :
      ((k : Text) (t : State) → (t' : State) × (redis.delete k t ≡ some t'))
      → (requests : List ProjectRequest) (w : World) (s : State)
      → IsCoherent redis uuids json w.committed.projects s
      → answers redis uuids json requests (w, s) ≡ plain_answers requests w
  unfolding answers plain_answers
  answers_refine deletable [] w s coherent = refl
  answers_refine deletable (q ∷ requests) w s coherent =
      let (same, world, after) = agrees deletable q w s coherent in
      ap
        (λ r.
          r
          ∷ answers redis uuids json requests
              ((serve redis uuids json q (w, s)).1, (serve redis uuids json q (w, s)).2))
        same
      ∙ ap (◌∷◌ (plain_serve q w).0) (
          ap (λ v. answers redis uuids json requests (v, (serve redis uuids json q (w, s)).2)) world
          ∙ answers_refine deletable requests (plain_serve q w).1
              (serve redis uuids json q (w, s)).2 after)
