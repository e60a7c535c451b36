-- ===== src/Projects/Coherence.antt =====
-- Requests for projects, the service without a cache that specifies their answers, and the
-- coherence of the cache with the committed rows.
use multi_tenant_saas.Base.{
  ◌≡◌, refl, sym, ap, ◌∙◌, true, false, ◌&&◌, Option, none, some, List, [], ◌∷◌, ◌==◌, arith, inl,
  inr, ◌⊎◌, filter, map_where, head?, Unique, Option-cases, Bool-cases, head?-filter_passes,
  filter-map_where_other, map_where-Unique, ==_iff, same_row,
}
use multi_tenant_saas.Text.{Text, text_eq}
use multi_tenant_saas.Text.Laws.{text_eq_sound, text_eq_refl}
use multi_tenant_saas.Models.{Uuid, Timestamp, Project}
use multi_tenant_saas.Session.{entity_not_found, Result, ok, err, World, roll_back}
use multi_tenant_saas.Repositories.{in_scope}
use multi_tenant_saas.Repositories.Tables.{project_model}
use multi_tenant_saas.Access.{TenantContext}
use multi_tenant_saas.Cache.{RedisStrings, JsonCodec, cache_get, cache_set, parsed}
use multi_tenant_saas.Cache.Keys.{UuidText, project_key, project_key_injective}
use multi_tenant_saas.Projects.{ProjectUpdate}
use multi_tenant_saas.Projects.Change.{own_project, project_change}
use multi_tenant_saas.Projects.Endpoints.{
  ProjectResponse, project_response, get_project, update_project_route,
}

-- An update of one project of a tenant leaves every other project of every tenant as it is found.
other_project :
    (o p o' p' : Uuid) (before after : Project) (projects : List Project)
    → Unique (λ (r : Project). r.id) projects
    → own_project o p projects ≡ some before
    → after.id ≡ before.id
    → after.organization_id ≡ before.organization_id
    → (r : Project) → own_project o' p' projects ≡ some r
    → ((o' ≡ o) × (p' ≡ p))
      ⊎ (own_project o' p' (map_where (λ x. x.id == after.id) (λ _. after) projects) ≡ some r)
other_project o p o' p' before after projects u h same_id same_org r g =
    elim (Bool-cases (p' == p)) [
      | inl one_id ↦
          let eq = (==_iff p' p).0 one_id in
          let mine =
            head?-filter_passes (λ (x : Project). (x.id == p) && in_scope project_model o false x)
              projects before h in
          let theirs =
            head?-filter_passes (λ (x : Project). (x.id == p') && in_scope project_model o' false x)
              projects r g in
          let row : before ≡ r =
            same_row (λ (x : Project). x.id) p (in_scope project_model o false)
              (in_scope project_model o' false) projects before r u h
              (ap
                  (λ k.
                    head? (filter (λ x. (x.id == k) && in_scope project_model o' false x) projects))
                  (sym eq)
                ∙ g) in
          let own : before.organization_id ≡ o = ground arith in
          let own' : r.organization_id ≡ o' = ground arith in
          let same_o : o' ≡ o =
            sym own' ∙ (ap (λ (x : Project). x.organization_id) (sym row) ∙ own) in
          inl (same_o, eq)
      | inr two_ids ↦
          let mine =
            head?-filter_passes (λ (x : Project). (x.id == p) && in_scope project_model o false x)
              projects before h in
          inr (
            ap head? (
              filter-map_where_other (λ x. x.id == after.id)
                (λ x. (x.id == p') && in_scope project_model o' false x) (λ _. after)
                (λ x e. ground arith) (λ x e. ground arith) projects)
            ∙ g)
    ]

-- A request to read or to change a project, at a time.
pub data ProjectRequest : Type 0 where
  read : Timestamp → Uuid → TenantContext → ProjectRequest
  change : Timestamp → Uuid → ProjectUpdate → TenantContext → ProjectRequest

-- A request opens a session at its time.
abbrev pub opened : Timestamp → World → World
opened now w = roll_back (record w { now = now })

abbrev pub read_answer : Option Project → Result ProjectResponse
read_answer none = err (entity_not_found "Project")
read_answer (some project) = ok (project_response project)

abbrev pub change_answer : Result Project → Result ProjectResponse
change_answer (err e) = err e
change_answer (ok project) = ok (project_response project)

-- What a service without a cache answers: the tenant's project as it is, and the update as
-- specified.
unfoldable pub plain_serve : ProjectRequest → World → Result ProjectResponse × World
plain_serve (read now p ctx) w =
    (read_answer (own_project ctx.organization_id p w.committed.projects), roll_back (opened now w))
plain_serve (change now p payload ctx) w =
    let (r, w') =
      project_change ctx.organization_id payload none (opened now w)
        (own_project ctx.organization_id p w.committed.projects) in
    (change_answer r, roll_back w')

unfoldable pub plain_answers : List ProjectRequest → World → List (Result ProjectResponse)
plain_answers [] w = []
plain_answers (q ∷ requests) w = let (r, w') = plain_serve q w in r ∷ plain_answers requests w'

module _ (redis : RedisStrings) (uuids : UuidText) (json : JsonCodec ProjectResponse) where
  open redis use {State, entry, entry-get, entry-set_ex, entry-delete}
  open json use {model_dump_json, model_validate, model_validate-dump}

  abbrev closed : Result ProjectResponse × World × State → Result ProjectResponse × World × State
  closed x = (x.0, roll_back x.1, x.2)

  -- The two handlers, each in its session.
  unfoldable pub serve : ProjectRequest → World × State → Result ProjectResponse × World × State
  serve (read now p ctx) (w, s) = closed (get_project redis uuids json p ctx (opened now w, s))
  serve (change now p payload ctx) (w, s) =
      closed (update_project_route redis uuids json p payload ctx (opened now w, s))

  unfoldable pub answers : List ProjectRequest → World × State → List (Result ProjectResponse)
  answers [] ws = []
  answers (q ∷ requests) ws = let (r, w, s) = serve q ws in r ∷ answers requests (w, s)

  -- What the cache holds for a project is the response for the committed row; no two rows share a
  -- key.
  pub record IsCoherent (projects : List Project) (s : State) : Type 0 where
    pub stored :
        (o p : Uuid) (value : Text) (r : ProjectResponse)
        → entry s (project_key uuids o p) ≡ some value
        → model_validate value ≡ some r
        → (project : Project) × (own_project o p projects ≡ some project)
          × (r ≡ project_response project)
    pub distinct : Unique (λ (r : Project). r.id) projects

  pub cache_get-entry :
      (now : Timestamp) (key : Text) (s : State) (r : ProjectResponse)
      → cache_get redis json now key s ≡ some r
      → (value : Text) × (entry s key ≡ some value) × (model_validate value ≡ some r)
  unfolding cache_get
  cache_get-entry now key s r h = from (redis.get now key s) refl h
    where
      from :
          (found : Option (Option Text))
          → redis.get now key s ≡ found
          → parsed redis json found ≡ some r
          → (value : Text) × (entry s key ≡ some value) × (model_validate value ≡ some r)
      from none e h = cc
      from (some none) e h = cc
      from (some (some [])) e h = cc
      from (some (some (c ∷ value))) e h = (c ∷ value, entry-get now key (c ∷ value) s e, h)

  same_key :
      (o p o' p' : Uuid)
      → o' ≡ o
      → p' ≡ p
      → text_eq (project_key uuids o' p') (project_key uuids o p) ≡ true
  same_key o p o' p' eo ep = rw (eo, ep) (text_eq_refl (project_key uuids o p))

  written-IsCoherent :
      (w : World) (s s' : State) (o p : Uuid) (project : Project) (now : Timestamp)
      → IsCoherent w.committed.projects s
      → own_project o p w.committed.projects ≡ some project
      → redis.set_ex now (project_key uuids o p) (model_dump_json (project_response project)) 300 s
        ≡ some s'
      → IsCoherent w.committed.projects s'
  written-IsCoherent w s s' o p project now coherent h e = record {
    stored = λ o' p' value r k v.
        let looked =
          entry-set_ex now (project_key uuids o p) (model_dump_json (project_response project)) 300
            s s' (project_key uuids o' p') e in
        elim (Bool-cases (text_eq (project_key uuids o' p') (project_key uuids o p))) [
          | inl same ↦
              let (eo, ep) =
                project_key_injective uuids o' p' o p
                  (text_eq_sound (project_key uuids o' p') (project_key uuids o p) same) in
              let written : model_dump_json (project_response project) ≡ value = ground arith in
              let back = model_validate-dump (project_response project) in
              let answer : r ≡ project_response project = cc (v, written, back) in
              (project, rw (eo, ep) h, answer)
          | inr other ↦
              let kept : entry s (project_key uuids o' p') ≡ some value = ground arith in
              coherent.stored o' p' value r kept v
        ];
    distinct = coherent.distinct;
  }

  pub cache_set-IsCoherent :
      (w : World) (s : State) (o p : Uuid) (project : Project) (now : Timestamp)
      → IsCoherent w.committed.projects s
      → own_project o p w.committed.projects ≡ some project
      → IsCoherent w.committed.projects
          (cache_set redis json now (project_key uuids o p) (project_response project) 300 s)
  unfolding cache_set
  cache_set-IsCoherent w s o p project now coherent h =
      elim (Option-cases (
        redis.set_ex now (project_key uuids o p) (model_dump_json (project_response project)) 300
          s)) [
            | inl failed ↦ rw (cache_set, failed) coherent
            | inr (s', e) ↦
                rw (cache_set, e) (written-IsCoherent w s s' o p project now coherent h e)
          ]

  -- After a successful update, whose deletion of the key succeeds, too.
  pub cache_delete-IsCoherent :
      (w w' : World) (s s' : State) (o p : Uuid) (before after : Project)
      → IsCoherent w.committed.projects s
      → own_project o p w.committed.projects ≡ some before
      → after.id ≡ before.id
      → after.organization_id ≡ before.organization_id
      → w'.committed.projects ≡ map_where (λ x. x.id == after.id) (λ _. after) w.committed.projects
      → redis.delete (project_key uuids o p) s ≡ some s'
      → IsCoherent w'.committed.projects s'
  cache_delete-IsCoherent w w' s s' o p before after coherent h same_id same_org written e =
      record {
        stored = λ o' p' value r k v.
            let looked = entry-delete (project_key uuids o p) s s' (project_key uuids o' p') e in
            elim (Bool-cases (text_eq (project_key uuids o' p') (project_key uuids o p))) [
              | inl same ↦ absurd (ground arith)
              | inr other ↦
                  let kept : entry s (project_key uuids o' p') ≡ some value = ground arith in
                  let (project, found, answer) = coherent.stored o' p' value r kept v in
                  elim (other_project o p o' p' before after w.committed.projects coherent.distinct
                    h same_id same_org project found) [
                      | inl (eo, ep) ↦
                          let one_key = same_key o p o' p' eo ep in absurd (ground arith)
                      | inr still ↦ (project, rw written still, answer)
                    ]
            ];
        distinct = rw written (
            map_where-Unique (λ (x : Project). x.id) (λ x. x.id == after.id) (λ _. after)
              (λ x e. ground arith) w.committed.projects coherent.distinct);
      }
