-- ===== src/Projects/Json.antt =====
-- A format of project responses for the tests: numbers, and texts that end with 0.
use multi_tenant_saas.Base.{
  ℕ, zero, suc, ◌≡◌, refl, ap, ◌∙◌, Bool, true, false, Option, none, some, [], ◌∷◌,
}
use multi_tenant_saas.Text.{Text}
use multi_tenant_saas.Projects.Endpoints.{ProjectResponse}
use multi_tenant_saas.Cache.{JsonCodec}

abbrev pub put_text : Text → Text → Text
put_text [] rest = 0 ∷ rest
put_text (c ∷ t) rest = suc c ∷ put_text t rest

abbrev pub add_front : ℕ → Text × Text → Text × Text
add_front c (t, rest) = (c ∷ t, rest)

abbrev pub take_text : Text → Text × Text
take_text [] = ([], [])
take_text (zero ∷ rest) = ([], rest)
take_text (suc c ∷ s) = add_front c (take_text s)

take_text-put_text : (t rest : Text) → take_text (put_text t rest) ≡ (t, rest)
take_text-put_text [] rest = refl
take_text-put_text (c ∷ t) rest = ap (add_front c) (take_text-put_text t rest)

abbrev pub put_bool : Bool → ℕ
put_bool false = 0
put_bool true = 1

abbrev pub take_bool : ℕ → Bool
take_bool zero = false
take_bool (suc _) = true

abbrev pub put_uuid : Option ℕ → ℕ
put_uuid none = 0
put_uuid (some u) = suc u

abbrev pub take_uuid : ℕ → Option ℕ
take_uuid zero = none
take_uuid (suc u) = some u

abbrev pub put_option : Option Text → Text
put_option none = []
put_option (some t) = put_text t []

abbrev pub take_option : Text → Option Text
take_option [] = none
take_option (c ∷ s) = some (take_text (c ∷ s)).0

take_option-put_option : (o : Option Text) → take_option (put_option o) ≡ o
take_option-put_option none = refl
take_option-put_option (some []) = refl
take_option-put_option (some (c ∷ t)) =
    ap (λ (x : Text × Text). some x.0) (take_text-put_text (c ∷ t) [])

take_bool-put_bool : (b : Bool) → take_bool (put_bool b) ≡ b
take_bool-put_bool true = refl
take_bool-put_bool false = refl

take_uuid-put_uuid : (o : Option ℕ) → take_uuid (put_uuid o) ≡ o
take_uuid-put_uuid none = refl
take_uuid-put_uuid (some u) = refl

abbrev pub built : ℕ → ℕ → ℕ → ℕ → Bool → Option ℕ → Text → Text → Option Text → ProjectResponse
built i o v c archived team name key description = record {
  id = i;
  organization_id = o;
  team_id = team;
  name = name;
  key = key;
  description = description;
  is_archived = archived;
  version_id = v;
  created_at = c;
}

abbrev pub put_response : ProjectResponse → Text
put_response r =
    r.id
    ∷ r.organization_id
    ∷ r.version_id
    ∷ r.created_at
    ∷ put_bool r.is_archived
    ∷ put_uuid r.team_id
    ∷ put_text r.name (put_text r.key (put_option r.description))

abbrev pub with_key :
    (Text → Text → Option Text → ProjectResponse) → Text → Text × Text → ProjectResponse
with_key f name (key, rest) = f name key (take_option rest)

abbrev pub with_name : (Text → Text → Option Text → ProjectResponse) → Text × Text → ProjectResponse
with_name f (name, rest) = with_key f name (take_text rest)

abbrev pub take_response : Text → Option ProjectResponse
take_response (i ∷ o ∷ v ∷ c ∷ archived ∷ team ∷ rest) =
    some (with_name (built i o v c (take_bool archived) (take_uuid team)) (take_text rest))
take_response _ = none

pub take_response-put_response : (r : ProjectResponse) → take_response (put_response r) ≡ some r
take_response-put_response r =
    let f = built r.id r.organization_id r.version_id r.created_at in
    ap
      (λ x.
        some
          (with_name (f (take_bool (put_bool r.is_archived)) (take_uuid (put_uuid r.team_id))) x))
      (take_text-put_text r.name (put_text r.key (put_option r.description)))
    ∙ (ap
          (λ x. some (
            with_key (f (take_bool (put_bool r.is_archived)) (take_uuid (put_uuid r.team_id)))
              r.name x))
          (take_text-put_text r.key (put_option r.description))
        ∙ (ap
              (λ b. some (
                f b (take_uuid (put_uuid r.team_id)) r.name r.key
                  (take_option (put_option r.description))))
              (take_bool-put_bool r.is_archived)
            ∙ (ap
                  (λ t.
                    some (f r.is_archived t r.name r.key (take_option (put_option r.description))))
                  (take_uuid-put_uuid r.team_id)
                ∙ ap (λ d. some (f r.is_archived r.team_id r.name r.key d))
                    (take_option-put_option r.description))))

abbrev pub sample_json : JsonCodec ProjectResponse
sample_json = record {
  model_dump_json = put_response;
  model_validate = take_response;
  model_validate-dump = take_response-put_response;
}
