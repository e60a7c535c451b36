-- ===== src/Cache/Keys.antt =====
-- `build_key` of app/core/cache.py for the key of a project.
use multi_tenant_saas.Base.{◌≡◌, refl, sym, ap, ◌∙◌, false, [], ◌∷◌, ◌++◌, ◌==◌, any, some}
use multi_tenant_saas.Text.{Text, strip, lstrip, rstrip, is_space}
use multi_tenant_saas.Text.Split.{split_at}
use multi_tenant_saas.Models.{Uuid}
use multi_tenant_saas.Cache.{build_key}

-- `str(uuid)`: distinct texts without a colon, a slash or a blank at the ends.
pub record UuidText : Type 0 where
  pub uuid_text : Uuid → Text
  pub uuid_text_injective : (a b : Uuid) → uuid_text a ≡ uuid_text b → a ≡ b
  pub without_colon : (a : Uuid) → any (λ c. c == b':') (uuid_text a) ≡ false
  pub without_slash : (a : Uuid) → any (λ c. c == b'/') (uuid_text a) ≡ false
  pub strip-uuid_text : (a : Uuid) → strip (uuid_text a) ≡ uuid_text a

abbrev pub tenant_text : Text
tenant_text = b't' ∷ b'e' ∷ b'n' ∷ b'a' ∷ b'n' ∷ b't' ∷ []

abbrev pub projects_text : Text
projects_text = b'p' ∷ b'r' ∷ b'o' ∷ b'j' ∷ b'e' ∷ b'c' ∷ b't' ∷ b's' ∷ []

module _ (uuids : UuidText) where
  open uuids use {uuid_text, uuid_text_injective, without_colon, strip-uuid_text}

  -- `CacheService.build_key("tenant", str(organization_id), "projects", str(project_id))`
  unfoldable pub project_key : Uuid → Uuid → Text
  project_key organization_id project_id =
      build_key tenant_text
        (some (uuid_text organization_id) ∷ some projects_text ∷ some (uuid_text project_id) ∷ [])

  plain_key :
      (o p : Uuid)
      → project_key o p
        ≡ tenant_text ++ b':' ∷ (uuid_text o ++ b':' ∷ (projects_text ++ b':' ∷ uuid_text p))
  unfolding project_key build_key strip lstrip rstrip is_space
  plain_key o p =
      ap
        (λ (a : Text).
          tenant_text ++ b':' ∷ (a ++ b':' ∷ (projects_text ++ b':' ∷ strip (uuid_text p))))
        (strip-uuid_text o)
      ∙ ap (λ (a : Text). tenant_text ++ b':' ∷ (uuid_text o ++ b':' ∷ (projects_text ++ b':' ∷ a)))
          (strip-uuid_text p)

  -- Two projects of the same or of different tenants have the same key in the cache only if the
  -- tenants and the projects are the same.
  pub project_key_injective :
      (o p o' p' : Uuid) → project_key o p ≡ project_key o' p' → (o ≡ o') × (p ≡ p')
  project_key_injective o p o' p' e =
      let same = sym (plain_key o p) ∙ (e ∙ plain_key o' p') in
      let (_, rest) =
        split_at b':' tenant_text tenant_text
          (uuid_text o ++ b':' ∷ (projects_text ++ b':' ∷ uuid_text p))
          (uuid_text o' ++ b':' ∷ (projects_text ++ b':' ∷ uuid_text p')) refl refl same in
      let (tenant, rest') =
        split_at b':' (uuid_text o) (uuid_text o') (projects_text ++ b':' ∷ uuid_text p)
          (projects_text ++ b':' ∷ uuid_text p') (without_colon o) (without_colon o') rest in
      let (_, project) =
        split_at b':' projects_text projects_text (uuid_text p) (uuid_text p') refl refl rest' in
      (uuid_text_injective o o' tenant, uuid_text_injective p p' project)
