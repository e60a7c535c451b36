-- ===== src/Tasks/Assigned.antt =====
-- What an update with optional attributes should leave in a column (`update_task` of
-- app/api/v1/endpoints/tasks.py, `update_project` of app/services/project.py).
use multi_tenant_saas.Base.{◌≡◌, refl, Option, none, some, or_else}
use multi_tenant_saas.Text.{Text, strip}
use multi_tenant_saas.Tasks.Endpoints.{override, stripped}

-- An attribute keeps its value unless the payload gives one; a given title loses its outer spaces.
abbrev pub kept_or {ℓ} : {A : Type ℓ} → A → Option A → A
kept_or old none = old
kept_or old (some new) = new

abbrev pub kept_or_null {ℓ} : {A : Type ℓ} → Option A → Option A → Option A
kept_or_null old none = old
kept_or_null old (some new) = some new

abbrev pub new_title : Text → Option Text → Text
new_title old none = old
new_title old (some new) = strip new

pub kept_or-or_else : {A : Type 0} (old : A) (new : Option A) → or_else new old ≡ kept_or old new
kept_or-or_else old none = refl
kept_or-or_else old (some new) = refl

pub kept_or_null-override :
    {A : Type 0} (old new : Option A) → override new old ≡ kept_or_null old new
kept_or_null-override old none = refl
kept_or_null-override old (some new) = refl

pub new_title-stripped : (old : Text) (new : Option Text) → stripped new old ≡ new_title old new
new_title-stripped old none = refl
new_title-stripped old (some new) = refl
