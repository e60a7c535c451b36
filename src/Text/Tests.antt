-- ===== src/Text/Tests.antt =====
-- Runs of the text functions, and the theorems at concrete texts.
use Prim.Native.Char.{code}
use Prim.Native.String.{String}
use multi_tenant_saas.Base.{◌≡◌, ◌≤◌, refl, ◌∷◌, [], length, arith}
use multi_tenant_saas.Text.{
  Text, slugify, clean_email, strip, lower, to_lower, lstrip, rstrip, is_space, is_word,
  is_separator, collapse,
}
use multi_tenant_saas.Text.Slug.{IsSlug, slugify_normal_form}

abbrev codes : String → Text
codes String.[] = []
codes (String.◌∷◌ c s) = code c ∷ codes s

slugify_run : slugify (codes " Acme & Sons -- R_D ") ≡ codes "acme-sons-r-d"
unfolding slugify strip lower to_lower lstrip rstrip is_space is_word is_separator collapse
slugify_run = refl

clean_email_run : clean_email (codes " Ann@Example.COM ") ≡ codes "ann@example.com"
unfolding clean_email strip lower to_lower lstrip rstrip is_space
clean_email_run = refl

slugify_normal_form_example :
    let s = slugify (codes "Acme  Org") in IsSlug s × (slugify s ≡ s) × (length s ≤ 9)
slugify_normal_form_example = slugify_normal_form (codes "Acme  Org") (ground arith)
