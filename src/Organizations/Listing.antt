-- ===== src/Organizations/Listing.antt =====
-- What `list_organization_members` answers.
use multi_tenant_saas.Base.{
  ℕ, ◌≡◌, refl, ap, Bool, some, List, [], ◌∷◌, ◌==◌, inl, inr, filter, All, Bool-cases,
}
use multi_tenant_saas.Models.{Db, User, OrganizationMember}
use multi_tenant_saas.Session.{ok, World}
use multi_tenant_saas.Access.{TenantContext}
use multi_tenant_saas.Pages.{later, order_by, insert_row}
use multi_tenant_saas.Organizations.{
  OrgMemberDetailResponse, member_detail, member_details, user_of_member, joined_position,
  list_organization_members,
}

-- Every membership has its user, as the foreign key promises.
abbrev pub HasUsers : Db → List OrganizationMember → Type 0
HasUsers db = All (λ m. (u : User) × (user_of_member db m ≡ some u))

-- The responses answer to the members, one to one.
abbrev pub AnswerTo : Db → List OrganizationMember → List OrgMemberDetailResponse → Type 0
AnswerTo db [] [] = Unit
AnswerTo db [] (_ ∷ _) = ⊥
AnswerTo db (_ ∷ _) [] = ⊥
AnswerTo db (m ∷ members) (d ∷ details) =
    ((u : User) × (user_of_member db m ≡ some u) × (d ≡ member_detail m u))
    × AnswerTo db members details

member_details_answer :
    (db : Db) (members : List OrganizationMember)
    → HasUsers db members
    → (details : List OrgMemberDetailResponse) × (member_details db members ≡ ok details)
      × AnswerTo db members details
member_details_answer db [] h = ([], refl, tt)
member_details_answer db (m ∷ members) ((u, e), h) =
    let (details, f, k) = member_details_answer db members h in
    (member_detail m u ∷ details, rw (e, f) refl, ((u, e, refl), k))

All-insert_row :
    {A : Type 0} (P : A → Type 0) (position : A → ℕ × ℕ) (x : A) (ys : List A)
    → P x
    → All P ys
    → All P (insert_row position later x ys)
All-insert_row P position x [] p h = (p, tt)
All-insert_row P position x (y ∷ ys) p h = elim (Bool-cases (later (position y) (position x))) [
  | inl before ↦ rw before (h.0, All-insert_row P position x ys p h.1)
  | inr behind ↦ rw behind (p, h)
]

All-listed :
    {A : Type 0} (P : A → Type 0) (position : A → ℕ × ℕ) (p : A → Bool) (xs : List A)
    → All P xs
    → All P (order_by position later (filter p xs))
unfolding order_by
All-listed P position p [] h = tt
All-listed P position p (x ∷ xs) h = elim (Bool-cases (p x)) [
  | inl keep ↦ rw keep (
      All-insert_row P position x (order_by position later (filter p xs)) h.0
        (All-listed P position p xs h.1))
  | inr skip ↦ rw skip (All-listed P position p xs h.1)
]

-- If every membership has its user, the listing succeeds and answers for exactly the members of the
-- caller's organization, in the order of their times, each with the data of its user, and changes
-- nothing.
pub list_organization_members_lem :
    (ctx : TenantContext) (w : World)
    → HasUsers w.working w.working.members
    → let listed =
        order_by joined_position later
          (filter (λ m. m.organization_id == ctx.organization_id) w.working.members) in
      (details : List OrgMemberDetailResponse) × (list_organization_members ctx w ≡ (ok details, w))
      × AnswerTo w.working listed details
unfolding list_organization_members
list_organization_members_lem ctx w h =
    let (details, e, k) =
      member_details_answer w.working
        (order_by joined_position later
          (filter (λ m. m.organization_id == ctx.organization_id) w.working.members))
        (All-listed (λ m. (u : User) × (user_of_member w.working m ≡ some u)) joined_position
          (λ m. m.organization_id == ctx.organization_id) w.working.members h) in
    (details, ap (λ r. (r, w)) e, k)
