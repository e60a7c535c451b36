-- ===== src/Attachments/Tests.antt =====
-- The theorems on attachments at the sample database with an attachment of the other tenant.
use multi_tenant_saas.Base.{◌≡◌, ◌≢◌, refl, arith, [], ◌∷◌}
use multi_tenant_saas.Models.{Attachment, manager, pos}
use multi_tenant_saas.Session.{World, ok}
use multi_tenant_saas.Access.{TenantContext}
use multi_tenant_saas.Samples.{sample_world, sample_db, acme_task, ann}
use multi_tenant_saas.Tasks.Occ.{live_task}
use multi_tenant_saas.Attachments.{AttachmentConfirmCreate, AttachmentResponse, confirm_attachment}
use multi_tenant_saas.Attachments.Confirm.{
  confirmation, confirm_attachment_lem, confirm_attachment_foreign_key,
}

abbrev plan_of_globex : Attachment
plan_of_globex = record {
  id = 71;
  organization_id = 12;
  task_id = 42;
  uploader_id = 2;
  file_name = 102 ∷ [];
  file_size = pos 10;
  content_type = 116 ∷ [];
  s3_key = 107 ∷ 49 ∷ [];
  created_at = 20;
  updated_at = 20;
}

abbrev attached : World
attached = record sample_world { working = record sample_db { attachments = plan_of_globex ∷ [] } }

abbrev ann_at_acme : TenantContext
ann_at_acme = record { user = ann; organization_id = 11; role = manager }

abbrev claim_it : AttachmentConfirmCreate
claim_it = record {
  file_name = 102 ∷ [];
  file_size = pos 10;
  content_type = 116 ∷ [];
  s3_key = 107 ∷ 49 ∷ [];
}

confirm_attachment_lem_example :
    confirm_attachment (λ k. 47 ∷ k) 41 claim_it ann_at_acme attached
    ≡ confirmation (λ k. 47 ∷ k) 41 claim_it ann_at_acme attached (live_task 11 41 sample_db.tasks)
confirm_attachment_lem_example =
    confirm_attachment_lem (λ k. 47 ∷ k) 41 claim_it ann_at_acme attached

confirm_attachment_foreign_key_example :
    (answer : AttachmentResponse) × ((confirm_attachment
        (λ k. 47 ∷ k)
        41
        claim_it
        ann_at_acme
        attached).0
      ≡ ok answer)
    × (answer.organization_id ≢ 12)
    × (answer.download_url ≡ 47 ∷ 107 ∷ 49 ∷ [])
confirm_attachment_foreign_key_example =
    confirm_attachment_foreign_key (λ k. 47 ∷ k) 41 claim_it ann_at_acme attached acme_task
      plan_of_globex [] [] refl (omega arith) refl refl refl
