-- ===== src/Attachments.antt =====
-- Attachments: `confirm_attachment` of app/api/v1/endpoints/attachments.py. The S3 client is
-- outside the repository: `presigned_get` stands for the URL that it signs for a key of the bucket.
pub mod Confirm
pub mod Storage
mod Tests
use multi_tenant_saas.Base.{Bool, false, Option, none, some}
use multi_tenant_saas.Text.{Text}
use multi_tenant_saas.Models.{Uuid, Timestamp, Attachment, ℤ}
use multi_tenant_saas.Session.{entity_not_found, Action, pure, raise, ◌>>=◌, ◌>>◌, commit}
use multi_tenant_saas.Repositories.{get_by_id, create_scoped}
use multi_tenant_saas.Repositories.Tables.{task_model, attachment_model}
use multi_tenant_saas.Access.{TenantContext}

pub record AttachmentConfirmCreate : Type 0 where
  pub file_name : Text
  pub file_size : ℤ
  pub content_type : Text
  pub s3_key : Text

pub record AttachmentResponse : Type 0 where
  pub id : Uuid
  pub organization_id : Uuid
  pub task_id : Uuid
  pub uploader_id : Uuid
  pub file_name : Text
  pub file_size : ℤ
  pub content_type : Text
  pub download_url : Text
  pub created_at : Timestamp

module _ (presigned_get : Text → Text) where
  abbrev pub attachment_response : Attachment → AttachmentResponse
  attachment_response attachment = record {
    id = attachment.id;
    organization_id = attachment.organization_id;
    task_id = attachment.task_id;
    uploader_id = attachment.uploader_id;
    file_name = attachment.file_name;
    file_size = attachment.file_size;
    content_type = attachment.content_type;
    download_url = presigned_get attachment.s3_key;
    created_at = attachment.created_at;
  }

  unfoldable pub confirm_attachment :
      Uuid → AttachmentConfirmCreate → TenantContext → Action AttachmentResponse
  unfolding get_by_id create_scoped
  confirm_attachment task_id payload ctx = do
    task ← get_by_id task_model ctx.organization_id task_id false
    elim task [
      | none ↦ raise (entity_not_found "Task")
      | some _ ↦ do
        attachment ←
            create_scoped attachment_model ctx.organization_id (λ organization attachment_id now.
              record {
                id = attachment_id;
                organization_id = organization;
                task_id = task_id;
                uploader_id = ctx.user.id;
                file_name = payload.file_name;
                file_size = payload.file_size;
                content_type = payload.content_type;
                s3_key = payload.s3_key;
                created_at = now;
                updated_at = now;
              })
        commit
        pure (attachment_response attachment)
    ]
