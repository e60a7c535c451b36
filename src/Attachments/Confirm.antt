-- ===== src/Attachments/Confirm.antt =====
-- What `confirm_attachment` does.
use multi_tenant_saas.Base.{
  ◌+◌, ◌≡◌, ◌≢◌, refl, ap, sym, true, Option, none, some, List, [], ◌∷◌, ◌++◌, arith, if◌then◌else◌,
}
use multi_tenant_saas.Text.{Text}
use multi_tenant_saas.Models.{Uuid, Task, Attachment}
use multi_tenant_saas.Session.{entity_not_found, database_error, Result, ok, err, World}
use multi_tenant_saas.Repositories.Tables.{attachment_table}
use multi_tenant_saas.Access.{TenantContext}
use multi_tenant_saas.Tasks.Occ.{live_task}
use multi_tenant_saas.Attachments.{AttachmentConfirmCreate, AttachmentResponse, confirm_attachment}

abbrev pub new_attachment : Uuid → AttachmentConfirmCreate → TenantContext → World → Attachment
new_attachment task_id payload ctx w = record {
  id = w.next_uuid;
  organization_id = ctx.organization_id;
  task_id = task_id;
  uploader_id = ctx.user.id;
  file_name = payload.file_name;
  file_size = payload.file_size;
  content_type = payload.content_type;
  s3_key = payload.s3_key;
  created_at = w.now;
  updated_at = w.now;
}

abbrev pub with_attachment : Attachment → World → World
with_attachment attachment w =
    let db = record w.working { attachments = w.working.attachments ++ attachment ∷ [] } in
    record w { working = db; committed = db; next_uuid = w.next_uuid + 1 }

module _ (presigned_get : Text → Text) (task_id : Uuid) (payload : AttachmentConfirmCreate)
    (ctx : TenantContext) (w : World) where
  -- The answer: the link is to the object of the key that the payload names.
  abbrev pub confirmed : AttachmentResponse
  confirmed = record {
    id = w.next_uuid;
    organization_id = ctx.organization_id;
    task_id = task_id;
    uploader_id = ctx.user.id;
    file_name = payload.file_name;
    file_size = payload.file_size;
    content_type = payload.content_type;
    download_url = presigned_get payload.s3_key;
    created_at = w.now;
  }

  -- What the confirmation should do, in terms of the live task alone.
  abbrev pub confirmation : Option Task → Result AttachmentResponse × World
  confirmation none = (err (entity_not_found "Task"), w)
  confirmation (some t) =
      let attachment = new_attachment task_id payload ctx w in
      if attachment_table.valid w.working attachment
      then (ok confirmed, with_attachment attachment w)
      else (err database_error, record w { next_uuid = w.next_uuid + 1 })

  -- Confirming an upload does exactly this: without a live task of the tenant it is a 404, and a
  -- row that the database refuses is an error, both without a change of any row; otherwise the row,
  -- with the caller as the uploader, is committed, and the answer has its columns and a download
  -- URL for the key of the payload.
  pub confirm_attachment_lem :
      confirm_attachment presigned_get task_id payload ctx w
      ≡ confirmation (live_task ctx.organization_id task_id w.working.tasks)
  unfolding confirm_attachment
  confirm_attachment_lem = ground arith

  -- The key of the payload is not compared with the tenant. If the task is live, the row is valid,
  -- and the key is that of an attachment of another organization, the answer has the download URL
  -- of that organization's object.
  pub confirm_attachment_foreign_key :
      (t : Task) (other : Attachment) (before after : List Attachment)
      → w.working.attachments ≡ before ++ other ∷ after
      → other.organization_id ≢ ctx.organization_id
      → payload.s3_key ≡ other.s3_key
      → live_task ctx.organization_id task_id w.working.tasks ≡ some t
      → attachment_table.valid w.working (new_attachment task_id payload ctx w) ≡ true
      → (answer : AttachmentResponse) × ((confirm_attachment presigned_get task_id payload ctx w).0
          ≡ ok answer)
        × (answer.organization_id ≢ other.organization_id)
        × (answer.download_url ≡ presigned_get other.s3_key)
  confirm_attachment_foreign_key t other before after stored foreign same live valid =
      rw (confirm_attachment_lem, live, valid)
        (confirmed, refl, λ e. foreign (sym e), ap presigned_get same)
