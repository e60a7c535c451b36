-- ===== src/Attachments/Storage.antt =====
-- Keys of objects (`generate_file_key` of app/services/storage.py), the handler
-- `generate_upload_url` and the list of a task's attachments (app/repositories/attachment.py). The
-- texts of UUIDs and the signing of URLs are parameters. Attachments of equal times are listed in
-- the order of insertion, where the database promises none.
use multi_tenant_saas.Base.{
  ℕ, ◌≡◌, refl, false, ◌&&◌, none, some, List, [], ◌∷◌, ◌++◌, ◌==◌, if◌then◌else◌, filter, map,
}
use multi_tenant_saas.Text.{Text}
use multi_tenant_saas.Text.Split.{split_at}
use multi_tenant_saas.Models.{Uuid, Attachment}
use multi_tenant_saas.Session.{entity_not_found, Action, pure, raise, query, uuid4, ◌>>=◌}
use multi_tenant_saas.Repositories.{get_by_id}
use multi_tenant_saas.Repositories.Tables.{task_model}
use multi_tenant_saas.Access.{TenantContext}
use multi_tenant_saas.Pages.{earlier, order_by}
use multi_tenant_saas.Cache.Keys.{UuidText}
use multi_tenant_saas.Attachments.{AttachmentResponse, attachment_response}

pub record PresignedUploadRequest : Type 0 where
  pub file_name : Text
  pub file_size : ℕ
  pub content_type : Text

pub record PresignedUploadResponse : Type 0 where
  pub upload_url : Text
  pub file_key : Text
  pub expires_in : ℕ

-- `file_name.replace(" ", "_")`
abbrev pub clean_name : Text → Text
clean_name file_name = map (λ c. if c == b' ' then b'_' else c) file_name

abbrev pub tasks_text : Text
tasks_text = b't' ∷ b'a' ∷ b's' ∷ b'k' ∷ b's' ∷ []

-- `AttachmentRepository.list_by_task`
unfoldable pub list_by_task : Uuid → Uuid → List Attachment → List Attachment
unfolding order_by
list_by_task organization_id task_id attachments =
    order_by (λ (a : Attachment). (a.created_at, 0)) earlier
      (filter (λ a. (a.organization_id == organization_id) && (a.task_id == task_id)) attachments)

-- The handler `list_attachments`.
unfoldable pub list_attachments :
    (Text → Text) → Uuid → TenantContext → Action (List AttachmentResponse)
unfolding list_by_task
list_attachments presigned_get task_id ctx = query (λ db.
    map (attachment_response presigned_get)
      (list_by_task ctx.organization_id task_id db.attachments))

-- `uuid4().hex[:8]` of a new UUID is a parameter.
module _ (uuids : UuidText) (hex8 : Uuid → Text) where
  open uuids use {uuid_text, uuid_text_injective, without_slash}

  unfoldable pub generate_file_key : Uuid → Uuid → Text → Uuid → Text
  generate_file_key organization_id task_id file_name drawn =
      uuid_text organization_id
      ++ b'/'
        ∷ (tasks_text
            ++ b'/' ∷ (uuid_text task_id ++ b'/' ∷ (hex8 drawn ++ b'_' ∷ clean_name file_name)))

  -- `generate_presigned_upload_url` signs a key and a content type, for 300 seconds.
  unfoldable pub generate_upload_url :
      (Text → Text → ℕ → Text)
      → Uuid
      → PresignedUploadRequest
      → TenantContext
      → Action PresignedUploadResponse
  unfolding get_by_id generate_file_key
  generate_upload_url presigned_put task_id payload ctx = do
    task ← get_by_id task_model ctx.organization_id task_id false
    elim task [
      | none ↦ raise (entity_not_found "Task")
      | some _ ↦ do
        drawn ← uuid4
        let file_key = generate_file_key ctx.organization_id task_id payload.file_name drawn
        pure (record {
          upload_url = presigned_put file_key payload.content_type 300;
          file_key = file_key;
          expires_in = 300;
        })
    ]

  -- Whatever the names of the files are, keys of different tenants or of different tasks differ.
  pub generate_file_key_isolated :
      (o t o' t' : Uuid) (name name' : Text) (drawn drawn' : Uuid)
      → generate_file_key o t name drawn ≡ generate_file_key o' t' name' drawn'
      → (o ≡ o') × (t ≡ t')
  unfolding generate_file_key
  generate_file_key_isolated o t o' t' name name' drawn drawn' e =
      let end = hex8 drawn ++ b'_' ∷ clean_name name in
      let end' = hex8 drawn' ++ b'_' ∷ clean_name name' in
      let (tenant, rest) =
        split_at b'/' (uuid_text o) (uuid_text o')
          (tasks_text ++ b'/' ∷ (uuid_text t ++ b'/' ∷ end))
          (tasks_text ++ b'/' ∷ (uuid_text t' ++ b'/' ∷ end')) (without_slash o) (without_slash o')
          e in
      let (_, rest') =
        split_at b'/' tasks_text tasks_text (uuid_text t ++ b'/' ∷ end)
          (uuid_text t' ++ b'/' ∷ end') refl refl rest in
      let (task, _) =
        split_at b'/' (uuid_text t) (uuid_text t') end end' (without_slash t) (without_slash t')
          rest' in
      (uuid_text_injective o o' tenant, uuid_text_injective t t' task)
