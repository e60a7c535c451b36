-- ===== src/Pages/Tests.antt =====
-- The walk over the comments of a task, three of them in pages of two.
use multi_tenant_saas.Base.{
  ℕ, ◌≡◌, ◌&&◌, ◌==◌, refl, Bool, false, some, List, [], ◌∷◌, filter, length,
}
use multi_tenant_saas.Models.{Comment}
use multi_tenant_saas.Pages.{CursorCodec, Position, comment_position, later}
use multi_tenant_saas.Pages.Sorted.{IsSorted, later-KeysetOrder}
use multi_tenant_saas.Pages.Walk.{seen_rows, walk_covers}

-- A codec that hides nothing.
abbrev plain_codec : CursorCodec
plain_codec = record {
  Cursor = Position;
  encode_cursor = λ p. p;
  decode_cursor = λ p. some p;
  decode_cursor-encode_cursor = λ p. refl;
}

abbrev comment_at : ℕ → ℕ → Comment
comment_at id created_at = record {
  id = id;
  organization_id = 11;
  task_id = 41;
  author_id = 1;
  content = [];
  is_edited = false;
  created_at = created_at;
  updated_at = created_at;
}

abbrev talk : List Comment
talk = comment_at 3 20 ∷ comment_at 1 30 ∷ comment_at 2 20 ∷ []

abbrev of_task : Comment → Bool
of_task c = (c.organization_id == 11) && (c.task_id == 41)

walk_covers_example :
    let seen =
      seen_rows comment_position later later-KeysetOrder plain_codec of_task 1 talk
        (refl, (refl, (refl, tt))) in
    IsSorted comment_position later later-KeysetOrder seen
    × ((p : Comment → Bool) → length (filter p seen) ≡ length (filter p (filter of_task talk)))
walk_covers_example =
    walk_covers comment_position later later-KeysetOrder plain_codec of_task 1 talk
      (refl, (refl, (refl, tt)))
