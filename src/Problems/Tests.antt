-- ===== src/Problems/Tests.antt =====
-- A conflict whose request names its identifier.
use multi_tenant_saas.Base.{◌≡◌, some, [], ◌∷◌}
use multi_tenant_saas.Problems.HeaderList.{request_id_name}
use multi_tenant_saas.Problems.{Request, raised, respond, entity_conflict_exception, app_error}
use multi_tenant_saas.Problems.RequestId.{header_values, Answers, respond_lem}

abbrev marked_request : Request
marked_request = record { path = b'/' ∷ []; x_request_id = some (b'7' ∷ []) }

respond_lem_example :
    let r =
      respond marked_request
        (b'8' ∷ [])
        (b'1' ∷ [])
        (raised (app_error (entity_conflict_exception "taken"))) in
    (header_values request_id_name r.headers ≡ (b'7' ∷ []) ∷ [])
    × Answers (b'7' ∷ []) (b'/' ∷ []) (raised (app_error (entity_conflict_exception "taken"))) r
respond_lem_example =
    respond_lem marked_request (b'8' ∷ []) (b'1' ∷ [])
      (raised (app_error (entity_conflict_exception "taken")))
