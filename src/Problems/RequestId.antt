-- ===== src/Problems/RequestId.antt =====
-- The identifier and the problem document of a response: the handlers and the middleware of
-- app/core/middleware.py, together.
use multi_tenant_saas.Base.{
  ℕ, ◌≡◌, refl, ap, ◌∙◌, true, false, not, List, [], ◌∷◌, filter, map, Bool-cases, inl, inr,
}
use multi_tenant_saas.Text.{Text, text_eq, lower, to_lower}
use multi_tenant_saas.Text.Laws.{text_eq_sound, text_eq_refl}
use multi_tenant_saas.Problems.HeaderList.{
  Headers, request_id_name, response_time_name, is_named, set_header,
}
use multi_tenant_saas.Problems.{
  Raised, app_error, http_error, validation_error, unhandled, ProblemDetailResponse, problem,
  Response, Request, bound_or, Outcome, returned, raised, respond, handled, dispatch,
  app_exception_handler, http_exception_handler, validation_exception_handler,
  global_unhandled_exception_handler,
}

-- What a client reads under a name.
abbrev pub header_values : Text → Headers → List Text
header_values name headers = map (λ (h : Text × Text). h.1) (filter (is_named name) headers)

none_left :
    (name : Text) (headers : Headers)
    → header_values name (filter (λ x. not (is_named name x)) headers) ≡ []
none_left name [] = refl
none_left name (h ∷ headers) = elim (Bool-cases (is_named name h)) [
  | inl e ↦ rw e (none_left name headers)
  | inr e ↦ rw e (rw e (none_left name headers))
]

header_values-set_header :
    (name value : Text) (headers : Headers)
    → header_values name (set_header name value headers) ≡ value ∷ []
unfolding set_header
header_values-set_header name value [] = rw (text_eq_refl (lower name)) refl
header_values-set_header name value (h ∷ headers) = elim (Bool-cases (is_named name h)) [
  | inl e ↦
      rw (set_header, e)
        (rw (text_eq_refl (lower name))
          (ap (λ (l : List Text). value ∷ l) (none_left name headers)))
  | inr e ↦ rw (set_header, e) (rw e (header_values-set_header name value headers))
]

-- The names differ by more than case.
module _ (name other : Text) (differ : text_eq (lower other) (lower name) ≡ false) where
  other_name : (h : Text × Text) → is_named other h ≡ true → is_named name h ≡ false
  other_name h e =
      ap (λ (t : Text). text_eq t (lower name)) (text_eq_sound (lower h.0) (lower other) e) ∙ differ

  others_kept :
      (headers : Headers)
      → header_values name (filter (λ x. not (is_named other x)) headers)
        ≡ header_values name headers
  others_kept [] = refl
  others_kept (h ∷ headers) = elim (Bool-cases (is_named other h)) [
    | inl e ↦ rw (e, other_name h e) (others_kept headers)
    | inr e ↦ rw e (elim (Bool-cases (is_named name h)) [
      | inl f ↦ rw f (ap (λ (l : List Text). h.1 ∷ l) (others_kept headers))
      | inr f ↦ rw f (others_kept headers)
    ])
  ]

  header_values-set_header_other :
      (value : Text) (headers : Headers)
      → header_values name (set_header other value headers) ≡ header_values name headers
  unfolding set_header
  header_values-set_header_other value [] = rw differ refl
  header_values-set_header_other value (h ∷ headers) = elim (Bool-cases (is_named other h)) [
    | inl e ↦ rw (set_header, e) (rw (differ, other_name h e) (others_kept headers))
    | inr e ↦
        rw (set_header, e)
          (elim (Bool-cases (is_named name h)) [
            | inl f ↦
                rw f
                  (ap (λ (l : List Text). h.1 ∷ l) (header_values-set_header_other value headers))
            | inr f ↦ rw f (header_values-set_header_other value headers)
          ])
  ]

-- The status of the answer to an exception.
abbrev pub expected_status : Raised → ℕ
expected_status (app_error exc) = exc.status_code
expected_status (http_error code _ _) = code
expected_status (validation_error _) = 422
expected_status unhandled = 500

-- What the client gets for what a route comes to.
abbrev pub Answers : Text → Text → Outcome → Response → Type 0
Answers request_id path (returned response) r =
    (r.content ≡ response.content) × (r.status_code ≡ response.status_code)
Answers request_id path (raised exc) r =
    (p : ProblemDetailResponse) × (r.content ≡ problem p)
    × (p.request_id ≡ request_id)
    × (p.instance_path ≡ path)
    × (p.status ≡ r.status_code)
    × (r.status_code ≡ expected_status exc)

names_differ : text_eq (lower response_time_name) (lower request_id_name) ≡ false
unfolding lower to_lower
names_differ = refl

marked_lem :
    (request_id process_time : Text) (headers : Headers)
    → header_values request_id_name
        (set_header response_time_name process_time (set_header request_id_name request_id headers))
      ≡ request_id ∷ []
marked_lem request_id process_time headers =
    header_values-set_header_other request_id_name response_time_name names_differ process_time
      (set_header request_id_name request_id headers)
    ∙ header_values-set_header request_id_name request_id headers

-- Whatever a route comes to, the response has exactly one X-Request-ID: the one of the request, if
-- it has one, else a new one. A response of a route keeps its status and its content. Every
-- exception becomes a problem document with that identifier and the path of the request, whose
-- status is the response's: that of the exception, 422 for a payload that is refused, and 500 for
-- what no handler knows.
pub respond_lem :
    (request : Request) (new_id process_time : Text) (outcome : Outcome)
    → let request_id = bound_or request.x_request_id new_id in
      let r = respond request new_id process_time outcome in
      (header_values request_id_name r.headers ≡ request_id ∷ [])
      × Answers request_id request.path outcome r
unfolding respond dispatch handled app_exception_handler http_exception_handler
    validation_exception_handler global_unhandled_exception_handler
respond_lem request new_id process_time (returned response) =
    (marked_lem (bound_or request.x_request_id new_id) process_time response.headers, (refl, refl))
respond_lem request new_id process_time (raised (app_error exc)) = (
  marked_lem (bound_or request.x_request_id new_id) process_time
      ((app_exception_handler (bound_or request.x_request_id new_id) request.path exc).headers),
  (_, refl, refl, refl, refl, refl),
)
respond_lem request new_id process_time (raised (http_error code detail headers)) = (
  marked_lem (bound_or request.x_request_id new_id) process_time (
      (http_exception_handler (bound_or request.x_request_id new_id) request.path code detail
        headers).headers),
  (_, refl, refl, refl, refl, refl),
)
respond_lem request new_id process_time (raised (validation_error errors)) = (
  marked_lem (bound_or request.x_request_id new_id) process_time (
      (validation_exception_handler (bound_or request.x_request_id new_id) request.path
        errors).headers),
  (_, refl, refl, refl, refl, refl),
)
respond_lem request new_id process_time (raised unhandled) =
    (rw (text_eq_refl (lower request_id_name)) refl, (_, refl, refl, refl, refl, refl))
