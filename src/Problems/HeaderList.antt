-- ===== src/Problems/HeaderList.antt =====
-- Headers of a response, as app/core/middleware.py sets them. Names are compared without regard to
-- case.
use multi_tenant_saas.Base.{Bool, not, List, [], ◌∷◌, filter, if◌then◌else◌}
use multi_tenant_saas.Text.{Text, text_eq, lower}

abbrev pub Headers : Type 0
Headers = List (Text × Text)

abbrev pub request_id_name : Text
request_id_name =
    b'X' ∷ b'-' ∷ b'R' ∷ b'e' ∷ b'q' ∷ b'u' ∷ b'e' ∷ b's' ∷ b't' ∷ b'-' ∷ b'I' ∷ b'D' ∷ []

abbrev pub response_time_name : Text
response_time_name =
    b'X' ∷ b'-' ∷ b'R' ∷ b'e' ∷ b's' ∷ b'p' ∷ b'o' ∷ b'n' ∷ b's' ∷ b'e' ∷ b'-' ∷ b'T' ∷ b'i' ∷ b'm'
    ∷ b'e' ∷ b'-' ∷ b'M' ∷ b'S' ∷ []

abbrev pub is_named : Text → Text × Text → Bool
is_named name (k, _) = text_eq (lower k) (lower name)

-- `response.headers[name] = value`: the first entry of the name gets the value, others of the name
-- go.
unfoldable pub set_header : Text → Text → Headers → Headers
unfolding lower
set_header name value [] = (name, value) ∷ []
set_header name value (h ∷ headers) =
    let rest = set_header name value headers in
    if is_named name h
    then (name, value) ∷ filter (λ x. not (is_named name x)) headers
    else h ∷ rest

-- `headers.update(...)` on a dictionary, whose keys are compared as they are.
unfoldable pub set_key : Text → Text → Headers → Headers
set_key key value [] = (key, value) ∷ []
set_key key value ((k, v) ∷ headers) =
    let rest = set_key key value headers in
    if text_eq k key then (k, value) ∷ headers else (k, v) ∷ rest

unfoldable pub update : Headers → Headers → Headers
unfolding set_key
update headers [] = headers
update headers ((k, v) ∷ more) = update (set_key k v headers) more
