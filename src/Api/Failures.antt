-- ===== src/Api/Failures.antt =====
-- How an error of a request is answered: internal/api/errors.go. An error is what errors.Is and
-- errors.As find in it; a status is not negative.
use aistudio2api.Prelude.{
  ℕ, ◌≤◌, ◌≡◌, ◌⊎◌, inl, inr, refl, Bool, true, false, ◌&&◌, ◌||◌, if◌then◌else◌, ◌==◌, leb, Option,
  none, some, Text, codes, str_eq, is_empty, arith, if_cases,
}

-- `unverified` and the fields before it say what errors.Is and errors.As find; the others are the
-- StatusCode of the RPCError in it and the results of the methods that it has.
pub record RequestError : Type 0 where
  pub canceled : Bool
  pub deadline_exceeded : Bool
  pub accounts_not_ready : Bool
  pub no_eligible_account : Bool
  pub invalid_argument : Bool
  pub model_not_found : Bool
  pub unverified : Bool
  pub rpc_error : Option ℕ
  pub http_status : Option ℕ
  pub status_code : Option ℕ
  pub error_code : Option Text

unfoldable pub valid_http_status : ℕ → ℕ
valid_http_status status = if leb 400 status && leb status 599 then status else 502

abbrev pub is_upstream_not_found : Option ℕ → Bool
is_upstream_not_found none = false
is_upstream_not_found (some status) = status == 404

abbrev pub own_status : Option ℕ → Option ℕ → ℕ
own_status (some status) _ = valid_http_status status
own_status none (some status) = valid_http_status status
own_status none none = 502

unfoldable pub status_from_error : RequestError → ℕ
status_from_error e =
    if e.canceled
    then 503
    else if e.deadline_exceeded
    then 504
    else if e.accounts_not_ready
    then 503
    else if e.no_eligible_account
    then 400
    else if e.invalid_argument
    then 400
    else if e.model_not_found
    then 404
    else if e.unverified
    then 400
    else if is_upstream_not_found e.rpc_error
    then 502
    else own_status e.http_status e.status_code

unfoldable pub code_from_error : RequestError → Text → Text
code_from_error e default_code = elim e.error_code [
  | none ↦ default_code
  | some code ↦ if is_empty code then default_code else code
]

unfoldable pub openai_error_code : RequestError → Text
unfolding code_from_error status_from_error
openai_error_code e =
    if e.canceled
    then codes "request_canceled"
    else if e.model_not_found
    then codes "model_not_found"
    else if e.accounts_not_ready
    then codes "account_unavailable"
    else if e.no_eligible_account
    then codes "account_required"
    else if e.invalid_argument
    then codes "invalid_request"
    else if e.unverified
    then codes "invalid_request"
    else if status_from_error e == 404
    then code_from_error e (codes "model_not_found")
    else code_from_error e (codes "upstream_error")

unfoldable pub openai_error_type : ℕ → Text → Text
openai_error_type status code =
    if (status == 400 || (status == 401 || (status == 403 || status == 404)))
      || (str_eq code (codes "invalid_request")
          || (str_eq code (codes "invalid_api_key") || str_eq code (codes "model_not_found")))
    then codes "invalid_request_error"
    else codes "api_error"

unfoldable pub anthropic_error_type : RequestError → Text
unfolding status_from_error
anthropic_error_type e =
    if e.unverified
    then codes "invalid_request_error"
    else (let status = status_from_error e in
        if status == 400
        then codes "invalid_request_error"
        else if status == 401
        then codes "authentication_error"
        else if status == 403
        then codes "permission_error"
        else if status == 404
        then codes "not_found_error"
        else if status == 413
        then codes "request_too_large"
        else if status == 429
        then codes "rate_limit_error"
        else if status == 529
        then codes "overloaded_error"
        else codes "api_error")

unfoldable pub gemini_error_status : RequestError → Text
unfolding status_from_error
gemini_error_status e =
    let status = status_from_error e in
    if status == 400
    then codes "INVALID_ARGUMENT"
    else if status == 401
    then codes "UNAUTHENTICATED"
    else if status == 403
    then codes "PERMISSION_DENIED"
    else if status == 404
    then codes "NOT_FOUND"
    else if status == 429
    then codes "RESOURCE_EXHAUSTED"
    else if status == 503
    then codes "UNAVAILABLE"
    else if status == 504
    then codes "DEADLINE_EXCEEDED"
    else codes "INTERNAL"

valid-InRange : (status : ℕ) → (400 ≤ valid_http_status status) × (valid_http_status status ≤ 599)
unfolding valid_http_status
valid-InRange status = ground arith

own-InRange : (a b : Option ℕ) → (400 ≤ own_status a b) × (own_status a b ≤ 599)
own-InRange (some s) b = valid-InRange s
own-InRange none (some s) = valid-InRange s
own-InRange none none = (omega arith, omega arith)

-- Whatever an error says of itself, it is answered with a status of a client or server error.
pub status_from_error-InRange :
    (e : RequestError) → (400 ≤ status_from_error e) × (status_from_error e ≤ 599)
unfolding status_from_error
status_from_error-InRange e = ground (arith, own-InRange e.http_status e.status_code)

-- The request is at fault, as nothing before the error's own kind is tested says otherwise.
pub record IsRequestFault (e : RequestError) : Type 0 where
  pub running : (e.canceled ≡ false) × (e.deadline_exceeded ≡ false)
  pub able : e.accounts_not_ready ≡ false
  pub known : e.model_not_found ≡ false
  pub fault : (e.invalid_argument ≡ true) ⊎ (e.unverified ≡ true)

fault_status : (e : RequestError) → IsRequestFault e → status_from_error e ≡ 400
unfolding status_from_error
fault_status e f = elim f.fault [
  | inl h ↦ ground (arith, f.running, f.able, f.known, h)
  | inr h ↦ ground (arith, f.running, f.able, f.known, h)
]

-- An argument that is refused, or a request that the wire format has no verified form for, is the
-- client's fault in each of the three protocols, where neither the request was given up nor the accounts
-- were unready nor the model unknown.
pub request_fault_answers :
    (e : RequestError)
    → IsRequestFault e
    → (status_from_error e ≡ 400)
      × (openai_error_type (status_from_error e) (openai_error_code e)
          ≡ codes "invalid_request_error")
      × (anthropic_error_type e ≡ codes "invalid_request_error")
      × (gemini_error_status e ≡ codes "INVALID_ARGUMENT")
unfolding openai_error_type anthropic_error_type gemini_error_status
request_fault_answers e f =
    let s = fault_status e f in
    (
      s,
      rw s refl,
      if_cases (λ (t : Text). t ≡ codes "invalid_request_error") e.unverified (λ h. refl)
          (λ h. rw s refl),
      rw s refl,
    )
