-- ===== src/Provisioning/Service/Requests.antt =====
-- The first part of the handlers in provisioning_service.c: where a request comes from, what it
-- carries, and whether it is authenticated. The JSON library is the record `CJson`.
use industrial_edge_monitor.Base.{
  ℕ, zero, suc, ◌-◌, Bool, true, false, ◌||◌, not, Option, none, some, List, [], ◌∷◌, ◌++◌, ℤ,
  length, take, drop, if◌then◌else◌, EspErr, esp_ok, esp_fail, is_ok, ◌==◌, codes, bytes_eq,
}
use industrial_edge_monitor.Provisioning.Endpoint.{Abi, authorize_socket, is_authorized}
use industrial_edge_monitor.Provisioning.Access.{json_body_allowed}
use industrial_edge_monitor.Provisioning.Service.{
  Request, Value, object, member, no_members, flag, text, Http, set_status, set_type, set_header,
  send_text, Act, ◌>>=◌, ◌>>◌, pure, call, emit,
}

-- A JSON value `J` as the file reads it: `cJSON_ParseWithLength`, the first member with a name,
-- and the value under each of the type tests. A number is `some` integer, or `none` where its
-- double has no integer value.
pub record CJson (J : Type 0) : Type 0 where
  pub parse : List ℕ → Option J
  pub is_object : J → Bool
  pub item : J → List ℕ → Option J
  pub string_value : J → Option (List ℕ)
  pub number_value : J → Option (Option ℤ)
  pub bool_value : J → Option Bool

-- `cJSON_GetObjectItemCaseSensitive`, `cJSON_IsObject` and the others on a pointer.
abbrev pub object_item : {J : Type 0} → CJson J → Option J → List ℕ → Option J
object_item json none name = none
object_item json (some j) name = json.item j name

abbrev pub is_json_object : {J : Type 0} → CJson J → Option J → Bool
is_json_object json none = false
is_json_object json (some j) = json.is_object j

abbrev pub json_string : {J : Type 0} → CJson J → Option J → Option (List ℕ)
json_string json none = none
json_string json (some j) = json.string_value j

-- `strstr`: the text behind the first occurrence of a part.
abbrev pub text_after : List ℕ → List ℕ → Option (List ℕ)
text_after part [] = if bytes_eq [] part then some [] else none
text_after part (x ∷ xs) =
    if bytes_eq (take (length part) (x ∷ xs)) part
    then some (drop (length part) (x ∷ xs))
    else text_after part xs

-- `strcspn(text, "; ")`.
abbrev pub value_length : List ℕ → ℕ
value_length [] = 0
value_length (x ∷ xs) = if x == b';' || x == b' ' then 0 else suc (value_length xs)

abbrev pub session_part : List ℕ
session_part = codes "IEM_SESSION="

-- The token in the text behind `IEM_SESSION=`.
abbrev pub token_of : Option (List ℕ) → Option (List ℕ)
token_of none = none
token_of (some start) = if not (value_length start == 32) then none else some (take 32 start)

-- The token that a function stores, `none` for the return of false.
unfoldable pub cookie_token : Request → Option (List ℕ)
cookie_token request = elim (request.header (codes "Cookie") 160) [
  | none ↦ none
  | some cookie ↦ token_of (text_after session_part cookie)
]

-- What `httpd_req_recv` in the loop comes to. `out_of_fuel` is no outcome of the program.
pub data Received : Type 0 where
  complete : List ℕ → Received
  failed : Received
  out_of_fuel : Received

abbrev pub error_object : List ℕ → Value
error_object message =
    object (member (codes "ok") (flag false) (member (codes "error") (text message) no_members))

abbrev pub or_text : List ℕ → Option (List ℕ) → List ℕ
or_text t none = t
or_text t (some u) = u

abbrev pub is_none : Option (List ℕ) → Bool
is_none none = true
is_none (some bytes) = false

abbrev pub bytes_of : Option (List ℕ) → List ℕ
bytes_of none = []
bytes_of (some bytes) = bytes

module _ {W : Type 0} (http : Http) where
  -- The bytes so far, and the number of those that are still to come.
  unfoldable pub receive_loop : ℕ → List ℕ → ℕ → Act W Received
  receive_loop fuel body zero = pure (complete body)
  receive_loop zero body (suc left) = pure out_of_fuel
  receive_loop (suc fuel) body (suc left) = do
    got ← call (λ n. http.receive n (suc left))
    if is_none got
        then pure failed
        else receive_loop fuel (body ++ bytes_of got) (suc left - length (bytes_of got))

  unfoldable pub request_arrived_on_softap : Abi → Request → Act W Bool
  request_arrived_on_softap abi request = do
    (ready, softap, netmask) ← call http.softap_ipv4
    local ← call (λ n. http.getsockname n request.socket)
    pure (is_authorized (authorize_socket abi local request.socket (is_ok ready) softap netmask).0)

  unfoldable pub json_error : Request → List ℕ → List ℕ → Act W EspErr
  json_error request status message = do
    emit (set_status request.handle status)
    emit (set_type request.handle (codes "application/json"))
    body ← call (λ n. http.print n (error_object message))
    emit (send_text request.handle (or_text (codes "{\"ok\":false}") body))
    call http.send

  -- From the test of the printed text on.
  unfoldable pub send_printed : Request → Option (List ℕ) → Act W EspErr
  unfolding json_error
  send_printed request none =
      json_error request (codes "500 Internal Server Error") (codes "response allocation failed")
  send_printed request (some printed) = do emit (send_text request.handle printed); call http.send

  unfoldable pub send_json : Request → Value → Act W EspErr
  unfolding send_printed
  send_json request value = do
    emit (set_type request.handle (codes "application/json"))
    emit (set_header request.handle (codes "Cache-Control") (codes "no-store"))
    body ← call (λ n. http.print n value)
    send_printed request body

  unfoldable pub send_json_text : Request → List ℕ → Act W EspErr
  send_json_text request body = do
    emit (set_type request.handle (codes "application/json"))
    emit (set_header request.handle (codes "Cache-Control") (codes "no-store"))
    emit (send_text request.handle body)
    call http.send

  -- A refused body: the pointer stays NULL, and the result is that of the response.
  unfoldable pub refuse_body : {J : Type 0} → Request → List ℕ → List ℕ → Act W (EspErr × Option J)
  unfolding json_error
  refuse_body request status message = do
    result ← json_error request status message
    pure (result, none)

  unfoldable pub parse_received :
      {J : Type 0} → CJson J → Request → Received → Act W (EspErr × Option J)
  unfolding refuse_body
  parse_received json request failed = pure (esp_fail, none)
  parse_received json request out_of_fuel = pure (esp_fail, none)
  parse_received json request (complete body) =
      let output = json.parse body in
      if not (is_json_object json output)
      then refuse_body request (codes "400 Bad Request") (codes "request body is not a JSON object")
      else pure (esp_ok, output)

  -- `maximum` is CONFIG_PROVISIONING_MAX_BODY_BYTES. The result and `*output`.
  unfoldable pub receive_json : {J : Type 0} → CJson J → ℕ → Request → Act W (EspErr × Option J)
  unfolding refuse_body receive_loop parse_received
  receive_json json maximum request =
      let content_type = request.header (codes "Content-Type") 64 in
      if not (json_body_allowed content_type 1 1)
      then refuse_body request (codes "415 Unsupported Media Type")
          (codes "Content-Type must be application/json")
      else if not (json_body_allowed content_type request.content_len maximum)
      then refuse_body request (codes "413 Content Too Large")
          (codes "request body size is invalid")
      else do
        allocated ← call http.allocate
        if not allocated
            then refuse_body request (codes "503 Service Unavailable")
                (codes "request buffer unavailable")
            else do
              received ← receive_loop request.content_len [] request.content_len
              parse_received json request received
