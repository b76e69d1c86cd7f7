-- ===== src/Provisioning/Service/Lockout/Responses.antt =====
-- Responses that refuse a login, and functions that send none.
use industrial_edge_monitor.Base.{
  ℕ, suc, zero, ◌+◌, ◌≡◌, refl, arith, Bool, false, List, [], ◌∷◌, codes, bytes_eq, if◌then◌else◌,
}
use industrial_edge_monitor.Provisioning.Endpoint.{Abi}
use industrial_edge_monitor.Provisioning.Service.{
  Request, Http, Effect, set_status, Service, call, emit, now_ms,
}
use industrial_edge_monitor.Provisioning.Service.Laws.{Keeps, keeps_rules, core}
use industrial_edge_monitor.Provisioning.Service.Requests.{
  CJson, Received, complete, failed, out_of_fuel, receive_loop, request_arrived_on_softap,
  json_error, refuse_body, parse_received, receive_json,
}

-- A response that says that the credentials are wrong.
abbrev pub is_refusal : List ℕ → Bool
is_refusal status = bytes_eq status (codes "401 Unauthorized")

abbrev pub weight : Effect → ℕ
weight (set_status handle status) = if is_refusal status then 1 else 0
weight e = 0

-- The number of those responses in a trace.
abbrev pub refusals : List Effect → ℕ
refusals [] = 0
refusals (e ∷ es) = weight e + refusals es

pub status_light :
    (handle : ℕ) (status : List ℕ)
    → is_refusal status ≡ false
    → weight (set_status handle status) ≡ 0
status_light handle status e = rw e refl

-- Nothing but calls, effects other than such a response, and the machine have changed.
pub record Quiet {W : Type 0} (c : Service W) (n : ℕ) (s : Service W) : Type 0 where
  pub same : core s ≡ c
  pub count : refusals s.trace ≡ n

module _ {W : Type 0} {c : Service W} {n : ℕ} where
  pub call-Quiet : {A : Type 0} (answer : ℕ → A) → Keeps (Quiet c n) (call answer)
  unfolding call
  call-Quiet answer = record { at = λ s h. record { same = h.same; count = h.count } }

  pub emit-Quiet : (e : Effect) → weight e ≡ 0 → Keeps (Quiet c n) (emit e)
  unfolding emit
  emit-Quiet e light = record {
    at = λ s h. record { same = h.same; count = omega (arith, light, h.count) };
  }

  pub now_ms-Quiet : (http : Http) → Keeps (Quiet c n) (now_ms http)
  unfolding now_ms
  now_ms-Quiet http = search (keeps_rules, call-Quiet)

  pub json_error-Quiet :
      (http : Http) (request : Request) (status message : List ℕ)
      → is_refusal status ≡ false
      → Keeps (Quiet c n) (json_error http request status message)
  unfolding json_error
  json_error-Quiet http request status message e =
      search (keeps_rules, call-Quiet, emit-Quiet, status_light)

  pub softap-Quiet :
      (http : Http) (abi : Abi) (request : Request)
      → Keeps (Quiet c n) (request_arrived_on_softap http abi request)
  unfolding request_arrived_on_softap
  softap-Quiet http abi request = search (keeps_rules, call-Quiet)

  pub receive_loop-Quiet :
      (http : Http) (fuel : ℕ) (body : List ℕ) (left : ℕ)
      → Keeps (Quiet c n) (receive_loop http fuel body left)
  unfolding receive_loop
  receive_loop-Quiet http fuel body zero = search keeps_rules
  receive_loop-Quiet http zero body (suc left) = search keeps_rules
  receive_loop-Quiet http (suc fuel) body (suc left) =
      search (keeps_rules, call-Quiet, receive_loop-Quiet http fuel)

  pub refuse_body-Quiet :
      {J : Type 0} (http : Http) (request : Request) (status message : List ℕ)
      → is_refusal status ≡ false
      → Keeps (Quiet c n) (refuse_body http {J = J} request status message)
  unfolding refuse_body
  refuse_body-Quiet http request status message e = search (keeps_rules, json_error-Quiet)

  pub parse_received-Quiet :
      {J : Type 0} (json : CJson J) (http : Http) (request : Request) (received : Received)
      → Keeps (Quiet c n) (parse_received http json request received)
  unfolding parse_received
  parse_received-Quiet json http request (complete body) = search (keeps_rules, refuse_body-Quiet)
  parse_received-Quiet json http request failed = search keeps_rules
  parse_received-Quiet json http request out_of_fuel = search keeps_rules

  pub receive_json-Quiet :
      {J : Type 0} (json : CJson J) (http : Http) (maximum : ℕ) (request : Request)
      → Keeps (Quiet c n) (receive_json http json maximum request)
  unfolding receive_json
  receive_json-Quiet json http maximum request =
      search (keeps_rules, call-Quiet, refuse_body-Quiet, receive_loop-Quiet, parse_received-Quiet)
        depth 9
