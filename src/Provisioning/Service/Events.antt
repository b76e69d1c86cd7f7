-- ===== src/Provisioning/Service/Events.antt =====
-- The diagnostic logs in provisioning_service.c: the handler that sends one batch, and the worker
-- task that sends batches as events.
use industrial_edge_monitor.Base.{
  ℕ, zero, suc, ◌-◌, ◌^◌, Bool, true, false, ◌&&◌, ◌||◌, not, Option, none, some, List, [], ◌∷◌,
  ltb, leb, ◌==◌, if◌then◌else◌, EspErr, esp_ok, is_ok, u64, codes, is_empty, all_digits, decimal,
}
use industrial_edge_monitor.Diagnostic.Ring.{Batch}
use industrial_edge_monitor.Provisioning.Access.{parse_stream_generation}
use industrial_edge_monitor.Provisioning.Endpoint.{Abi}
use industrial_edge_monitor.Provisioning.Stream.{AsyncLifecycle, mark_complete}
use industrial_edge_monitor.Provisioning.Service.{
  Request, Http, set_status, set_type, set_header, send_part, send_empty, end_parts, delay_ms,
  delay_tick, complete_async, Act, ◌>>=◌, ◌>>◌, pure, call, emit, wait, stream_session_is_valid,
  release_worker,
}
use industrial_edge_monitor.Provisioning.Service.Requests.{json_error, send_json}
use industrial_edge_monitor.Provisioning.Service.Access.{require_auth}
use industrial_edge_monitor.Provisioning.Service.Views.{logs_json}
use industrial_edge_monitor.Provisioning.Service.Views.Shown.{batch_value}

pub record StreamContext : Type 0 where
  pub request : Request
  pub session_generation : ℕ
  pub worker_generation : ℕ
  pub lifecycle : AsyncLifecycle

abbrev is_white : ℕ → Bool
is_white c = c == b' ' || leb 9 c && leb c 13

abbrev skip_white : List ℕ → List ℕ
skip_white [] = []
skip_white (c ∷ cs) = if is_white c then skip_white cs else c ∷ cs

-- An optional sign: whether it is a minus, and what follows.
abbrev split_sign : List ℕ → Bool × List ℕ
split_sign [] = (false, [])
split_sign (c ∷ cs) =
    if c == b'-' then (true, cs) else if c == b'+' then (false, cs) else (false, c ∷ cs)

-- `strtoull` in base 10 where it reads the whole text, `none` where `*end` is not NUL: a number that
-- does not fit becomes the largest one, and a minus negates modulo 2 ^ 64.
unfoldable pub strtoull_all : List ℕ → Option ℕ
strtoull_all value =
    let (negative, digits) = split_sign (skip_white value) in
    if is_empty digits || not (all_digits digits)
    then none
    else if ltb (2 ^ 64 - 1) (decimal digits)
    then some (2 ^ 64 - 1)
    else if negative
    then some (u64 (2 ^ 64 - decimal digits))
    else some (decimal digits)

abbrev query_value_of : Request → Option (List ℕ) → List ℕ → ℕ → Option (List ℕ)
query_value_of request none name size = none
query_value_of request (some query) name size = request.query_value query name size

-- A text that is not empty is read as a number.
abbrev number_of : Option (List ℕ) → Option ℕ
number_of none = none
number_of (some value) = if is_empty value then none else strtoull_all value

-- The cursor, `none` for the return of false.
unfoldable pub request_cursor : Request → Option ℕ
unfolding strtoull_all
request_cursor request =
    if request.query_length == 0
    then some 0
    else if leb 128 request.query_length
    then none
    else number_of (query_value_of request (request.query 128) (codes "after") 24)

-- A text that is a stream generation.
abbrev generation_text : Option (List ℕ) → Option (List ℕ)
generation_text none = none
generation_text (some value) = elim (parse_stream_generation (some value) true) [
  | none ↦ none
  | some n ↦ some value
]

-- The text, `none` for the return of false.
unfoldable pub request_stream_generation : Request → Option (List ℕ)
request_stream_generation request =
    if request.query_length == 0 || leb 128 request.query_length
    then none
    else generation_text (query_value_of request (request.query 128) (codes "generation") 21)

abbrev pub or_zero : Option ℕ → ℕ
or_zero none = 0
or_zero (some n) = n

-- `none` is NULL. The context is released after it.
unfoldable pub complete_stream_context : {W : Type 0} → Option StreamContext → Act W (Unit {0})
complete_stream_context none = pure tt
complete_stream_context (some context) =
    if (mark_complete (some context.lifecycle)).1
    then emit (complete_async context.request.handle)
    else pure tt

module _ {W : Type 0} (http : Http) where
  unfoldable pub stream_no_content : Request → Act W EspErr
  stream_no_content request = do
    emit (set_status request.handle (codes "204 No Content"))
    emit (set_header request.handle (codes "Cache-Control") (codes "no-store"))
    emit (send_empty request.handle)
    call http.send

  unfoldable pub send_batch : Request → Option Batch → Act W EspErr
  unfolding json_error send_json
  send_batch request none =
      json_error http request (codes "503 Service Unavailable")
        (codes "diagnostic batch unavailable")
  send_batch request (some b) = send_json http request (batch_value b)

  unfoldable pub logs_handler : Abi → Request → Act W EspErr
  unfolding require_auth json_error logs_json send_batch
  logs_handler abi request = do
    required ← require_auth http abi false request
    if not (is_ok required) then pure esp_ok else elim (request_cursor request) [
      | none ↦ json_error http request (codes "400 Bad Request") (codes "after cursor is invalid")
      | some after ↦ do shown ← logs_json http after; send_batch request shown
    ]

  -- `httpd_resp_send_chunk(...) == ESP_OK`.
  unfoldable pub send_chunk : ℕ → List ℕ → Act W Bool
  send_chunk handle part = do
    emit (send_part handle part)
    result ← call http.send_chunk
    pure (is_ok result)

  -- The three parts of an event, `none` for a text that cannot be allocated; whether all are sent.
  unfoldable pub send_event : ℕ → Option (List ℕ) → Act W Bool
  send_event handle none = pure false
  send_event handle (some json) = do
    opened ← send_chunk handle (codes "data: ")
    if not opened then pure false else do
      sent ← send_chunk handle json
      if not sent then pure false else send_chunk handle (codes "\n\n")

  -- One round from the batch on: the next sequence, or `none` where the loop breaks.
  unfoldable pub send_round : ℕ → Option Batch → Act W (Option ℕ)
  unfolding send_event
  send_round handle none = pure none
  send_round handle (some b) = do
    json ← call (λ n. http.print n (batch_value b))
    sent ← send_event handle json
    if not sent
        then pure none
        else do wait http (if b.has_more then delay_tick else delay_ms 1000); pure (some b.cursor)

  -- The loop with the given number of rounds left.
  unfoldable pub worker_loop : ℕ → StreamContext → ℕ → Act W (Unit {0})
  unfolding stream_session_is_valid logs_json send_round
  worker_loop zero context sequence = pure tt
  worker_loop (suc rounds) context sequence = do
    valid ← stream_session_is_valid http context.session_generation context.worker_generation
    if not valid then pure tt else do
      shown ← logs_json http sequence
      next ← send_round context.request.handle shown
      elim next [ none ↦ pure tt | some cursor ↦ worker_loop rounds context cursor ]

  unfoldable pub logs_stream_worker : StreamContext → Act W (Unit {0})
  unfolding worker_loop complete_stream_context release_worker
  logs_stream_worker context = do
    let handle = context.request.handle
    emit (set_type handle (codes "text/event-stream"))
    emit (set_header handle (codes "Cache-Control") (codes "no-store"))
    emit (set_header handle (codes "Connection") (codes "close"))
    worker_loop 30 context (or_zero (request_cursor context.request))
    emit (end_parts handle)
    complete_stream_context (some context)
    release_worker http context.worker_generation
