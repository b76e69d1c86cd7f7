-- ===== src/Provisioning/Service.antt =====
-- firmware/components/provisioning_service/provisioning_service.c: its static variables, and how
-- its functions are written here. What the HTTP server, the JSON library, the timer, the mutex,
-- the heap and the sockets answer is not in the repository: the n-th call gets the n-th answer of
-- the record `Http`, and what a call does to the outside is put on `trace`, the last one first.
-- Clearing local buffers before they are released is not modelled, since nothing reads them again.
pub mod Requests
pub mod Access
pub mod Sessions
pub mod Parsing
pub mod Handlers
pub mod Views
pub mod Events
pub mod Streams
pub mod Laws
pub mod Guard
pub mod Opened
pub mod Replaced
pub mod Lockout
pub mod Body
pub mod Stopping
pub mod Slot
pub mod Cookie
pub mod Authentic
pub mod Generations
pub mod Samples
mod Tests
pub mod Control
use industrial_edge_monitor.Base.{
  ℕ, ◌+◌, ◌/◌, Bool, true, false, ◌&&◌, ◌||◌, not, Option, none, some, List, [], ◌∷◌, ℤ, pos,
  if◌then◌else◌, EspErr, u64, ◌==◌, is_negative,
}
use industrial_edge_monitor.Diagnostic.Ring.{Ring}
use industrial_edge_monitor.Config.{DeviceConfig}
use industrial_edge_monitor.Config.Store.Operations.{Store}
use industrial_edge_monitor.Provisioning.State.{Machine}
use industrial_edge_monitor.Provisioning.Stream.{Lifecycle, request_shutdown, no_socket}
use industrial_edge_monitor.Provisioning.Access.{stream_session_valid}
use industrial_edge_monitor.Provisioning.Stream as Stream
use industrial_edge_monitor.Provisioning.Endpoint.{SocketAddress}

-- What a handler reads of its request: the handle, the socket, the size of the body, the value of
-- a header that fits into a buffer of the given size, and the query string.
pub record Request : Type 0 where
  pub handle : ℕ
  pub socket : ℤ
  pub content_len : ℕ
  pub header : List ℕ → ℕ → Option (List ℕ)
  pub query_length : ℕ
  pub query : ℕ → Option (List ℕ)
  pub query_value : List ℕ → List ℕ → ℕ → Option (List ℕ)

-- The members of a JSON object that is sent, with their values.
mutual
  pub data Value : Type 0 where
    text : List ℕ → Value
    number : ℕ → Value
    integer : ℤ → Value
    flag : Bool → Value
    null : Value
    object : Members → Value
    array : Values → Value

  pub data Members : Type 0 where
    no_members : Members
    member : List ℕ → Value → Members → Members

  pub data Values : Type 0 where
    no_values : Values
    element : Value → Values → Values

-- The variables of the session and of the lock of the login.
pub record Login : Type 0 where
  pub session_token : List ℕ
  pub csrf_token : List ℕ
  pub session_expires_ms : ℕ
  pub session_generation : ℕ
  pub login_failures : ℕ
  pub login_locked_until_ms : ℕ

-- The answers. `timer` is in microseconds, `receive` is the bytes of `httpd_req_recv` or a failure,
-- `print` is `none` where the text cannot be allocated. `others_stream`, `others_ring`, `others_machine`
-- and `others_login` are what the other tasks do, while this one is blocked in a delay or in
-- `httpd_stop`, to the stream's lifecycle, the diagnostic log, the state machine and the variables of
-- the session and the login: handlers run in the server's task then, as long as it is not stopped.
pub record Http : Type 0 where
  pub timer : ℕ → ℕ
  pub mutex_create : ℕ → Bool
  pub mutex_take : ℕ → Bool
  pub softap_ipv4 : ℕ → EspErr × ℕ × ℕ
  pub getsockname : ℕ → ℤ → Option (SocketAddress × ℕ)
  pub receive : ℕ → ℕ → Option (List ℕ)
  pub send : ℕ → EspErr
  pub send_chunk : ℕ → EspErr
  pub print : ℕ → Value → Option (List ℕ)
  pub allocate : ℕ → Bool
  pub random : ℕ → List ℕ
  pub server_start : ℕ → EspErr
  pub server_stop : ℕ → EspErr
  pub register_uri : ℕ → EspErr
  pub async_begin : ℕ → EspErr × Request
  pub task_create : ℕ → Bool
  pub others_stream : ℕ → Lifecycle → Lifecycle
  pub others_ring : ℕ → Ring → Ring
  pub others_machine : ℕ → Machine → Machine
  pub others_login : ℕ → Login → Login

-- What the outside sees. A request is named by its handle.
pub data Effect : Type 0 where
  set_status : ℕ → List ℕ → Effect
  set_type : ℕ → List ℕ → Effect
  set_header : ℕ → List ℕ → List ℕ → Effect
  send_text : ℕ → List ℕ → Effect
  send_part : ℕ → List ℕ → Effect
  end_parts : ℕ → Effect
  send_empty : ℕ → Effect
  close_socket : ℤ → Effect
  delay_ms : ℕ → Effect
  delay_tick : Effect
  restart : Effect
  complete_async : ℕ → Effect
  start_server : Effect
  stop_server : Effect
  register : List ℕ → List ℕ → Effect
  start_worker : ℕ → ℕ → ℕ → Effect

-- The static variables, the state machine that `machine` points to if it is not NULL, the
-- ring of the diagnostic log, the
-- configuration store with its world `W`, the number of calls so far and the trace. The tokens are
-- strings. The times are milliseconds of the timer, so they are not negative.
pub record Service (W : Type 0) : Type 0 where
  pub server : Bool
  pub configuration : Option DeviceConfig
  pub setup_secret : Option (List ℕ)
  pub has_machine : Bool
  pub machine : Machine
  pub session_token : List ℕ
  pub csrf_token : List ℕ
  pub session_expires_ms : ℕ
  pub session_generation : ℕ
  pub login_failures : ℕ
  pub login_locked_until_ms : ℕ
  pub stop_in_progress : Bool
  pub has_mutex : Bool
  pub stream : Lifecycle
  pub ring : Ring
  pub store : Store W
  pub calls : ℕ
  pub trace : List Effect

-- A function of the file: its result and the state it leaves.
abbrev pub Act : Type 0 → Type 0 → Type 0
Act W A = Service W → A × Service W

infixl 5 ◌>>=◌ ◌>>◌
unfoldable pub ◌>>=◌ : {W A B : Type 0} → Act W A → (A → Act W B) → Act W B
◌>>=◌ m f s = f (m s).0 (m s).1

abbrev pub ◌>>◌ : {W A B : Type 0} → Act W A → Act W B → Act W B
m >> n = m >>= λ _. n

unfoldable pub pure : {W A : Type 0} → A → Act W A
pure a s = (a, s)

unfoldable pub get : {W : Type 0} → Act W (Service W)
get s = (s, s)

unfoldable pub modify : {W : Type 0} → (Service W → Service W) → Act W (Unit {0})
modify f s = (tt, f s)

unfoldable pub modify_then : {W A : Type 0} → (Service W → Service W) → A → Act W A
modify_then f a s = (a, f s)

-- A call of the outside.
unfoldable pub call : {W A : Type 0} → (ℕ → A) → Act W A
call answer s = (answer s.calls, record s { calls = s.calls + 1 })

unfoldable pub emit : {W : Type 0} → Effect → Act W (Unit {0})
emit e s = (tt, record s { trace = e ∷ s.trace })

-- A call into the configuration store.
unfoldable pub stored : {W A : Type 0} → (Store W → A × Store W) → Act W A
stored f s = let (a, store) = f s.store in (a, record s { store = store })

abbrev pub login_of : {W : Type 0} → Service W → Login
login_of s = record {
  session_token = s.session_token;
  csrf_token = s.csrf_token;
  session_expires_ms = s.session_expires_ms;
  session_generation = s.session_generation;
  login_failures = s.login_failures;
  login_locked_until_ms = s.login_locked_until_ms;
}

-- What the other tasks leave where this one is blocked.
abbrev pub others : {W : Type 0} → Http → Service W → Service W
others http s =
    let login = http.others_login s.calls (login_of s) in
    record s {
      stream = http.others_stream s.calls s.stream;
      ring = http.others_ring s.calls s.ring;
      machine = http.others_machine s.calls s.machine;
      session_token = login.session_token;
      csrf_token = login.csrf_token;
      session_expires_ms = login.session_expires_ms;
      session_generation = login.session_generation;
      login_failures = login.login_failures;
      login_locked_until_ms = login.login_locked_until_ms;
    }

-- `vTaskDelay`, of which `effect` tells the length.
unfoldable pub wait : {W : Type 0} → Http → Effect → Act W (Unit {0})
wait http effect s = (tt, record (others http s) { calls = s.calls + 1; trace = effect ∷ s.trace })

-- `httpd_stop`, which waits for the server's task and so for the handler that runs in it.
unfoldable pub httpd_stop : {W : Type 0} → Http → Act W EspErr
httpd_stop http s = (
  http.server_stop s.calls,
  record (others http s) { calls = s.calls + 1; trace = stop_server ∷ s.trace },
)

-- `session_generation++`, which skips 0 where it wraps.
abbrev pub next_session : ℕ → ℕ
next_session n = if u64 (n + 1) == 0 then 1 else u64 (n + 1)

-- The lifecycle that a function leaves, whose pointer is never NULL.
abbrev pub or_stream : Lifecycle → Option Lifecycle → Lifecycle
or_stream l none = l
or_stream l (some l') = l'

-- `stream_lifecycle` after one of the lifecycle's functions.
unfoldable pub set_stream : {W : Type 0} → Option Lifecycle → Act W (Unit {0})
set_stream stream s = (tt, record s { stream = or_stream s.stream stream })

module _ {W : Type 0} (http : Http) where
  unfoldable pub now_ms : Act W ℕ
  now_ms = do micros ← call http.timer; pure (micros / 1000)

  -- Every lock is released right behind the statements that it protects.
  unfoldable pub stream_lock : Act W Bool
  stream_lock = do s ← get; if not s.has_mutex then pure false else call http.mutex_take

  unfoldable pub service_is_stopping : Act W Bool
  unfolding stream_lock
  service_is_stopping = do
    locked ← stream_lock
    s ← get
    pure (if not locked then true else s.stream.service_stopping)

  unfoldable pub session_clear : Act W (Unit {0})
  session_clear = modify (λ s. record s {
    session_token = [];
    csrf_token = [];
    session_expires_ms = 0;
    session_generation = next_session s.session_generation;
  })

  unfoldable pub stream_session_is_valid : ℕ → ℕ → Act W Bool
  unfolding stream_lock
  stream_session_is_valid stream_generation worker_generation = do
    before ← get
    locked ← stream_lock
    s ← get
    if not locked || not (Stream.worker_current (some s.stream) worker_generation)
        then pure false
        else do
          now ← now_ms
          pure (
              stream_session_valid stream_generation before.session_generation
                (pos before.session_expires_ms) (pos now) false false)

  -- The socket that a shutdown closes, if there is a server.
  unfoldable pub close_if : Bool → Option ℤ → Act W (Unit {0})
  close_if server none = pure tt
  close_if server (some socket) =
      if server && not (is_negative socket) then emit (close_socket socket) else pure tt

  unfoldable pub request_stream_shutdown : Bool → Act W ℕ
  unfolding stream_lock
  request_stream_shutdown stopping = do
    locked ← stream_lock
    s ← get
    let (stream, socket, generation) = request_shutdown (some s.stream) stopping (some no_socket)
    if not locked then pure 0 else do set_stream stream; close_if s.server socket; pure generation

  -- `provisioning_stream_complete` under the lock, if it is taken.
  unfoldable pub release_worker : ℕ → Act W (Unit {0})
  unfolding stream_lock
  release_worker generation = do
    locked ← stream_lock
    if not locked
        then pure tt
        else do s ← get; set_stream (Stream.complete (some s.stream) generation).0
