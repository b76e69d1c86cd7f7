-- ===== src/Provisioning/Service/Samples.antt =====
-- A device, requests and a JSON library for the tests of the service.
use industrial_edge_monitor.Base.{
  ℕ, ◌+◌, ◌*◌, ◌%◌, Bool, true, false, Option, none, some, List, [], ◌++◌, esp_ok, replicate, codes,
  ℤ, pos, if◌then◌else◌, bytes_eq,
}
use industrial_edge_monitor.Config.Store.Memory.{Partition, empty_partition}
use industrial_edge_monitor.Config.Store.Secret.{hex_text}
use industrial_edge_monitor.Config.Samples.{site}
use industrial_edge_monitor.Diagnostic.Ring.{reset}
use industrial_edge_monitor.Provisioning.Endpoint.{Abi}
use industrial_edge_monitor.Provisioning.State.{maintenance_window}
use industrial_edge_monitor.Provisioning.Stream.{no_socket}
use industrial_edge_monitor.Provisioning.Service.{
  Request, Value, text, number, flag, object, Members, no_members, member, Http, Service,
}
use industrial_edge_monitor.Provisioning.Service.Requests.{CJson}
use industrial_edge_monitor.Provisioning.Service.Sessions.{Limits}

abbrev pub lwip : Abi
lwip = record {
  family_size = 1;
  ipv4_size = 16;
  ipv6_size = 28;
  storage_size = 28;
  af_unspec = 0;
  af_inet = 2;
  af_inet6 = 10;
}

abbrev pub four_failures : Limits
four_failures = record {
  max_failures = 4;
  lockout_seconds = 60;
  session_seconds = 900;
  max_body_bytes = 16384;
}

-- Without a header or a query.
abbrev pub bare_request : Request
bare_request = record {
  handle = 7;
  socket = pos 54;
  content_len = 0;
  header = λ name size. none;
  query_length = 0;
  query = λ size. none;
  query_value = λ query key size. none;
}

abbrev pub token : List ℕ
token = hex_text (replicate 16 0xab)

-- With the session's cookie.
abbrev pub session_request : Request
session_request = record bare_request {
  header = λ name size.
      if bytes_eq name (codes "Cookie") then some (codes "IEM_SESSION=" ++ token) else none;
}

-- With the confirmation of a factory reset and nothing else.
abbrev pub reset_request : Request
reset_request = record bare_request {
  header = λ name size.
      if bytes_eq name (codes "X-Confirm-Factory-Reset")
      then some (codes "ERASE-DEVICE-CONFIGURATION")
      else none;
}

-- Every call succeeds, and the clock shows five seconds.
abbrev pub device : Http
device = record {
  timer = λ n. 5000000;
  mutex_create = λ n. true;
  mutex_take = λ n. true;
  softap_ipv4 = λ n. (esp_ok, 0x0104a8c0, 0x00ffffff);
  getsockname =
      λ n socket. some (record { family = 2; ipv4_address = 0x0104a8c0; ipv6_address = [] }, 16);
  receive = λ n size. some (replicate size b' ');
  send = λ n. esp_ok;
  send_chunk = λ n. esp_ok;
  print = λ n value. some (codes "{}");
  allocate = λ n. true;
  random = λ n. replicate 16 (n % 256);
  server_start = λ n. esp_ok;
  server_stop = λ n. esp_ok;
  register_uri = λ n. esp_ok;
  async_begin = λ n. (esp_ok, record bare_request { handle = 8 });
  task_create = λ n. true;
  others_stream = λ n stream. stream;
  others_ring = λ n ring. ring;
  others_machine = λ n machine. machine;
  others_login = λ n login. login;
}

-- The same, with a login that ends while `httpd_stop` waits for it.
abbrev pub logging_in : Http
logging_in = record device {
  others_login = λ n login. record login {
    session_token = token;
    csrf_token = token;
    session_expires_ms = 905000;
    session_generation = login.session_generation + 1;
  };
}

-- The same, with a clock that shows a millisecond more at each call.
abbrev pub ticking : Http
ticking = record device { timer = λ n. n * 1000 }

abbrev pub running : Service Partition
running = record {
  server = true;
  configuration = some site;
  setup_secret = some (codes "0123456789abcdef0123456789abcdef");
  has_machine = true;
  machine = record {
    has_mutex = true;
    state = maintenance_window;
    configured = true;
    maintenance_enabled = true;
    authenticated_activity = false;
    opened_ms = 0;
    last_authenticated_ms = 0;
    inactivity_seconds = 300;
    absolute_seconds = 900;
  };
  session_token = token;
  csrf_token = token;
  session_expires_ms = 900000;
  session_generation = 3;
  login_failures = 0;
  login_locked_until_ms = 0;
  stop_in_progress = false;
  has_mutex = true;
  stream = record {
    next_worker_generation = 0;
    active_worker_generation = 0;
    completed_worker_generation = 0;
    active_socket = no_socket;
    active = false;
    shutdown_requested = false;
    service_stopping = false;
  };
  ring = reset;
  store = record {
    has_mutex = true;
    in_progress = false;
    validation_revision = 0;
    world = empty_partition;
  };
  calls = 0;
  trace = [];
}

abbrev find : Members → List ℕ → Option Value
find no_members name = none
find (member other value rest) name = if bytes_eq other name then some value else find rest name

abbrev string_value : Value → Option (List ℕ)
string_value (text t) = some t
string_value _ = none

abbrev number_value : Value → Option (Option ℤ)
number_value (number n) = some (some (pos n))
number_value _ = none

abbrev bool_value : Value → Option Bool
bool_value (flag b) = some b
bool_value _ = none

abbrev is_object : Value → Bool
is_object (object fields) = true
is_object _ = false

abbrev item : Value → List ℕ → Option Value
item (object fields) name = find fields name
item _ name = none

-- A JSON library whose parser knows one text, the empty object.
abbrev pub json : CJson Value
json = record {
  parse = λ t. if bytes_eq t (codes "{}") then some (object no_members) else none;
  is_object = is_object;
  item = item;
  string_value = string_value;
  number_value = number_value;
  bool_value = bool_value;
}
