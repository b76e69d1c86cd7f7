-- ===== src/Lib.antt =====
-- The firmware of the industrial edge monitor: an ESP32 device that reads a sensor, publishes
-- telemetry over MQTT, and is configured in a maintenance window through its own access point.
--
-- The parts that are modelled, by the file that models them and the code that it follows:
--
-- + Diagnostic/Ring: firmware/components/diagnostic_log/diagnostic_ring.c. The static variables are
--   the record `Ring`; `push`, `reset` and `batch` are diagnostic_ring_push, diagnostic_ring_reset
--   and diagnostic_ring_batch. diagnostic_log.c calls them in its critical section, one at a time.
-- + Diagnostic/Log: diagnostic_log.c beside it, which captures the lines that ESP-IDF logs and parses
--   their prefix. `vsnprintf` is not modelled: a message is an argument.
-- + Provisioning/Access: the checks of requests in
--   firmware/components/provisioning_service/provisioning_security.c.
-- + Provisioning/Stream: the lifecycle of the event-stream worker in the same file. `Lifecycle` is
--   provisioning_stream_lifecycle_t; Stream/Traces has the sequences of calls of a worker and
--   its shutdown, Stream/Operations those with the reset of the lifecycle among them.
-- + Provisioning/Service: provisioning_service.c beside it. `Service` holds its static variables, and
--   a function is a function of them. Service/Requests and Service/Access have what a request
--   carries and whether it is authenticated, Service/Sessions login and logout, Service/Parsing the
--   candidate's JSON, Service/Handlers and Service/Views the other handlers, Service/Events and
--   Service/Streams the event stream, and Service/Control start and stop. Service/Laws has the rules
--   for what a function keeps; Service/Guard, Opened, Replaced, Lockout, Body, Stopping, Slot, Cookie,
--   Authentic and Generations are what is proved.
-- + Provisioning/Endpoint: provisioning_softap_endpoint.c beside it.
-- + Provisioning/State: firmware/components/provisioning_state/provisioning_state.c. `Machine` is
--   provisioning_state_machine_t with the mutex handle reduced to whether it is NULL.
-- + Health: firmware/components/device_health/device_health.c. `Health` holds the static state.
-- + MachineStatus, SystemTime, Sensor: machine_status.c, system_time.c and sensor.c of the components
--   of these names. The driver of the BME280 is the record `Driver`, so the sensor works with any.
-- + Telemetry: firmware/components/telemetry. Telemetry has telemetry_model.c and telemetry_json.c,
--   Telemetry/Cycle has telemetry.c, which reads the sensor, the clock and the status of the machine,
--   notes the outcome in Health and publishes the text. Telemetry/Sample, Telemetry/Tally and
--   Telemetry/Counted are what is proved of them.
-- + Health/Service: firmware/components/device_health_service/device_health_service.c, the task that
--   publishes the health; Health/Report has the text. Health/Service/Retries is what is proved.
-- + Mqtt: firmware/components/mqtt_client_app/mqtt_error_state.c, the error that the client reports.
-- + Mqtt/Client: mqtt_client_app.c beside it: the events of the client library, the start and the
--   publications. Mqtt/Connection and Mqtt/Started are what is proved.
-- + Config: firmware/components/device_config. Config has the types of device_config.h,
--   Config/Validate has device_config_validate of device_config.c and its helpers, and
--   Config/Storage has device_config_storage.c: Storage/Configuration and Storage/Meta encode and
--   decode the two blobs, Storage/Writes and Storage/Reads say what a chain of writes or reads
--   does, and Storage/RoundTrip puts both together.
-- + Config/Store: the rest of device_config.c. Config/Store has the calls of NVS as the record `Nvs`
--   over an unknown state of the world, and the reads and writes of blobs; Store/Operations and
--   Store/Operations/Boot have the operations, with the static variables in `Store`. Store/Laws
--   says what NVS is relied on for, and Store/Memory is a partition that behaves so.
--   Store/Budget, Store/Untouched and Store/Activation follow the metadata and the active
--   configuration through the operations, Store/Redacted and Store/Secret have the snapshot and the
--   setup secret.
--
-- The handlers of the HTTP service call Access, Stream and Endpoint before they change anything,
-- Config stages what they receive, and State decides whether the service runs at all. Health is
-- fed by every component and published.
--
-- How the code is written here. A function that changes an object through a pointer returns the
-- object; a pointer that may be NULL is an `Option`. The result of taking a mutex is an argument of
-- the call, so a theorem about a call holds for both results unless it says that the mutex was
-- taken. Numbers are natural numbers with the wrap-around of their C type written out; `int32_t`
-- and `time_t` are integers. A `char` array is the list of all its bytes where the code reads the
-- array, and the string in front of the first NUL where it only passes strings on. Loops are
-- recursion on the list or the string that they run over, or on the number of rounds where it is
-- fixed. Two loops of the HTTP service run on fuel: that which receives a body, for which the size
-- of the body is enough, and that which waits for the worker, for which the number of calls until
-- the clock shows the deadline is enough. The tasks of the telemetry and of the health service, which
-- never end, run for as many rounds as a list has, each with what the other components answer in it.
--
-- What is not in the repository is an argument: the X.509 parser, `getsockname` and the socket
-- constants, the mutex, the clock. For NVS, the heap and the random numbers the calls are a record
-- and the documented behaviour that is relied on is another, with an instance. The limit
-- CONFIG_PROVISIONING_CANDIDATE_MAX_ATTEMPTS is an argument, and so are those of the login. For the
-- HTTP server, the timer, the sockets and the heap, the n-th call gets the n-th answer of the record
-- `Http`, and what a call does to the outside is on a trace; the JSON library is the record `CJson`.
-- Where a function of the service blocks, in a delay or in `httpd_stop`, the other tasks run: `Http`
-- says what they leave of the stream's lifecycle, the log, the state machine and the variables of the
-- session and the login. What they do to the configuration store meanwhile is left out.
--
-- Not modelled: the driver of the BME280, which is a register protocol and a compensation in
-- floating point, the serial recovery, Wi-Fi, I2C and the start-up; they are calls of drivers and
-- third-party libraries around the parts above. The backend and the frontend are other programs.
pub mod Base
pub mod Config
pub mod Diagnostic
pub mod Health
pub mod MachineStatus
pub mod Mqtt
pub mod Provisioning
pub mod Sensor
pub mod SystemTime
pub mod Telemetry
