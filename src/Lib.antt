-- ===== src/Lib.antt =====
-- uswarm-unitctl is the service that runs on a drone's companion computer. It checks its configuration,
-- writes env files for the programs beside it, takes commands over MQTT, answers them, watches sensors,
-- and talks MAVLink with the flight controller. This library models its own logic, file by file:
--
--   Base       texts as lists of code points with the methods of `str` that the program calls, results
--              with `?`, sets of texts; Base/* are its parts.
--   Float      the finite and the other values of `f64`, `Duration::from_secs_f64`, and the roundings that
--              the sensors and the reporter use.
--   Config     src/config.rs: Config/Defs has the types, Config/Defaults their defaults, Config/Checks
--              `Config::validate` as the rows of its tests with their errors, Config/Valid what a usable
--              configuration is, Config/Accepts that the two agree.
--   Messages   src/messages/commands.rs: the types of the command protocol, the redacted configuration, and
--              `CommandEnvelope::is_expired_at`; Messages/Telemetry is messages/telemetry.rs and
--              messages/status.rs.
--   Mqtt       src/services/mqtt: Mqtt/Dedup is `DedupQueue` and Mqtt/Topics the topics (transport.rs and
--              `extract_command_name`); Mqtt/Processor is `CommandProcessor`, where one call of
--              `process_command` takes the payload, what a shutdown does meanwhile, and the processor;
--              Mqtt/Loop is its loop over the events of the broker; Mqtt/Publishers are the publishers of
--              the node's status and of the telemetry, Mqtt/Transport the task over the polls of the
--              client, Mqtt/Tls the node's id in its certificate, Mqtt/Commands the registration of the
--              handlers and the bridge before the loop.
--   Handlers   src/services/mqtt/handlers: the handlers that only answer, and the handler of AT commands
--              with its allowlist.
--   Restart    src/services/mqtt/handlers/restart.rs: Restart/Verify is the polling loop, Restart/Handler
--              the handler, Restart/Completion the publisher that completes a restart of the service itself
--              on its next start, Restart/Files the directory that they share.
--   Env        src/env: the texts of the two env files.
--   Modem      src/services/modem_access: Modem/Types and Modem/Access are the trait with its default
--              methods and parsers, Modem/Discovery the search for a modem, Modem/Service the queue before it,
--              Modem/Fake the modem of the simulation, Modem/Registration which status a query finds.
--   Sensors    src/sensors: Sensors/Manager is `SensorManager::new` with the constructors of the sensors;
--              Sensors/Lte the parsers, the neighbour cells and the polling loop; Sensors/Ping the
--              readings and the loop over a subprocess; Sensors/System a sample of the host.
--   Net        src/net.rs: the addresses of the interfaces.
--   Startup    src/main.rs: the steps from the configuration to the wait for a signal, those before a
--              panic included; Startup/Bus is the channel of the connection's events while these steps
--              and the task of the transport go on side by side.
--   Mavlink    src/mavlink and src/context.rs: the subcommand numbers, the discovery of systems, the queue
--              of outgoing frames, the frames, the heartbeats, the sniffer, and the telemetry reporter.
--
-- How they meet: `Config.validate` is the hypothesis under which the env files and the sensors are
-- right; a handler is a function of an envelope and a world, which `Mqtt.Processor` runs; the restart
-- handler leaves in the directory what the completion publisher finds. `Sensors.Lte.Poll` runs over any
-- `ModemAccess`, the fake modem among them, and the readings of the sensors are what
-- `Mavlink.Reporter` and `Mqtt.Publishers` send. The events that `Mqtt.Transport` sends reach the
-- receivers that `Startup` has created by then.
--
-- State is passed explicitly, an operation returns the new state beside its answer, and what a
-- client is asked to publish is appended to a list. Unsigned integers are natural numbers, with `% 2
-- ^ 64` at the counters of the LTE sensor and of the fake modem, and an `i32` is an integer that its
-- parser keeps in range; the expiry's addition has chrono's bound written out. An `f32` is a value
-- of `f64`. An instant is a number of nanoseconds. serde_json, the clock, the answers of programs,
-- the modem and the file system are parameters; the channels of tokio behave as documented: a
-- bounded one refuses a frame when it is full, and a receiver of a broadcast gets what is sent after
-- its creation. The polling loop of the restart handler runs on
-- fuel, `window / interval + 2` polls, and a theorem shows that this is enough if the clock goes on
-- while the handler sleeps; the other loops are structural. `decimal` has one unit of fuel more than
-- its number, and a number has no more digits. The bits above a mantissa are counted on fuel 64 for
-- numbers below 2^64, and 1100 for the scale of an `f64`, whose exponents are smaller.
--
-- Not modelled: TLS and the connections (rustls, rumqttc, the mavlink crate, ModemManager over D-Bus),
-- the reading and writing of files as such, tokio's tasks and channels beyond the order of their events,
-- the regular expression for the lines of ping (its groups are given), the D-Bus modem, the logging, and
-- the arguments of main.rs.
pub mod Base
pub mod Float
pub mod Config
pub mod Mqtt
pub mod Messages
pub mod Handlers
pub mod Env
pub mod Sensors
pub mod Restart
pub mod Mavlink
pub mod Modem
pub mod Net
pub mod Startup
