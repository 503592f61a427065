-- ===== src/Lib.antt =====
-- A model of ecu-telemetry's backend, the server that collects telemetry of engine control units,
-- and of the proxy that its simulation puts in between.
--
-- A device sends TELEMETRY frames over UDP and talks over one TCP connection. The ingest decodes the
-- frames, counts losses, writes the database, asks the rule engine to judge each sample, and
-- publishes events on a bus. The API pushes configurations, firmware, faults and commands.
--
-- Prelude: tests on numbers, list lemmas, bytes, tables and dicts as lists, sorting by a number.
-- Python: what the code uses of its language: exceptions as values (Result), struct (Struct), zlib's
--   crc32 (Crc), str and its encodings (Text, Decimal, Utf8), sets of texts, sorted and str of lists
--   (Sets). Floats are an interface (Floats), whose
--   laws are those of struct's formats f and d. strip, upper, lower and int are modelled on ASCII.
-- Protocol: backend/app/protocol.py. Text, Flags, Firmware, MsgType and Header are its helpers and
--   the class Header; Payload holds the payload classes, Frame is encode and decode, Stream is
--   class StreamDecoder.
-- Bus: class EventBus of backend/app/bus.py. The clock counts microseconds.
-- Db: class Database of backend/app/db.py, the tables as lists of rows. Telemetry is the rollup of raw
--   rows into minutes and the queries, Diagnoses the stored diagnoses.
-- World: what the rule engine shares with the ingest: rules, per-device state, events.
-- Engine: backend/app/anomaly.py. Alerts is _mark, resolve, tick and the offline and loss rules,
--   Thresholds the limits and overrides, Ewma the z-score test, Evaluate on_telemetry.
-- Ingest: backend/app/ingest.py. Stats is DeviceStats, State the datagram path and presence, Push
--   what is sent to a device, Dispatch the TCP path and the loops; Dispatch/Steps is the server as a step relation,
--   Dispatch/Offline the loop that finds silent devices, Dispatch/Offline/Rows what it does to the
--   rows of the devices table, Dispatch/Followup what follows a HELLO,
--   Totals the saved and the fleet's statistics.
-- Diagnostics: backend/app/diagnostics.py. Context is what a diagnosis reads, Blocks the tests of
--   heuristic_diagnosis one by one, Heuristic their ranking and the choice of the model's answer.
-- Api: the handlers of backend/app/api.py: Config, Registry (firmware), Control (faults, commands,
--   acknowledgements) and Views; Steps/Run is the server with its requests as a step relation.
-- Proxy: sim/lossy_proxy.py, with the random generator's answers as arguments.
-- Scenario: validate_scenario of sim/run_sil.py. Values is what a YAML file holds, Faults and Devices,
--   Timeline, Expect and Validate its checks part by part; Runnable is what an accepted file has.
-- Examples: concrete values at which the theorems apply.
--
-- A handler runs at one instant: a clock that the code reads twice reads the same. Handlers do not
-- interleave inside a push; asyncio's writers are the parameter Net, which answers whether a connection
-- is closing and whether a frame is written. StreamDecoder.feed runs on fuel of the buffer's length
-- plus one, and each round drops a byte at least. Rules are taken as merged and well typed.
--
-- The language model's answer and the text format of the clock are parameters of the diagnosis.
--
-- Not modelled: SQLite and its locks, history routes, merging of rules, the call of the language model,
-- HTTP routing, the dashboard, the firmware in C++, and of the simulation's scripts all but the proxy
-- and the checks of a scenario.
pub mod Prelude
pub mod Python
pub mod Protocol
pub mod Bus
pub mod Db
pub mod World
pub mod Engine
pub mod Ingest
pub mod Api
pub mod Proxy
pub mod Diagnostics
pub mod Scenario
pub mod Examples
