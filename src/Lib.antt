-- ===== src/Lib.antt =====
-- Passive and active discovery of OT devices: packets are parsed to fingerprints, fingerprints
-- are merged into an inventory, changes raise alerts, every device is given a risk score and
-- the observed communication makes a topology; an HTTP API with logins shows it all. This
-- library models the backend's own logic and proves the properties listed at the end.
--
-- How the parts interact. A parser of app/parsers gives a DeviceFingerprint of
-- app/models/domain.py. app/db/device_repository.py stores and merges devices with a history
-- of their attributes; app/detection/change_detector.py compares fingerprints with stored
-- devices and gives alerts to a persist handler and then to callbacks;
-- app/scoring/risk_scorer.py scores a device and alerts on large changes;
-- app/topology/mapper.py counts packets for each path in a buffer that is flushed to the
-- database; app/event_bus.py hands events from one part to the handlers of the others;
-- app/scheduling/scheduler.py runs scans; app/api/rate_limiter.py stands in front of the
-- login. app/discovery_engine.py takes each fingerprint of the sniffer or the prober to the
-- detector, the repository, the scorer and the mapper, and sends the alerts to the WebSocket
-- clients of app/api/websocket_manager.py.
--
-- The files and the code.
-- - Prelude and its children: library names passed on, Boolean tests, lists over the native
--   numbers, equality of keys, Python's dict and str methods, signed numbers.
-- - Domain: app/models/domain.py, the records and closed string literals.
-- - Risk: app/scoring/risk_scorer.py, the class RiskScorer. Risk/SubScores has the three
--   sub-scores, Risk/Score the weighted score and its alert.
-- - Detection: app/detection/change_detector.py, the class ChangeDetector. Its children have
--   the delivery of alerts, the disappearance check, process_fingerprint, and runs of calls.
-- - Topology: app/topology/mapper.py, the class TopologyMapper. flush_updates is two steps,
--   one before the database transaction and one after it, which may fail or be cancelled;
--   Topology/Runs has their
--   interleavings with the other calls, Topology/Counts the packets that are held,
--   Topology/View get_topology, Topology/Events the events for new paths.
-- - Repository: app/db/device_repository.py, the class DeviceRepository, with the constraints
--   of the tables devices and device_history in app/models/database.py. Repository/Merging has
--   the upsert with its merge, Repository/Rows the invariant, Repository/Limits and
--   Repository/History the history limit, Repository/Merge the merge, Repository/Update
--   update_device_attribute and delete_device.
-- - Auth: app/api/rate_limiter.py, app/api/auth.py and the login of app/api/router_auth.py.
-- - EventBus: app/event_bus.py.
-- - Scheduling: app/scheduling/scheduler.py, the class ScanScheduler; a scan is two steps,
--   before and after the executor, and the loops that a second start leaves running are orphans. Scheduling/Runs has their interleavings,
--   Scheduling/Outcomes what a scan and a new job leave.
-- - Parsers: the decoding of bytes that the parsers share; Parsers/Modbus is
--   app/parsers/modbus.py, against an encoder of responses; Parsers/Dnp3 is
--   app/parsers/dnp3.py: Link its frames, Loop its attributes, Values the text of a value,
--   Packets the whole parser; Parsers/S7comm is app/parsers/s7comm.py, with Headers for the IP
--   and TCP headers, Records and Identity for the list of module records, Packets the whole
--   parser; Parsers/Ethernetip is app/parsers/ethernetip.py, with Items its list of items and
--   Packets the whole parser; Parsers/Serialization is app/parsers/serialization.py and the
--   validator that it calls, from a fingerprint to a JSON value and back.
-- - Capture: app/capture/sniffer.py and app/capture/prober.py. Capture/Routing takes a frame
--   to its parser, Capture/Sniffer is the class PassiveSniffer, with runs of its operations;
--   Requests has the packets that a probe sends, Prober one probe, Prober/Batch the tasks of a
--   batch as moves under the semaphore, which other batches of the prober share.
-- - Discovery: app/discovery_engine.py, the pipelines of the class DiscoveryEngine, over the
--   models of the parts that it calls. Peers has the peers of a device, Inventory what the two
--   pipelines store, Alerts and Repeats which fingerprints are announced as new devices;
--   Detection/Wired is the detector with the engine's handlers. Lifecycle has its start and its
--   stop, on the switches of the parts.
-- - WebSockets: app/api/websocket_manager.py and app/api/ws_alerts.py. Runs has who is connected.
--
-- Conventions. A component's state is a record or a list of rows, and an operation takes it
-- and gives the next one. An exception is a value of a result type, or none; a callback or
-- handler that may raise is a function that says whether it returns. An indexing of a packet's
-- header that would run over its end is an exception, too. Identifiers are numbers
-- that are only compared; a time is a number of microseconds and an argument of the operation
-- that reads the clock; a text is the list of its code points, a packet the list of its bytes.
-- A table is a list of rows in insertion order.
--
-- Bounds and fuel. Most loops of the modelled code run over a list or a declared count, and
-- are structural recursion: the items of an EtherNet/IP list, the flush of the sniffer's
-- buffer, the retries of a probe. The others run on fuel. Where a round takes one or more
-- bytes, as in two loops of the DNP3 parser and the module records of S7comm, the number of
-- bytes is enough; where a number's digits are written, the number itself is. A batch of
-- probes is a relation on moves. Scores and percentages are whole numbers, and the scorer's
-- floating-point sums are taken as the exact fractions that they stand for. Python's integers
-- are unbounded, so nothing wraps around.
--
-- Not modelled: third-party code (SQLAlchemy, bcrypt, jose, pydantic, FastAPI, asyncio,
-- scapy), of which password hashing, token signing and the texts that are addresses for the
-- database are parameters; the text codec of the
-- json module; how Python prints a float and the text of a caught exception, which are
-- parameters of the parsers; sockets, of which a probe takes the answer as an argument;
-- elapsed times; the hand-over from the capture thread to the event loop; the database's own
-- failures, but for the constraints named above, the address of a login attempt and a flush
-- of the topology that fails or is cancelled;
-- logging; the frontend; and the parts of the backend that have no file here:
-- exports and the other routes.
mod Prelude
pub mod Domain
pub mod Risk
pub mod Detection
pub mod Topology
pub mod Repository
pub mod Auth
pub mod EventBus
pub mod Parsers
pub mod Capture
pub mod Discovery
pub mod WebSockets
pub mod Scheduling
