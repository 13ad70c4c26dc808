-- ===== src/Capture/Prober.antt =====
-- The probes of ActiveProber in app/capture/prober.py. How a connection goes is an argument; so
-- are the texts of exceptions. The elapsed times of the results, which only report the clock, are
-- left out.
pub mod Outcomes
pub mod Batch
mod Tests
use ot_asset_discovery.Prelude.{
  ℕ, zero, suc, ◌+◌, Bool, Option, none, some, List, [], ◌∷◌, ◌++◌, if◌then◌else◌, Eq, ◌==◌,
  nat_keys, Text, codes, text_keys,
}
use ot_asset_discovery.Domain.{
  Protocol, modbus_tcp, ethernetip, s7comm, dnp3, ParsingStatus, no_identity, DeviceFingerprint,
  ParseResult,
}
use ot_asset_discovery.Parsers.{Bytes}
use ot_asset_discovery.Parsers.Modbus.{parse_modbus}
use ot_asset_discovery.Parsers.Ethernetip.Packets.{parse_ethernetip}
use ot_asset_discovery.Parsers.S7comm.Packets.{parse_s7comm}
use ot_asset_discovery.Parsers.Dnp3.Packets.{parse_dnp3}
use ot_asset_discovery.Parsers.Dnp3.Values.{decode_attribute_value}
use ot_asset_discovery.Capture.Requests.{build_probe_request}

pub record ProbeTarget : Type 0 where
  pub ip_address : Text
  pub protocol : Protocol
  pub port : ℕ

-- Connecting fails, the connection breaks with an exception, no answer comes in time, or bytes
-- are read.
pub data Connection : Type 0 where
  unconnected broken : Text → Connection
  silent : Connection
  answered : Bytes → Connection

-- How one call of `_send_probe` under the timeout ends.
pub data Attempt : Type 0 where
  replied : ParseResult → Attempt
  timed_out : Attempt
  raised_error : Text → Attempt

abbrev pub failed_reply : ProbeTarget → Text → ParseResult
failed_reply target message = record {
  fingerprint = none;
  parsing_status = ParsingStatus.no_identity;
  protocol = target.protocol;
  source_address = target.ip_address;
  destination_address = [];
  error = some message;
}

abbrev pub reply_or_raise : Text → Option ParseResult → Attempt
reply_or_raise message none = raised_error message
reply_or_raise message (some r) = replied r

module _ (show_float : Bytes → Text) (message : Text) where
  unfoldable pub parse_response : ProbeTarget → Bytes → Attempt
  parse_response target response = elim target.protocol [
    | Protocol.modbus_tcp ↦ reply_or_raise message (parse_modbus target.ip_address [] response)
    | Protocol.ethernetip ↦ reply_or_raise message (parse_ethernetip message response)
    | Protocol.s7comm ↦ replied (parse_s7comm message response)
    | Protocol.dnp3 ↦ replied (parse_dnp3 (decode_attribute_value show_float) message response)
  ]

  -- The request that is written, and what comes of it.
  unfoldable pub send_probe : ProbeTarget → Connection → Bytes × Attempt
  send_probe target (unconnected e) =
      ([], replied (failed_reply target (codes "Connection failed: " ++ e)))
  send_probe target (broken e) = (build_probe_request target.protocol, raised_error e)
  send_probe target silent = (build_probe_request target.protocol, timed_out)
  send_probe target (answered []) =
      (build_probe_request target.protocol, replied (failed_reply target (codes "Empty response")))
  send_probe target (answered (b ∷ bs)) =
      (build_probe_request target.protocol, parse_response target (b ∷ bs))

pub data ProbeStatus : Type 0 where
  succeeded probe_timeout probe_error : ProbeStatus

pub record ProbeResult : Type 0 where
  pub target : ProbeTarget
  pub status : ProbeStatus
  pub fingerprint : Option DeviceFingerprint
  pub error_code : Option Text

-- Which callbacks the prober was made with: `_on_result` and `_on_scan_history` are not None.
pub record Callbacks : Type 0 where
  pub on_result : Bool
  pub on_scan_history : Bool

-- A result, the fingerprints that the inventory gets, the results that the scan history gets, and
-- the number of attempts. The exceptions of both callbacks are logged.
pub record Probed : Type 0 where
  pub result : ProbeResult
  pub delivered : List DeviceFingerprint
  pub history : List ProbeResult
  pub attempts : ℕ

-- What one attempt decides: a fingerprint, an error that is tried again, or no identity.
pub data Verdict : Type 0 where
  identified_as : DeviceFingerprint → Verdict
  error_reply failure : Text → Verdict
  nothing_found : Verdict

abbrev pub error_verdict : Option Text → Verdict
error_verdict none = nothing_found
error_verdict (some []) = nothing_found
error_verdict (some (c ∷ e)) = error_reply (c ∷ e)

abbrev pub reply_verdict : (error : Option Text) → Option DeviceFingerprint → Verdict
reply_verdict e none = error_verdict e
reply_verdict e (some f) = identified_as f

abbrev pub verdict : Attempt → Verdict
verdict (replied r) = reply_verdict r.error r.fingerprint
verdict timed_out = failure (codes "timeout")
verdict (raised_error e) = failure e

abbrev pub success : ProbeTarget → Option DeviceFingerprint → ProbeResult
success target f = record {
  target = target;
  status = succeeded;
  fingerprint = f;
  error_code = none;
}

abbrev pub failing : ProbeTarget → ProbeStatus → Text → ProbeResult
failing target status e = record {
  target = target;
  status = status;
  fingerprint = none;
  error_code = some e;
}

-- `status = "timeout" if last_error == "timeout" else "error"`
abbrev pub exhausted_status : Text → ProbeStatus
exhausted_status last_error = if last_error == codes "timeout" then probe_timeout else probe_error

abbrev pub recorded_failure : Callbacks → ProbeTarget → (attempts : ℕ) → ProbeStatus → Text → Probed
recorded_failure c target n status e = record {
  result = failing target status e;
  delivered = [];
  history = if c.on_scan_history then failing target status e ∷ [] else [];
  attempts = n;
}

abbrev pub found_probe : Callbacks → ProbeTarget → (attempts : ℕ) → DeviceFingerprint → Probed
found_probe c target n f = record {
  result = success target (some f);
  delivered = if c.on_result then f ∷ [] else [];
  history = [];
  attempts = n;
}

abbrev pub empty_probe : ProbeTarget → (attempts : ℕ) → Probed
empty_probe target n = record {
  result = success target none;
  delivered = [];
  history = [];
  attempts = n;
}

-- After the last attempt, and after one that may be tried again.
abbrev pub last_probe : Callbacks → ProbeTarget → (attempts : ℕ) → Verdict → Probed
last_probe c target n (identified_as f) = found_probe c target n f
last_probe c target n (error_reply e) = recorded_failure c target n probe_error e
last_probe c target n (failure e) = recorded_failure c target n (exhausted_status e) e
last_probe c target n nothing_found = empty_probe target n

abbrev pub retry_probe : Callbacks → ProbeTarget → (attempts : ℕ) → Verdict → Probed → Probed
retry_probe c target n (identified_as f) again = found_probe c target n f
retry_probe c target n (error_reply e) again = again
retry_probe c target n (failure e) again = again
retry_probe c target n nothing_found again = empty_probe target n

-- The attempts from the given one on; `retries` are still allowed after it.
unfoldable pub probe_from :
    Callbacks → ProbeTarget → (attempt : ℕ → Attempt) → (retries : ℕ) → (n : ℕ) → Probed
probe_from c target attempt zero n = last_probe c target (n + 1) (verdict (attempt n))
probe_from c target attempt (suc retries) n =
    retry_probe c target (n + 1) (verdict (attempt n)) (probe_from c target attempt retries (n + 1))

abbrev pub max_retries : ℕ
max_retries = 1

unfoldable pub probe_device : Callbacks → ProbeTarget → (attempt : ℕ → Attempt) → Probed
probe_device c target attempt = probe_from c target attempt max_retries 0
