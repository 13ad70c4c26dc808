-- ===== src/Capture/Sniffer.antt =====
-- The state and the operations of PassiveSniffer in app/capture/sniffer.py. Callbacks are known by
-- numbers; how each call of the commit callback ends is an argument. `found`, `refused` and
-- `dropped` say what becomes of fingerprints, beside those that are committed or buffered. A
-- packet is processed at once; the task that the packet handler makes for it is left out.
pub mod Flush
pub mod Runs
mod Tests
use ot_asset_discovery.Capture.{
  extract_src_ip, Routed, parsed, not_routed, parser_raised, route_to_parser,
}
use ot_asset_discovery.Domain.{DeviceFingerprint}
use ot_asset_discovery.Parsers.{Bytes}
use ot_asset_discovery.Prelude.{
  ℕ, ◌+◌, Bool, true, false, not, ◌&&◌, Option, none, some, List, [], ◌∷◌, ◌++◌, if◌then◌else◌, Eq,
  nat_keys, Text, text_keys, contains,
}
use ot_asset_discovery.Prelude.Strings.{strip}

pub data Reply : Type 0 where
  returns raises times_out : Reply

pub record PassiveSniffer : Type 0 where
  pub interface : Option Text
  pub is_running : Bool
  pub packet_callbacks : List ℕ
  pub buffer : List DeviceFingerprint
  pub commit_callback : Option ℕ
  pub started_at : Option ℕ

abbrev pub on_packet : ℕ → PassiveSniffer → PassiveSniffer
on_packet callback s = record s { packet_callbacks = s.packet_callbacks ++ callback ∷ [] }

abbrev pub on_device_discovered : ℕ → PassiveSniffer → PassiveSniffer
on_device_discovered callback s = record s { commit_callback = some callback }

pub data Started : Type 0 where
  started already_running interface_error : Started

-- What one operation makes of fingerprints.
pub record Effects : Type 0 where
  pub found : List DeviceFingerprint
  pub committed : List DeviceFingerprint
  pub refused : List DeviceFingerprint
  pub dropped : List DeviceFingerprint

abbrev pub no_effects : Effects
no_effects = record { found = []; committed = []; refused = []; dropped = [] }

-- `available` is none where the interfaces cannot be listed.
abbrev pub listed : Text → Option (List Text) → Bool
listed interface none = false
listed interface (some names) = contains interface names

abbrev pub not_blank : Text → Bool
not_blank [] = false
not_blank (c ∷ s) = true

unfoldable pub validate_interface : Text → Option (List Text) → Bool
validate_interface interface available = not_blank (strip interface) && listed interface available

-- `captures` says whether Scapy starts; the buffer is emptied before that.
unfoldable pub start_capture :
    Text
    → (available : Option (List Text)) → (captures : Bool) → (now : ℕ) → PassiveSniffer
    → Started × (Effects × PassiveSniffer)
start_capture interface available captures now s =
    let lost = record no_effects { dropped = s.buffer } in
    let fresh = record s { interface = some interface; buffer = [] } in
    if s.is_running
    then (already_running, (no_effects, s))
    else if not (validate_interface interface available)
    then (interface_error, (no_effects, s))
    else if captures
    then (started, (lost, record fresh { is_running = true; started_at = some now }))
    else (interface_error, (lost, fresh))

-- What was committed and what is left, after one call and the rest of the loop; the loop ends at a
-- call that raises or that the timeout cuts off.
abbrev pub after_call :
    Reply
    → DeviceFingerprint
    → List DeviceFingerprint
    → List DeviceFingerprint × List DeviceFingerprint
    → List DeviceFingerprint × List DeviceFingerprint
after_call returns f fs (committed, left) = (f ∷ committed, left)
after_call raises f fs rest = ([], f ∷ fs)
after_call times_out f fs rest = ([], f ∷ fs)

unfoldable pub flush_loop :
    (answer : ℕ → Reply)
    → (call : ℕ) → List DeviceFingerprint
    → List DeviceFingerprint × List DeviceFingerprint
flush_loop answer call [] = ([], [])
flush_loop answer call (f ∷ fs) = after_call (answer call) f fs (flush_loop answer (call + 1) fs)

-- Without a commit callback the loop commits nothing, and the buffer is emptied.
unfoldable pub flush_buffer : (answer : ℕ → Reply) → PassiveSniffer → Effects × PassiveSniffer
flush_buffer answer s = elim s.commit_callback [
  | none ↦ (record no_effects { dropped = s.buffer }, record s { buffer = [] })
  | some callback ↦
      let (committed, left) = flush_loop answer 0 s.buffer in
      (record no_effects { committed = committed }, record s { buffer = left })
]

-- Whether it was running, and the rest; an error of Scapy's stop is logged.
unfoldable pub stop_capture :
    (answer : ℕ → Reply) → PassiveSniffer → Bool × (Effects × PassiveSniffer)
stop_capture answer s =
    let (effects, s') = flush_buffer answer (record s { is_running = false }) in
    if s.is_running then (true, (effects, s')) else (false, (no_effects, s))

-- The addresses that the sniffer writes into a fingerprint.
abbrev pub some_or : Option Text → Option Text → Option Text
some_or none o = o
some_or (some s) o = some s

abbrev pub addressed : Bytes → (src_mac : Text) → DeviceFingerprint → DeviceFingerprint
addressed raw src_mac f = record f {
  mac_address = some src_mac;
  ip_address = some_or f.ip_address (extract_src_ip raw);
}

abbrev pub fingerprint_in : Routed → Option DeviceFingerprint
fingerprint_in (parsed r) = r.fingerprint
fingerprint_in not_routed = none
fingerprint_in parser_raised = none

abbrev pub committed_or_refused : Reply → DeviceFingerprint → Effects
committed_or_refused returns f = record no_effects { found = f ∷ []; committed = f ∷ [] }
committed_or_refused raises f = record no_effects { found = f ∷ []; refused = f ∷ [] }
committed_or_refused times_out f = record no_effects { found = f ∷ []; refused = f ∷ [] }

-- To the commit callback, whose exceptions are logged, or else to the buffer.
unfoldable pub hand_over : Reply → DeviceFingerprint → PassiveSniffer → Effects × PassiveSniffer
hand_over reply f s = elim s.commit_callback [
  | none ↦ (record no_effects { found = f ∷ [] }, record s { buffer = s.buffer ++ f ∷ [] })
  | some callback ↦ (committed_or_refused reply f, s)
]

abbrev pub hand_over_if :
    Reply
    → Bytes
    → (src_mac : Text) → Option DeviceFingerprint
    → PassiveSniffer
    → Effects × PassiveSniffer
hand_over_if reply raw src_mac none s = (no_effects, s)
hand_over_if reply raw src_mac (some f) s = hand_over reply (addressed raw src_mac f) s

-- The packet callbacks get the frame before, and their exceptions are logged.
unfoldable pub process_packet :
    (show_float : Bytes → Text)
    → (message : Text) → (src_mac dst_mac : Text) → Reply
    → Bytes
    → PassiveSniffer
    → Effects × PassiveSniffer
process_packet show_float message src_mac dst_mac reply raw s =
    hand_over_if reply raw src_mac
      (fingerprint_in (route_to_parser show_float message raw src_mac dst_mac)) s
