-- ===== src/Capture/Sniffer/Tests.antt =====
-- The sniffer at concrete frames and buffers.
use ot_asset_discovery.Domain.{Protocol, ParsingStatus, DeviceFingerprint}
use ot_asset_discovery.Parsers.{Bytes}
use ot_asset_discovery.Capture.Sniffer.{
  Reply, returns, times_out, PassiveSniffer, validate_interface, start_capture, flush_loop,
  flush_buffer, stop_capture,
}
use ot_asset_discovery.Capture.Sniffer.Flush.{flush_buffer_lem}
use ot_asset_discovery.Capture.Sniffer.Runs.{
  set_commit, start_on, stop_with, run, IsConserved, run-IsConserved,
}
use ot_asset_discovery.Prelude.{
  ℕ, ◌<◌, ◌≡◌, refl, ◌≢◌, ◌⊎◌, true, Option, none, some, [], ◌∷◌, ◌++◌, nat_eq, if◌then◌else◌,
  length, ◌==◌, nat_keys, Text, codes, text_keys,
}
use ot_asset_discovery.Prelude.Strings.{lstrip_if, rstrip_if, strip}

abbrev macs : Bytes
macs = 2 ∷ 0 ∷ 0 ∷ 0 ∷ 0 ∷ 1 ∷ 2 ∷ 0 ∷ 0 ∷ 0 ∷ 0 ∷ 2 ∷ []

abbrev ip_header : Bytes
ip_header =
    0x45 ∷ 0 ∷ 0 ∷ 60 ∷ 0 ∷ 1 ∷ 0 ∷ 0 ∷ 64 ∷ 6 ∷ 0 ∷ 0 ∷ 10 ∷ 0 ∷ 0 ∷ 12 ∷ 10 ∷ 0 ∷ 0 ∷ 7 ∷ []

-- from port 502 to port 102: Modbus comes first
abbrev tcp_header : Bytes
tcp_header =
    1 ∷ 246 ∷ 0 ∷ 102 ∷ 0 ∷ 0 ∷ 0 ∷ 1 ∷ 0 ∷ 0 ∷ 0 ∷ 1 ∷ 0x50 ∷ 0x18 ∷ 2 ∷ 0 ∷ 0 ∷ 0 ∷ 0 ∷ 0 ∷ []

no_float : Bytes → Text
no_float bs = []

abbrev seen : Text → DeviceFingerprint
seen address = record {
  schema_version = codes "1.0.0";
  protocol = Protocol.dnp3;
  source_address = address;
  destination_address = codes "1";
  mac_address = none;
  ip_address = none;
  vendor = none;
  model = none;
  firmware_version = none;
  device_type = none;
  serial_number = none;
  protocol_data = [];
  parsing_status = ParsingStatus.partial;
  binary_fields = [];
}

abbrev stopping : Option ℕ → PassiveSniffer
stopping callback = record {
  interface = some (codes "eth0");
  is_running = true;
  packet_callbacks = [];
  buffer = seen (codes "3") ∷ seen (codes "4") ∷ [];
  commit_callback = callback;
  started_at = some 5;
}

-- the second call is cut off
abbrev slow : ℕ → Reply
slow n = if nat_eq n 0 then returns else times_out

flush_buffer_lem_example :
    let (e, s') = flush_buffer slow (stopping (some 1)) in
    (e.committed ++ (e.dropped ++ s'.buffer) ≡ (stopping (some 1)).buffer)
    × ((e.dropped ≡ [])
        × ((i : ℕ) → i < length e.committed → slow i ≡ returns)
        × ((s'.buffer ≡ []) ⊎ (slow (length e.committed) ≢ returns)))
flush_buffer_lem_example = flush_buffer_lem slow (stopping (some 1))

-- A stop without a commit callback loses what was buffered.
lost : (stop_capture slow (stopping none)).1.0.dropped ≡ (stopping none).buffer
unfolding stop_capture flush_buffer
lost = refl

-- A start loses what the last stop left behind.
lost_at_start :
    (run no_float []
      (stop_with slow ∷ start_on (codes "eth0") (some (codes "eth0" ∷ [])) true 9 ∷ [])
      (stopping (some 1))).0.dropped
    ≡ seen (codes "4") ∷ []
unfolding run stop_capture flush_buffer flush_loop start_capture validate_interface strip lstrip_if
    rstrip_if
lost_at_start = refl

run-IsConserved_example :
    IsConserved
      (λ f. f.source_address == codes "4")
      (stopping none)
      (run no_float [] (set_commit 2 ∷ stop_with slow ∷ []) (stopping none))
run-IsConserved_example =
    run-IsConserved no_float [] (λ f. f.source_address == codes "4")
      (set_commit 2 ∷ stop_with slow ∷ []) (stopping none)
