-- ===== src/Capture/Prober/Tests.antt =====
-- Probes at concrete targets and connections.
use ot_asset_discovery.Prelude.{
  ℕ, ◌+◌, ◌≤◌, ◌≡◌, refl, true, false, some, List, [], ◌∷◌, arith, nat_eq, if◌then◌else◌, length,
  Text, codes,
}
use ot_asset_discovery.Capture.Prober.{
  ProbeTarget, Attempt, timed_out, raised_error, Callbacks, failure, probe_device,
}
use ot_asset_discovery.Capture.Prober.Batch.{
  TaskOutcome, probe_raised, Batch, indices, start_batch, acquire, release, elsewhere, move,
  run_moves,
}
use ot_asset_discovery.Capture.Prober.Batch.Progress.{times, places, moves_left}
use ot_asset_discovery.Capture.Prober.Batch.Ends.{EndsOrMoves, run_moves_lem}
use ot_asset_discovery.Capture.Prober.Outcomes.{IsReported, probe_device_lem}
use ot_asset_discovery.Domain.{Protocol}
use ot_asset_discovery.Parsers.{Bytes}
use ot_asset_discovery.Parsers.Dnp3.{strip_blocks, extract_user_data}
use ot_asset_discovery.Capture.Requests.{
  crc_bits, crc_of, compute_dnp3_crc, build_dnp3_device_attributes_request,
}

abbrev target : ProbeTarget
target = record { ip_address = codes "10.0.0.7"; protocol = Protocol.dnp3; port = 20000 }

no_float : Bytes → Text
no_float bs = []

-- No answer, and then a connection that breaks.
abbrev attempts : ℕ → Attempt
attempts n = if nat_eq n 0 then timed_out else raised_error (codes "reset")

-- a prober with a history, and no inventory
abbrev callbacks : Callbacks
callbacks = record { on_result = false; on_scan_history = true }

probe_device_lem_example :
    IsReported callbacks target (failure (codes "reset")) (probe_device callbacks target attempts)
    × ((probe_device callbacks target attempts).attempts ≡ 2)
probe_device_lem_example = probe_device_lem callbacks target attempts

abbrev pair : List ProbeTarget
pair = target ∷ target ∷ []

abbrev done : TaskOutcome
done = probe_raised (codes "reset")

abbrev halfway : Batch
halfway = record { waiting = 1 ∷ []; active = []; finished = (0, done) ∷ []; held_elsewhere = 9 }

moved : run_moves (acquire ∷ release 0 done ∷ elsewhere 9 ∷ []) (start_batch 3 pair) ≡ some halfway
unfolding run_moves move
moved = refl

run_moves_lem_example :
    (length halfway.active + halfway.held_elsewhere ≤ 10)
    × ((i : ℕ) → places i halfway ≡ times i (indices 0 pair))
    × (moves_left halfway + 2 ≡ 4)
    × EndsOrMoves pair done halfway
run_moves_lem_example =
    run_moves_lem pair (acquire ∷ release 0 done ∷ elsewhere 9 ∷ []) 3 halfway done (omega arith)
      moved

-- The parser of responses takes the checksums off the request, too.
own_request :
    extract_user_data build_dnp3_device_attributes_request
    ≡ some (0xc0 ∷ 0xc0 ∷ 0x01 ∷ 0x00 ∷ 0xfe ∷ 0x06 ∷ [])
unfolding build_dnp3_device_attributes_request compute_dnp3_crc crc_of crc_bits extract_user_data
    strip_blocks
own_request = refl
