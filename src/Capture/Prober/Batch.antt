-- ===== src/Capture/Prober/Batch.antt =====
-- `probe_batch` of app/capture/prober.py as moves of its tasks: a task waits at the semaphore, in
-- the order of arrival, holds it while it probes, and leaves a result or an exception. Tasks are
-- known by the indices of their targets. The semaphore is the prober's: the other batches of the
-- prober may hold some of its permits, and take or give back some at any time.
pub mod Progress
pub mod Ends
use ot_asset_discovery.Prelude.{
  ℕ, ◌+◌, Option, none, some, List, [], ◌∷◌, ◌++◌, ltb, leb, nat_eq, if◌then◌else◌, length, Eq,
  nat_keys, Text, text_keys, contains, ◌>>=◌,
}
use ot_asset_discovery.Prelude.Dict.{Dict, lookup}
use ot_asset_discovery.Capture.Prober.{ProbeTarget, probe_error, ProbeResult, failing}

-- MAX_CONCURRENT
abbrev pub max_concurrent : ℕ
max_concurrent = 10

pub data TaskOutcome : Type 0 where
  probe_returned : ProbeResult → TaskOutcome
  probe_raised : Text → TaskOutcome

pub record Batch : Type 0 where
  pub waiting : List ℕ
  pub active : List ℕ
  pub finished : Dict ℕ TaskOutcome
  -- the permits that other batches hold
  pub held_elsewhere : ℕ

abbrev pub indices : (first : ℕ) → List ProbeTarget → List ℕ
indices first [] = []
indices first (t ∷ targets) = first ∷ indices (first + 1) targets

-- The tasks that the batch creates.
abbrev pub start_batch : (held : ℕ) → List ProbeTarget → Batch
start_batch held targets = record {
  waiting = indices 0 targets;
  active = [];
  finished = [];
  held_elsewhere = held;
}

pub data Move : Type 0 where
  acquire : Move
  release : (task : ℕ) → TaskOutcome → Move
  -- other batches hold so many permits from now on
  elsewhere : ℕ → Move

abbrev pub remove : ℕ → List ℕ → List ℕ
remove i [] = []
remove i (j ∷ js) = let rest = remove i js in if nat_eq i j then js else j ∷ rest

abbrev pub admit_task : Batch → List ℕ → Option Batch
admit_task b [] = none
admit_task b (i ∷ waiting) =
    if ltb (length b.active + b.held_elsewhere) max_concurrent
    then some (record b { waiting = waiting; active = b.active ++ i ∷ [] })
    else none

unfoldable pub move : Move → Batch → Option Batch
move acquire b = admit_task b b.waiting
move (release i o) b =
    if contains i b.active
    then some (record b { active = remove i b.active; finished = b.finished ++ (i, o) ∷ [] })
    else none
move (elsewhere n) b =
    if leb (length b.active + n) max_concurrent
    then some (record b { held_elsewhere = n })
    else none

unfoldable pub run_moves : List Move → Batch → Option Batch
run_moves [] b = some b
run_moves (m ∷ moves) b = do next ← move m b; run_moves moves next

-- An exception of a task becomes an error result.
abbrev pub final_result : ProbeTarget → TaskOutcome → ProbeResult
final_result t (probe_returned r) = r
final_result t (probe_raised e) = failing t probe_error e

-- `gather` gives the outcomes in the order of the tasks.
abbrev pub with_outcome : ProbeTarget → Option TaskOutcome → List ProbeResult → List ProbeResult
with_outcome t none rest = rest
with_outcome t (some o) rest = final_result t o ∷ rest

abbrev pub final_results : (first : ℕ) → List ProbeTarget → Dict ℕ TaskOutcome → List ProbeResult
final_results first [] finished = []
final_results first (t ∷ targets) finished =
    with_outcome t (lookup first finished) (final_results (first + 1) targets finished)
