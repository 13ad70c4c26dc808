-- ===== src/Scheduling.antt =====
-- app/scheduling/scheduler.py. A scan is two steps around the wait for the executor: `begin`, up
-- to it, and `finish`, with what came of it. croniter is a parameter. The keys of
-- `_scheduler_tasks` stand for the loops. A second start puts new loops in the place of the old
-- ones, which it does not cancel: those are orphans, and go on with the jobs that they hold.
pub mod Runs
pub mod Outcomes
mod Tests
use ot_asset_discovery.Prelude.{
  ℕ, ◌+◌, ◌*◌, Bool, true, false, not, ◌&&◌, Option, none, some, List, [], ◌∷◌, ◌++◌, ltb,
  if◌then◌else◌, is_some, Eq, nat_keys, Text, text_keys, contains, set_add, set_discard,
}
use ot_asset_discovery.Prelude.Dict.{Dict, lookup, insert, erase}
use ot_asset_discovery.Domain.{Severity, high, AlertType, scan_failed, scan_failed_details, Alert}

pub data Status : Type 0 where
  scheduled running completed failed skipped : Status

pub record ScanJobConfig : Type 0 where
  pub name : Text
  pub schedule : Option Text
  pub target_subnet : Option Text
  pub active_probing_enabled : Bool

pub record ScanResult : Type 0 where
  pub started_at : ℕ
  pub completed_at : Option ℕ
  pub devices_discovered : ℕ
  pub new_devices : ℕ
  pub alerts_generated : ℕ
  pub status : Status
  pub failure_reason : Option Text

pub record ScanJob : Type 0 where
  pub config : ScanJobConfig
  pub status : Status
  pub last_result : Option ScanResult
  pub is_running : Bool

pub record ScanScheduler : Type 0 where
  pub is_started : Bool
  pub jobs : Dict ℕ ScanJob
  pub loops : List ℕ
  -- the jobs of the loops that run and are not in `_scheduler_tasks`
  pub orphans : List ℕ

pub record Croniter : Type 0 where
  pub is_valid : Text → Bool
  pub get_next : Text → ℕ → ℕ

-- what `validate_cron_schedule` returns or raises
pub data Validation : Type 0 where
  valid invalid_expression too_frequent : Validation

-- 2024-01-01, in microseconds
abbrev pub base_time : ℕ
base_time = 1_704_067_200_000_000

-- MIN_INTERVAL_MINUTES
abbrev pub min_interval : ℕ
min_interval = 5 * 60_000_000

pub validate_cron_schedule : Croniter → Text → Validation
validate_cron_schedule c schedule =
    let first : ℕ = c.get_next schedule base_time in
    let then_ : ℕ = c.get_next schedule first in
    if not (c.is_valid schedule)
    then invalid_expression
    else if ltb then_ (first + min_interval)
    then too_frequent
    else valid

-- the schedule, if it is there and not empty
abbrev pub schedule_of : ScanJobConfig → Option Text
schedule_of config = elim config.schedule [
  | none ↦ none
  | some [] ↦ none
  | some (c ∷ s) ↦ some (c ∷ s)
]

abbrev pub new_job : ScanJobConfig → ScanJob
new_job config = record {
  config = config;
  status = Status.scheduled;
  last_result = none;
  is_running = false;
}

abbrev pub checked : Croniter → Option Text → Validation
checked c none = valid
checked c (some schedule) = validate_cron_schedule c schedule

abbrev pub with_job : ℕ → ScanJobConfig → Validation → ScanScheduler → ScanScheduler
with_job id config valid s = record s {
  jobs = insert id (new_job config) s.jobs;
  loops = if s.is_started && is_some (schedule_of config) then set_add id s.loops else s.loops;
}
with_job id config invalid_expression s = s
with_job id config too_frequent s = s

pub create_job : Croniter → ℕ → ScanJobConfig → ScanScheduler → Validation × ScanScheduler
create_job c id config s = let v = checked c (schedule_of config) in (v, with_job id config v s)

pub delete_job : ℕ → ScanScheduler → Bool × ScanScheduler
delete_job id s =
    if is_some (lookup id s.jobs)
    then (true, record s { jobs = erase id s.jobs; loops = set_discard id s.loops })
    else (false, s)

abbrev pub running_of : Option ScanJob → Bool
running_of none = false
running_of (some j) = j.is_running

pub check_overlap : ℕ → ScanScheduler → Bool
check_overlap id s = running_of (lookup id s.jobs)

abbrev pub start_loops : Dict ℕ ScanJob → List ℕ → List ℕ
start_loops [] loops = loops
start_loops ((id, j) ∷ jobs) loops =
    start_loops jobs (if is_some (schedule_of j.config) then set_add id loops else loops)

-- the loops that are overwritten
abbrev pub overwritten : Dict ℕ ScanJob → List ℕ → List ℕ
overwritten [] loops = []
overwritten ((id, j) ∷ jobs) loops =
    let rest = overwritten jobs loops in
    if is_some (schedule_of j.config) && contains id loops then id ∷ rest else rest

pub start : ScanScheduler → ScanScheduler
start s = record s {
  is_started = true;
  loops = start_loops s.jobs s.loops;
  orphans = overwritten s.jobs s.loops ++ s.orphans;
}

-- An orphan is not cancelled; it would end at its next round, but for another start before it.
pub stop : ScanScheduler → ScanScheduler
stop s = record s { is_started = false; loops = [] }

-- The events that the event callback is given.
pub data Event : Type 0 where
  scan_skipped : (job_id : ℕ) (job_name : Text) → Event
  scan_completed : (job_id : ℕ) (job_name : Text) → ScanResult → Event

-- How a trigger ends, or that the scan has begun.
pub data Begun : Type 0 where
  not_found overlapping begun : Begun

abbrev pub begin_job : Option ScanJob → ℕ → ScanScheduler → Begun × (List Event × ScanScheduler)
begin_job none id s = (not_found, ([], s))
begin_job (some j) id s =
    if check_overlap id s then (overlapping, (scan_skipped id j.config.name ∷ [], s)) else (
      begun,
      (
        [],
        record s {
          jobs = insert id (record j { is_running = true; status = Status.running }) s.jobs;
        },
      ),
    )

-- A loop runs the job that it holds; the overlap check finds none if the job has been deleted.
abbrev pub tick_job : Option ScanJob → ℕ → ScanScheduler → Begun × (List Event × ScanScheduler)
tick_job none id s = (begun, ([], s))
tick_job (some j) id s = begin_job (some j) id s

-- A tick of a loop, up to the executor; `not_found` where no loop has the job.
pub tick : ℕ → ScanScheduler → Begun × (List Event × ScanScheduler)
tick id s =
    if contains id (s.loops ++ s.orphans)
    then tick_job (lookup id s.jobs) id s
    else (not_found, ([], s))

-- `trigger_manual`, up to the executor
pub begin : ℕ → ScanScheduler → Begun × (List Event × ScanScheduler)
begin id s = begin_job (lookup id s.jobs) id s

-- What comes of the executor; there is a wait that is cancelled, too.
pub data Outcome : Type 0 where
  returned : ScanResult → Outcome
  no_executor : Outcome
  raised : (reason : Text) → Outcome
  cancelled : Outcome

abbrev pub recorded : (started now : ℕ) → ScanResult → ScanResult
recorded started now r = record r {
  started_at = started;
  completed_at = some (elim r.completed_at [ none ↦ now | some t ↦ t ]);
}

abbrev pub plain_result : (started now : ℕ) → Status → Option Text → ScanResult
plain_result started now status reason = record {
  started_at = started;
  completed_at = some now;
  devices_discovered = 0;
  new_devices = 0;
  alerts_generated = 0;
  status = status;
  failure_reason = reason;
}

-- The job's part of `_execute_scan` behind the executor, with the `finally`.
pub finish_job : (started now : ℕ) → Outcome → ScanJob → ScanJob
finish_job started now (returned r) j = record j {
  status = r.status;
  last_result = some (recorded started now r);
  is_running = false;
}
finish_job started now no_executor j = record j {
  status = Status.completed;
  last_result = some (plain_result started now Status.completed none);
  is_running = false;
}
finish_job started now (raised reason) j = record j {
  status = Status.failed;
  last_result = some (plain_result started now Status.failed (some reason));
  is_running = false;
}
finish_job started now cancelled j = record j { is_running = false }

abbrev pub scan_failed_alert : (alert_id now id : ℕ) → ScanJobConfig → (reason : Text) → Alert
scan_failed_alert alert_id now id config reason = record {
  id = alert_id;
  alert_type = AlertType.scan_failed;
  severity = Severity.high;
  device_id = none;
  details = scan_failed_details id config.name reason config.target_subnet;
  generated_at = now;
}

-- The events and alerts that the callbacks are given; what they raise is dropped.
pub emitted : (alert_id started now id : ℕ) → Outcome → ScanJob → List Event × List Alert
emitted alert_id started now id (returned r) j =
    (scan_completed id j.config.name (recorded started now r) ∷ [], [])
emitted alert_id started now id no_executor j =
    (scan_completed id j.config.name (plain_result started now Status.completed none) ∷ [], [])
emitted alert_id started now id (raised reason) j =
    ([], scan_failed_alert alert_id now id j.config reason ∷ [])
emitted alert_id started now id cancelled j = ([], [])

abbrev pub finished_job :
    Option ScanJob → (started now id : ℕ) → Outcome → ScanScheduler → ScanScheduler
finished_job none started now id o s = s
finished_job (some j) started now id o s = record s {
  jobs = insert id (finish_job started now o j) s.jobs;
}

-- The job object is the stored one, unless it has been deleted.
pub finish : (started now id : ℕ) → Outcome → ScanScheduler → ScanScheduler
finish started now id o s = finished_job (lookup id s.jobs) started now id o s
