-- ===== src/Scheduling/Outcomes.antt =====
-- What a finished scan leaves of its job in app/scheduling/scheduler.py, what the callbacks are
-- given, and which schedules are accepted.
use ot_asset_discovery.Prelude.{
  ℕ, ◌+◌, ◌≡◌, refl, Bool, true, false, ◌&&◌, Option, none, some, arith, leb, if◌then◌else◌,
  is_some, nat_keys, Text, text_keys,
}
use ot_asset_discovery.Prelude.Dict.{lookup, lookup-insert_self}
use ot_asset_discovery.Scheduling.{
  ScanJobConfig, ScanResult, ScanJob, ScanScheduler, Croniter, Validation, valid,
  invalid_expression, too_frequent, base_time, validate_cron_schedule, schedule_of, new_job,
  checked, with_job, create_job, Outcome, returned, no_executor, raised, cancelled,
}

abbrev pub is_raised : Outcome → Bool
is_raised (returned r) = false
is_raised no_executor = false
is_raised (raised reason) = true
is_raised cancelled = false

abbrev pub is_cancelled : Outcome → Bool
is_cancelled (returned r) = false
is_cancelled no_executor = false
is_cancelled (raised reason) = false
is_cancelled cancelled = true

-- A job after a scan, against the job before it: unless it was cancelled, the last result is
-- dated from the scan and has the job's status; if it was, nothing is recorded.
abbrev pub Recorded : Outcome → (started : ℕ) → (before after : ScanJob) → Type 0
Recorded o started before after =
    if is_cancelled o
    then (after.status ≡ before.status) × (after.last_result ≡ before.last_result)
    else (r : ScanResult) × (after.last_result ≡ some r)
      × (r.status ≡ after.status)
      × (r.started_at ≡ started)
      × (is_some r.completed_at ≡ true)

-- An absent schedule, or a valid one whose first two executions are five minutes apart.
abbrev pub accepts : Croniter → Option Text → Bool
accepts c none = true
accepts c (some t) =
    c.is_valid t
    && leb (c.get_next t base_time + 300_000_000) (c.get_next t (c.get_next t base_time))

abbrev is_ok : Validation → Bool
is_ok valid = true
is_ok invalid_expression = false
is_ok too_frequent = false

checked_ok : (c : Croniter) (o : Option Text) → is_ok (checked c o) ≡ accepts c o
unfolding validate_cron_schedule
checked_ok c none = refl
checked_ok c (some t) = ground arith

with_job_lem :
    (id : ℕ) (config : ScanJobConfig) (s : ScanScheduler) (v : Validation)
    → if is_ok v
      then (v ≡ valid) × (lookup id (with_job id config v s).jobs ≡ some (new_job config))
      else with_job id config v s ≡ s
with_job_lem id config s valid = (refl, lookup-insert_self id (new_job config) s.jobs)
with_job_lem id config s invalid_expression = refl
with_job_lem id config s too_frequent = refl

-- A job is created exactly if it has no schedule, or an empty one, or one that is valid and whose
-- first two executions are at least five minutes apart; else the scheduler stays as it is.
pub create_job_lem :
    (c : Croniter) (id : ℕ) (config : ScanJobConfig) (s : ScanScheduler)
    → let (v, s') = create_job c id config s in
      if accepts c (schedule_of config)
      then (v ≡ valid) × (lookup id s'.jobs ≡ some (new_job config))
      else s' ≡ s
unfolding create_job
create_job_lem c id config s =
    rw (← checked_ok c (schedule_of config))
      (with_job_lem id config s (checked c (schedule_of config)))
