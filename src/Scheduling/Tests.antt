-- ===== src/Scheduling/Tests.antt =====
-- The scheduler with one scan in progress, and a cron reader for "*/7 * * * *".
use ot_asset_discovery.Prelude.{
  ℕ, ◌+◌, ◌*◌, ◌/◌, ◌%◌, ◌≡◌, refl, inl, inr, true, false, none, some, List, [], ◌∷◌, arith, leb,
  if◌then◌else◌, Bool-cases, is_some, ◌==◌, nat_keys, Text, codes, text_eq, text_keys, contains,
}
use ot_asset_discovery.Prelude.Dict.{lookup}
use ot_asset_discovery.Scheduling.{
  Status, ScanJobConfig, ScanJob, ScanScheduler, Croniter, valid, base_time, schedule_of, new_job,
  create_job, delete_job, check_overlap, start, tick, begin, raised,
}
use ot_asset_discovery.Scheduling.Runs.{
  System, Step, deleting, starting, stopping, beginning, ticking, finishing, run, Agrees,
  IsExclusive, run-IsExclusive,
}
use ot_asset_discovery.Scheduling.Outcomes.{accepts, create_job_lem}

abbrev minute : ℕ
minute = 60_000_000

abbrev expression : Text
expression = codes "*/7 * * * *"

-- the minute at which the hour began
abbrev hours : ℕ → ℕ
hours m = m / 60 * 60

-- the minutes 0, 7, ..., 56 of every hour
abbrev sevens : Croniter
sevens = record {
  is_valid = λ t. text_eq t expression;
  get_next = λ t now.
      let m : ℕ = now / minute in
      (if leb 56 (m % 60) then hours m + 60 else hours m + (m % 60 / 7 + 1) * 7) * minute;
}

-- "*/7" fires at 0:56 and at 1:00
four_minutes : sevens.get_next expression (base_time + 56 * minute) ≡ base_time + 60 * minute
four_minutes = refl

abbrev config : ScanJobConfig
config = record {
  name = codes "plant";
  schedule = some expression;
  target_subnet = none;
  active_probing_enabled = false;
}

abbrev job : ScanJob
job = record (new_job config) { status = Status.running; is_running = true }

abbrev scheduler : ScanScheduler
scheduler = record {
  is_started = true;
  jobs = (1, job) ∷ (2, new_job config) ∷ [];
  loops = 1 ∷ 2 ∷ [];
  orphans = [];
}

abbrev system : System
system = record { scheduler = scheduler; executing = 1 ∷ [] }

agrees : (id : ℕ) → Agrees (lookup id scheduler.jobs) (contains id (1 ∷ []))
agrees id = elim (Bool-cases (id == 1)) [
  | inl e ↦ rw e refl
  | inr e ↦ rw e (elim (Bool-cases (id == 2)) [ inl q ↦ rw q refl | inr q ↦ rw q tt ])
]

held : (id : ℕ) → contains id scheduler.loops ≡ true → is_some (lookup id scheduler.jobs) ≡ true
held id h = ground (arith, h)

abbrev steps : List Step
steps = beginning 1 ∷ ticking 2 ∷ deleting 1 ∷ finishing 0 5 2 (raised (codes "x")) ∷ stopping ∷ []

run-IsExclusive_example : IsExclusive (run sevens steps system)
run-IsExclusive_example = run-IsExclusive sevens steps system tt (record {
  one_scan = (refl, tt);
  agrees = agrees;
  no_orphans = refl;
  idle = λ e. absurd (ground (arith, e));
  held = held;
})

create_job_lem_example :
    let (v, s') = create_job sevens 7 config scheduler in
    (v ≡ valid) × (lookup 7 s'.jobs ≡ some (new_job config))
create_job_lem_example = create_job_lem sevens 7 config scheduler

sevens-accepted : accepts sevens (schedule_of config) ≡ true
sevens-accepted = refl

-- A second start leaves an orphan, which scans a deleted job once more: two scans at once.
abbrev restarted : List Step
restarted = starting ∷ starting ∷ beginning 2 ∷ deleting 2 ∷ ticking 2 ∷ []

two_scans :
    (run sevens restarted (record {
      scheduler = record {
        is_started = false;
        jobs = (2, new_job config) ∷ [];
        loops = [];
        orphans = [];
      };
      executing = [];
    })).executing
    ≡ 2 ∷ 2 ∷ []
unfolding start begin tick delete_job check_overlap
two_scans = refl
