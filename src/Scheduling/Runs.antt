-- ===== src/Scheduling/Runs.antt =====
-- Any sequence of steps of app/scheduling/scheduler.py: no job has two scans at once.
use ot_asset_discovery.Prelude.{
  ℕ, ◌≡◌, refl, sym, ap, ◌∙◌, ◌⊎◌, inl, inr, Bool, true, false, ◌||◌, Option, none, some, List, [],
  ◌∷◌, ◌++◌, append-nil, arith, if◌then◌else◌, nat_eq→eq, Bool-cases, Option-cases, is_some, ◌==◌,
  nat_keys, text_keys, contains, Distinct, set_add, contains-set_add, contains-set_discard,
}
use ot_asset_discovery.Prelude.Dict.{Dict, lookup, insert, erase, lookup-insert, lookup-erase}
use ot_asset_discovery.Scheduling.{
  Status, ScanJobConfig, ScanJob, ScanScheduler, Croniter, Validation, valid, invalid_expression,
  too_frequent, schedule_of, new_job, checked, with_job, create_job, delete_job, running_of,
  check_overlap, start_loops, overwritten, start, stop, Event, Begun, not_found, overlapping, begun,
  tick, begin, Outcome, returned, no_executor, raised, cancelled, finish_job, finish,
}

-- The scheduler, and the jobs whose scans wait for the executor.
pub record System : Type 0 where
  pub scheduler : ScanScheduler
  pub executing : List ℕ

pub data Step : Type 0 where
  creating : ℕ → ScanJobConfig → Step
  deleting : ℕ → Step
  starting : Step
  stopping : Step
  beginning : ℕ → Step
  ticking : ℕ → Step
  finishing : (started now id : ℕ) → Outcome → Step

abbrev pub after_begin : ℕ → Begun × (List Event × ScanScheduler) → List ℕ → System
after_begin id (not_found, (events, s)) executing = record { scheduler = s; executing = executing }
after_begin id (overlapping, (events, s)) executing = record {
  scheduler = s;
  executing = executing;
}
after_begin id (begun, (events, s)) executing = record { scheduler = s; executing = id ∷ executing }

-- One scan of the job ends.
abbrev pub end_one : ℕ → List ℕ → List ℕ
end_one id [] = []
end_one id (k ∷ executing) =
    let rest = end_one id executing in if id == k then executing else k ∷ rest

-- A new job has an id that no job and no scan has; a scan ends only if there is one.
abbrev pub step : Croniter → Step → System → System
step c (creating id config) y =
    if is_some (lookup id y.scheduler.jobs) || contains id y.executing
    then y
    else record y { scheduler = (create_job c id config y.scheduler).1 }
step c (deleting id) y = record y { scheduler = (delete_job id y.scheduler).1 }
step c starting y = record y { scheduler = start y.scheduler }
step c stopping y = record y { scheduler = stop y.scheduler }
step c (beginning id) y = after_begin id (begin id y.scheduler) y.executing
step c (ticking id) y = after_begin id (tick id y.scheduler) y.executing
step c (finishing started now id o) y =
    if contains id y.executing
    then record {
      scheduler = finish started now id o y.scheduler;
      executing = end_one id y.executing;
    }
    else y

abbrev pub run : Croniter → List Step → System → System
run c [] y = y
run c (k ∷ steps) y = run c steps (step c k y)

-- A stored job counts as running exactly if it has a scan.
abbrev pub Agrees : Option ScanJob → Bool → Type 0
Agrees none scanning = Unit
Agrees (some j) scanning = j.is_running ≡ scanning

pub record IsExclusive (y : System) : Type 0 where
  pub one_scan : Distinct y.executing
  pub agrees : (id : ℕ) → Agrees (lookup id y.scheduler.jobs) (contains id y.executing)
  pub no_orphans : y.scheduler.orphans ≡ []
  pub idle : y.scheduler.is_started ≡ false → y.scheduler.loops ≡ []
  pub held :
      (id : ℕ) → contains id y.scheduler.loops ≡ true → is_some (lookup id y.scheduler.jobs) ≡ true

-- `start` is called only on a scheduler that is not started.
abbrev pub StartsApart : Croniter → List Step → System → Type 0
StartsApart c [] y = Unit
StartsApart c (starting ∷ steps) y =
    (y.scheduler.is_started ≡ false) × StartsApart c steps (step c starting y)
StartsApart c (creating id config ∷ steps) y = StartsApart c steps (step c (creating id config) y)
StartsApart c (deleting id ∷ steps) y = StartsApart c steps (step c (deleting id) y)
StartsApart c (stopping ∷ steps) y = StartsApart c steps (step c stopping y)
StartsApart c (beginning id ∷ steps) y = StartsApart c steps (step c (beginning id) y)
StartsApart c (ticking id ∷ steps) y = StartsApart c steps (step c (ticking id) y)
StartsApart c (finishing started now id o ∷ steps) y =
    StartsApart c steps (step c (finishing started now id o) y)

contains-end_one :
    (id k : ℕ) (executing : List ℕ)
    → Distinct executing
    → contains k (end_one id executing) ≡ (if k == id then false else contains k executing)
contains-end_one id k [] h = ground arith
contains-end_one id k (e ∷ executing) h = ground (arith, h.0, contains-end_one id k executing h.1)

Distinct-end_one :
    (id : ℕ) (executing : List ℕ) → Distinct executing → Distinct (end_one id executing)
Distinct-end_one id [] h = tt
Distinct-end_one id (e ∷ executing) h = elim (Bool-cases (id == e)) [
  | inl q ↦ rw q h.1
  | inr q ↦ rw q (
    rw (contains-end_one id e executing h.1) (ground (arith, h.0)),
    Distinct-end_one id executing h.1,
  )
]

Agrees-insert :
    (id k : ℕ) (j : ScanJob) (jobs : Dict ℕ ScanJob) (before after : Bool)
    → Agrees (lookup k jobs) before
    → (k == id ≡ true → j.is_running ≡ after)
    → (k == id ≡ false → before ≡ after)
    → Agrees (lookup k (insert id j jobs)) after
Agrees-insert id k j jobs before after h same other = elim (Bool-cases (k == id)) [
  | inl q ↦ rw (lookup-insert id k j jobs, q) (same q)
  | inr q ↦ rw (lookup-insert id k j jobs, q) (rw (other q) at h)
]

Agrees-erase :
    (id k : ℕ) (jobs : Dict ℕ ScanJob) (scanning : Bool)
    → Agrees (lookup k jobs) scanning
    → Agrees (lookup k (erase id jobs)) scanning
Agrees-erase id k jobs scanning h = elim (Bool-cases (k == id)) [
  | inl q ↦ rw (lookup-erase id k jobs, q) tt
  | inr q ↦ rw (lookup-erase id k jobs, q) h
]

create-IsExclusive :
    (c : Croniter) (id : ℕ) (config : ScanJobConfig) (y : System)
    → contains id y.executing ≡ false
    → IsExclusive y
    → IsExclusive (record y { scheduler = (create_job c id config y.scheduler).1 })
unfolding create_job
create-IsExclusive c id config y free h = at_validation (checked c (schedule_of config))
  where
    at_validation :
        (v : Validation) → IsExclusive (record y { scheduler = with_job id config v y.scheduler })
    at_validation valid = record {
      one_scan = h.one_scan;
      agrees = λ k.
          Agrees-insert id k (new_job config) y.scheduler.jobs _ _ (h.agrees k)
            (λ q. ground (arith, q, free)) (λ q. refl);
      no_orphans = h.no_orphans;
      idle = λ off. ground (arith, off, h.idle off);
      held = λ k l. ground (
        arith,
        l,
        h.held k,
        lookup-insert id k (new_job config) y.scheduler.jobs,
        contains-set_add id k y.scheduler.loops,
      );
    }
    at_validation invalid_expression = h
    at_validation too_frequent = h

delete-IsExclusive :
    (id : ℕ) (y : System)
    → IsExclusive y
    → IsExclusive (record y { scheduler = (delete_job id y.scheduler).1 })
unfolding delete_job
delete-IsExclusive id y h = elim (Bool-cases (is_some (lookup id y.scheduler.jobs))) [
  | inl q ↦ rw q (record {
    one_scan = h.one_scan;
    agrees = λ k. Agrees-erase id k y.scheduler.jobs _ (h.agrees k);
    no_orphans = h.no_orphans;
    idle = λ off. rw (h.idle off) refl;
    held = λ k l. ground (
      arith,
      l,
      h.held k,
      lookup-erase id k y.scheduler.jobs,
      contains-set_discard id k y.scheduler.loops,
    );
  })
  | inr q ↦ rw q h
]

overlap_of : (id : ℕ) (s : ScanScheduler) → check_overlap id s ≡ running_of (lookup id s.jobs)
unfolding check_overlap
overlap_of id s = refl

begin-IsExclusive :
    (id : ℕ) (y : System)
    → IsExclusive y
    → IsExclusive (after_begin id (begin id y.scheduler) y.executing)
unfolding begin
begin-IsExclusive id y h = elim (Option-cases (lookup id y.scheduler.jobs)) [
  | inl q ↦ rw q h
  | inr (j, q) ↦ elim (Bool-cases (check_overlap id y.scheduler)) [
    | inl v ↦ rw (q, v) h
    | inr v ↦
        let idle : j.is_running ≡ false = sym (overlap_of id y.scheduler ∙ ap running_of q) ∙ v in
        let scans : Agrees (some j) (contains id y.executing) = rw q at (h.agrees id) in
        let free : contains id y.executing ≡ false = sym scans ∙ idle in
        rw (q, v)
          (record {
            one_scan = (free, h.one_scan);
            agrees = λ k.
                Agrees-insert id k _ y.scheduler.jobs _ _ (h.agrees k) (λ e. rw e refl)
                  (λ e. rw e refl);
            no_orphans = h.no_orphans;
            idle = h.idle;
            held = λ k l. ground (
              arith,
              h.held k l,
              lookup-insert id k (record j { is_running = true; status = Status.running })
                  y.scheduler.jobs,
            );
          })
  ]
]

finish_job_idle :
    (started now : ℕ) (o : Outcome) (j : ScanJob) → (finish_job started now o j).is_running ≡ false
unfolding finish_job
finish_job_idle started now (returned r) j = refl
finish_job_idle started now no_executor j = refl
finish_job_idle started now (raised reason) j = refl
finish_job_idle started now cancelled j = refl

finish-IsExclusive :
    (started now id : ℕ) (o : Outcome) (y : System)
    → IsExclusive y
    → IsExclusive (record {
      scheduler = finish started now id o y.scheduler;
      executing = end_one id y.executing;
    })
unfolding finish
finish-IsExclusive started now id o y h = elim (Option-cases (lookup id y.scheduler.jobs)) [
  | inl q ↦ rw q (record {
    one_scan = Distinct-end_one id y.executing h.one_scan;
    agrees = λ k. elim (Bool-cases (k == id)) [
      | inl e ↦ rw (nat_eq→eq k id e, q) tt
      | inr e ↦ rw (contains-end_one id k y.executing h.one_scan, e) (h.agrees k)
    ];
    no_orphans = h.no_orphans;
    idle = h.idle;
    held = h.held;
  })
  | inr (j, q) ↦ rw q (record {
    one_scan = Distinct-end_one id y.executing h.one_scan;
    agrees = λ k.
        Agrees-insert id k (finish_job started now o j) y.scheduler.jobs _ _ (h.agrees k)
          (λ e.
            rw (contains-end_one id k y.executing h.one_scan, e) (finish_job_idle started now o j))
          (λ e. rw (contains-end_one id k y.executing h.one_scan, e) refl);
    no_orphans = h.no_orphans;
    idle = h.idle;
    held = λ k l.
        ground
          (arith, h.held k l, lookup-insert id k (finish_job started now o j) y.scheduler.jobs);
  })
]

tick-IsExclusive :
    (id : ℕ) (y : System)
    → IsExclusive y
    → IsExclusive (after_begin id (tick id y.scheduler) y.executing)
unfolding tick begin
tick-IsExclusive id y h =
    elim (Bool-cases (contains id (y.scheduler.loops ++ y.scheduler.orphans))) [
      | inr q ↦ rw q h
      | inl q ↦
          let in_loops : contains id y.scheduler.loops ≡ true =
            sym (
              ap (contains id)
                (ap (λ o. y.scheduler.loops ++ o) h.no_orphans ∙ append-nil y.scheduler.loops))
            ∙ q in
          elim (Option-cases (lookup id y.scheduler.jobs)) [
            | inl e ↦ absurd (ground (arith, e, h.held id in_loops))
            | inr (j, e) ↦ rw (q, e) (rw e at (begin-IsExclusive id y h))
          ]
    ]

contains-start_loops :
    (id : ℕ) (jobs : Dict ℕ ScanJob) (loops : List ℕ)
    → contains id (start_loops jobs loops) ≡ true
    → (contains id loops || is_some (lookup id jobs)) ≡ true
contains-start_loops id [] loops h = ground (arith, h)
contains-start_loops id ((k, j) ∷ jobs) loops h =
    elim (Bool-cases (is_some (schedule_of j.config))) [
      | inl e ↦ ground (
        arith,
        contains-set_add k id loops,
        contains-start_loops id jobs (set_add k loops) (rw e at h),
      )
      | inr e ↦ ground (arith, contains-start_loops id jobs loops (rw e at h))
    ]

overwritten-none : (jobs : Dict ℕ ScanJob) → overwritten jobs [] ≡ []
overwritten-none [] = refl
overwritten-none ((k, j) ∷ jobs) = ground (arith, overwritten-none jobs)

start-IsExclusive :
    (y : System)
    → y.scheduler.is_started ≡ false
    → IsExclusive y
    → IsExclusive (record y { scheduler = start y.scheduler })
unfolding start
start-IsExclusive y off h =
    let none_before = h.idle off in
    record {
      one_scan = h.one_scan;
      agrees = h.agrees;
      no_orphans = rw (none_before, overwritten-none y.scheduler.jobs) h.no_orphans;
      idle = λ e. absurd (ground (arith, e));
      held = λ k l. ground (
        arith,
        contains-start_loops k y.scheduler.jobs y.scheduler.loops l,
        ap (contains k) none_before,
      );
    }

stop-IsExclusive :
    (y : System) → IsExclusive y → IsExclusive (record y { scheduler = stop y.scheduler })
unfolding stop
stop-IsExclusive y h = record {
  one_scan = h.one_scan;
  agrees = h.agrees;
  no_orphans = h.no_orphans;
  idle = λ e. refl;
  held = λ k l. absurd (ground (arith, l));
}

-- Whatever jobs are created, deleted, triggered and run by their loops, whenever the scheduler is
-- stopped and, while it is not started, started, and however scans end: no job ever has two scans
-- at once, a stored job counts as running exactly while it has one, and every loop is one of a
-- stored job, if this is so at the start.
pub run-IsExclusive :
    (c : Croniter) (steps : List Step) (y : System)
    → StartsApart c steps y
    → IsExclusive y
    → IsExclusive (run c steps y)
run-IsExclusive c [] y a h = h
run-IsExclusive c (creating id config ∷ steps) y a h =
    run-IsExclusive c steps _ a (created (Bool-cases _))
  where
    created :
        (((is_some (lookup id y.scheduler.jobs) || contains id y.executing) ≡ true)
          ⊎ ((is_some (lookup id y.scheduler.jobs) || contains id y.executing) ≡ false))
        → IsExclusive (step c (creating id config) y)
    created (inl q) = rw q h
    created (inr q) = rw q (create-IsExclusive c id config y (ground (arith, q)) h)
run-IsExclusive c (deleting id ∷ steps) y a h =
    run-IsExclusive c steps _ a (delete-IsExclusive id y h)
run-IsExclusive c (starting ∷ steps) y a h =
    run-IsExclusive c steps _ a.1 (start-IsExclusive y a.0 h)
run-IsExclusive c (stopping ∷ steps) y a h = run-IsExclusive c steps _ a (stop-IsExclusive y h)
run-IsExclusive c (beginning id ∷ steps) y a h =
    run-IsExclusive c steps _ a (begin-IsExclusive id y h)
run-IsExclusive c (ticking id ∷ steps) y a h = run-IsExclusive c steps _ a (tick-IsExclusive id y h)
run-IsExclusive c (finishing started now id o ∷ steps) y a h =
    run-IsExclusive c steps _ a (elim (Bool-cases (contains id y.executing)) [
      | inl q ↦ rw q (finish-IsExclusive started now id o y h)
      | inr q ↦ rw q h
    ])
