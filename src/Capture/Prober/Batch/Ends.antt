-- ===== src/Capture/Prober/Batch/Ends.antt =====
-- A batch of app/capture/prober.py ends with one result for each target.
use ot_asset_discovery.Prelude.{
  ℕ, ◌+◌, ◌*◌, ◌≤◌, ◌<◌, ◌≡◌, refl, sym, ap, subst, ◌∙◌, ◌⊎◌, inl, inr, true, none, some, List, [],
  ◌∷◌, ◌++◌, arith, ltb, nat_eq, Bool-cases, Option-cases, is_some, length, nat_keys, text_keys,
  contains,
}
use ot_asset_discovery.Prelude.Dict.{Dict, lookup}
use ot_asset_discovery.Capture.Prober.{ProbeTarget, probe_error, ProbeResult}
use ot_asset_discovery.Capture.Prober.Batch.{
  max_concurrent, TaskOutcome, probe_returned, probe_raised, Batch, indices, start_batch, Move,
  acquire, release, remove, admit_task, move, run_moves, final_result, with_outcome, final_results,
}
use ot_asset_discovery.Capture.Prober.Batch.Progress.{
  times, keys, places, moves_left, held, own_moves, AfterIfSome, run_moves_after,
}

times_below :
    (i first : ℕ) (targets : List ProbeTarget) → i < first → times i (indices first targets) ≡ 0
times_below i first [] h = refl
times_below i first (t ∷ targets) h =
    ground (arith, h, times_below i (first + 1) targets (omega (arith, h)))

times-indices :
    (i first : ℕ) (targets : List ProbeTarget)
    → first ≤ i
    → i < first + length targets
    → times i (indices first targets) ≡ 1
times-indices i first [] h g = absurd (ground (arith, h, g))
times-indices i first (t ∷ targets) h g = elim (Bool-cases (nat_eq i first)) [
  | inl e ↦ rw e (omega (arith, times_below i (first + 1) targets (ground (arith, e))))
  | inr e ↦
      let rest = times-indices i (first + 1) targets (ground (arith, e, h)) (omega (arith, g)) in
      rw e (omega (arith, rest))
]

length-indices :
    (first : ℕ) (targets : List ProbeTarget) → length (indices first targets) ≡ length targets
length-indices first [] = refl
length-indices first (t ∷ targets) = omega (arith, length-indices (first + 1) targets)

found_key : (i : ℕ) (d : Dict ℕ TaskOutcome) → 1 ≤ times i (keys d) → is_some (lookup i d) ≡ true
found_key i [] h = absurd (ground (arith, h))
found_key i ((j, o) ∷ d) h = elim (Bool-cases (nat_eq i j)) [
  | inl e ↦ rw e refl
  | inr e ↦ rw e (found_key i d (ground (arith, e, h)))
]

-- The result is the one that the task returned, or an error that says what it raised.
abbrev pub IsResultOf : ProbeTarget → TaskOutcome → ProbeResult → Type 0
IsResultOf t (probe_returned r) result = result ≡ r
IsResultOf t (probe_raised e) result =
    (result.target ≡ t)
    × (result.status ≡ probe_error)
    × (result.fingerprint ≡ none)
    × (result.error_code ≡ some e)

-- One result for each target, in the order of the targets, and of the outcome of its task.
abbrev pub AreResults :
    (first : ℕ) → List ProbeTarget → Dict ℕ TaskOutcome → List ProbeResult → Type 0
AreResults first [] finished [] = Unit
AreResults first [] finished (r ∷ rs) = ⊥
AreResults first (t ∷ targets) finished [] = ⊥
AreResults first (t ∷ targets) finished (r ∷ rs) =
    ((o : TaskOutcome) × ((lookup first finished ≡ some o) × IsResultOf t o r))
    × AreResults (first + 1) targets finished rs

final_result-IsResultOf : (t : ProbeTarget) (o : TaskOutcome) → IsResultOf t o (final_result t o)
final_result-IsResultOf t (probe_returned r) = refl
final_result-IsResultOf t (probe_raised e) = (refl, refl, refl, refl)

final_results-AreResults :
    (first : ℕ) (targets : List ProbeTarget) (d : Dict ℕ TaskOutcome)
    → ((i : ℕ) → first ≤ i → i < first + length targets → is_some (lookup i d) ≡ true)
    → AreResults first targets d (final_results first targets d)
final_results-AreResults first [] d h = tt
final_results-AreResults first (t ∷ targets) d h =
    let rest =
      final_results-AreResults (first + 1) targets d
        (λ i a b. h i (omega (arith, a)) (omega (arith, b))) in
    elim (Option-cases (lookup first d)) [
      | inl e ↦ absurd (ground (arith, e, h first (omega arith) (omega arith)))
      | inr (o, e) ↦ with_one o e rest
    ]
  where
    with_one :
        (o : TaskOutcome)
        → lookup first d ≡ some o
        → AreResults (first + 1) targets d (final_results (first + 1) targets d)
        → AreResults first
            (t ∷ targets)
            d
            (with_outcome t (lookup first d) (final_results (first + 1) targets d))
    with_one o e rest =
        subst
          (λ x.
            AreResults first (t ∷ targets) d
              (with_outcome t x (final_results (first + 1) targets d)))
          (sym e) ((o, (e, final_result-IsResultOf t o)), rest)

times_bound : (i : ℕ) (xs : List ℕ) → times i xs ≤ length xs
times_bound i [] = omega arith
times_bound i (x ∷ xs) = ground (arith, times_bound i xs)

-- A move of the batch itself that is possible.
abbrev pub CanMove : Batch → Type 0
CanMove b = (m : Move) × (next : Batch) × ((own_moves (m ∷ []) ≡ 1) × (move m b ≡ some next))

-- Every task is finished, and the results are those of the tasks; or a task can go on; or all the
-- permits are with other batches.
abbrev pub EndsOrMoves : List ProbeTarget → TaskOutcome → Batch → Type 0
EndsOrMoves targets o b =
    ((moves_left b ≡ 0) × AreResults 0 targets b.finished (final_results 0 targets b.finished))
    ⊎ (CanMove b ⊎ (b.held_elsewhere ≡ 10))

possible_move :
    (b : Batch) (o : TaskOutcome) (waiting active : List ℕ)
    → held b ≤ max_concurrent
    → waiting ≡ b.waiting
    → active ≡ b.active
    → (moves_left b ≡ 0) ⊎ (CanMove b ⊎ (b.held_elsewhere ≡ 10))
unfolding move
possible_move b o [] [] k e f = inl (omega (arith, ap length e, ap length f))
possible_move b o (i ∷ waiting) [] k e f =
    elim (Bool-cases (ltb (length b.active + b.held_elsewhere) max_concurrent)) [
      | inl free ↦ inr (
          inl (
            acquire,
            record b { waiting = waiting; active = b.active ++ i ∷ [] },
            (refl, ap (admit_task b) (sym e) ∙ rw free refl),
          ))
      | inr full ↦ inr (inr (ground (arith, full, k, ap length f)))
    ]
possible_move b o waiting (j ∷ active) k e f =
    let there : contains j b.active ≡ true = ap (contains j) (sym f) ∙ ground arith in
    inr (
      inl (
        release j o,
        record b { active = remove j b.active; finished = b.finished ++ (j, o) ∷ [] },
        (refl, rw there refl),
      ))

-- Start a batch while other batches of the prober hold at most ten permits. However its tasks move
-- and the others take and give back permits: at most ten permits are taken, each task is in one
-- place, and two moves for each target are made or left. If none is left, there is one result for
-- each target, in their order, the one that its task returned or an error that says what it
-- raised; else some task can go on, whatever its outcome, or the others hold all ten.
pub run_moves_lem :
    (targets : List ProbeTarget) (moves : List Move) (elsewhere_held : ℕ) (b : Batch)
    (o : TaskOutcome)
    → elsewhere_held ≤ 10
    → run_moves moves (start_batch elsewhere_held targets) ≡ some b
    → (length b.active + b.held_elsewhere ≤ 10)
      × ((i : ℕ) → places i b ≡ times i (indices 0 targets))
      × (moves_left b + own_moves moves ≡ 2 * length targets)
      × EndsOrMoves targets o b
run_moves_lem targets moves elsewhere_held b o few e =
    let start = start_batch elsewhere_held targets in
    let after : AfterIfSome (own_moves moves) start (some b) =
      subst (AfterIfSome (own_moves moves) start) e (run_moves_after moves start) in
    let kept : (i : ℕ) → places i b ≡ times i (indices 0 targets) =
      λ i. omega (arith, after.kept i) in
    let limit = after.limit (omega (arith, few)) in
    (
      limit,
      kept,
      omega (arith, after.left, length-indices 0 targets),
      elim (possible_move b o b.waiting b.active limit refl refl) [
        | inr m ↦ inr m
        | inl z ↦ inl (
          z,
          final_results-AreResults 0 targets b.finished (λ i h g. found_key i b.finished (
              omega (
                arith,
                z,
                kept i,
                times_bound i b.waiting,
                times_bound i b.active,
                times-indices i 0 targets h g,
              ))),
        )
      ],
    )
