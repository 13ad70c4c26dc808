-- ===== src/Capture/Prober/Batch/Progress.antt =====
-- The batches of app/capture/prober.py keep their limit, lose no task and come to an end.
use ot_asset_discovery.Prelude.{
  ℕ, ◌+◌, ◌*◌, ◌≤◌, ◌≡◌, refl, ap, ◌∙◌, inl, inr, true, Option, none, some, List, [], ◌∷◌, ◌++◌,
  arith, ltb, leb, nat_eq, if◌then◌else◌, nat_eq→eq, Bool-cases, length, length-append, nat_keys,
  text_keys, contains, ◌>>=◌,
}
use ot_asset_discovery.Prelude.Dict.{Dict}
use ot_asset_discovery.Capture.Prober.Batch.{
  max_concurrent, TaskOutcome, Batch, Move, acquire, release, elsewhere, remove, admit_task, move,
  run_moves,
}

-- How often a task stands somewhere.
abbrev pub times : ℕ → List ℕ → ℕ
times i [] = 0
times i (j ∷ js) = (if nat_eq i j then 1 else 0) + times i js

abbrev pub keys : Dict ℕ TaskOutcome → List ℕ
keys [] = []
keys ((i, o) ∷ d) = i ∷ keys d

abbrev pub places : ℕ → Batch → ℕ
places i b = times i b.waiting + (times i b.active + times i (keys b.finished))

-- The moves that are still to come.
abbrev pub moves_left : Batch → ℕ
moves_left b = 2 * length b.waiting + length b.active

-- The permits that are taken.
abbrev pub held : Batch → ℕ
held b = length b.active + b.held_elsewhere

-- The moves of the batch itself.
abbrev pub own_moves : List Move → ℕ
own_moves [] = 0
own_moves (acquire ∷ moves) = 1 + own_moves moves
own_moves (release i o ∷ moves) = 1 + own_moves moves
own_moves (elsewhere n ∷ moves) = own_moves moves

pub record IsNext (m : Move) (b next : Batch) : Type 0 where
  pub limit : held b ≤ max_concurrent → held next ≤ max_concurrent
  pub kept : (i : ℕ) → places i next ≡ places i b
  pub left : moves_left next + own_moves (m ∷ []) ≡ moves_left b

times-append : (i : ℕ) (xs ys : List ℕ) → times i (xs ++ ys) ≡ times i xs + times i ys
times-append i [] ys = omega arith
times-append i (x ∷ xs) ys = omega (arith, times-append i xs ys)

keys-append : (d e : Dict ℕ TaskOutcome) → keys (d ++ e) ≡ keys d ++ keys e
keys-append [] e = refl
keys-append ((i, o) ∷ d) e = ap (λ ks. i ∷ ks) (keys-append d e)

times-remove :
    (i j : ℕ) (js : List ℕ)
    → contains j js ≡ true
    → times i (remove j js) + (if nat_eq i j then 1 else 0) ≡ times i js
times-remove i j [] h = absurd (ground (arith, h))
times-remove i j (k ∷ js) h = elim (Bool-cases (nat_eq j k)) [
  | inl e ↦ let same : j ≡ k = nat_eq→eq j k e in rw e (rw same (omega arith))
  | inr e ↦ rw e (omega (arith, times-remove i j js (ground (arith, e, h))))
]

length-remove : (j : ℕ) (js : List ℕ) → contains j js ≡ true → length (remove j js) + 1 ≡ length js
length-remove j [] h = absurd (ground (arith, h))
length-remove j (k ∷ js) h = elim (Bool-cases (nat_eq j k)) [
  | inl e ↦ rw e (omega arith)
  | inr e ↦ rw e (omega (arith, length-remove j js (ground (arith, e, h))))
]

abbrev NextIfSome : Move → Batch → Option Batch → Type 0
NextIfSome m b none = Unit
NextIfSome m b (some next) = IsNext m b next

admit_next :
    (b : Batch) (waiting : List ℕ)
    → waiting ≡ b.waiting
    → NextIfSome acquire b (admit_task b waiting)
admit_next b [] e = tt
admit_next b (i ∷ waiting) e =
    elim (Bool-cases (ltb (length b.active + b.held_elsewhere) max_concurrent)) [
      | inr a ↦ rw a tt
      | inl a ↦ rw a (record {
        limit = λ h. ground (arith, a, length-append b.active (i ∷ []));
        kept = λ j. omega (arith, times-append j b.active (i ∷ []), ap (times j) e);
        left = omega (arith, length-append b.active (i ∷ []), ap length e);
      })
    ]

move_next : (m : Move) (b : Batch) → NextIfSome m b (move m b)
unfolding move
move_next acquire b = admit_next b b.waiting refl
move_next (release i o) b = elim (Bool-cases (contains i b.active)) [
  | inr a ↦ rw a tt
  | inl a ↦ rw a (record {
    limit = λ h. omega (arith, length-remove i b.active a, h);
    kept = λ j. omega (
      arith,
      times-remove j i b.active a,
      ap (times j) (keys-append b.finished ((i, o) ∷ [])),
      times-append j (keys b.finished) (i ∷ []),
    );
    left = omega (arith, length-remove i b.active a);
  })
]
move_next (elsewhere n) b = elim (Bool-cases (leb (length b.active + n) max_concurrent)) [
  | inr a ↦ rw a tt
  | inl a ↦ rw a (record { limit = λ h. ground (arith, a); kept = λ j. refl; left = omega arith })
]

own_moves-cons :
    (m : Move) (moves : List Move) → own_moves (m ∷ moves) ≡ own_moves (m ∷ []) + own_moves moves
own_moves-cons acquire moves = omega arith
own_moves-cons (release i o) moves = omega arith
own_moves-cons (elsewhere n) moves = omega arith

-- After some moves.
pub record IsAfter (n : ℕ) (b next : Batch) : Type 0 where
  pub limit : held b ≤ max_concurrent → held next ≤ max_concurrent
  pub kept : (i : ℕ) → places i next ≡ places i b
  pub left : moves_left next + n ≡ moves_left b

abbrev pub AfterIfSome : ℕ → Batch → Option Batch → Type 0
AfterIfSome n b none = Unit
AfterIfSome n b (some next) = IsAfter n b next

pub run_moves_after :
    (moves : List Move) (b : Batch) → AfterIfSome (own_moves moves) b (run_moves moves b)
unfolding run_moves
run_moves_after [] b = record { limit = λ h. h; kept = λ i. refl; left = omega arith }
run_moves_after (m ∷ moves) b =
    one_more (λ next. run_moves_after moves next) (move m b) (move_next m b)
  where
    onward :
        (next : Batch) (o : Option Batch)
        → IsNext m b next
        → AfterIfSome (own_moves moves) next o
        → AfterIfSome (own_moves (m ∷ moves)) b o
    onward next none h g = tt
    onward next (some last) h g = record {
      limit = λ k. g.limit (h.limit k);
      kept = λ i. g.kept i ∙ h.kept i;
      left = omega (arith, g.left, h.left, own_moves-cons m moves);
    }

    one_more :
        ((next : Batch) → AfterIfSome (own_moves moves) next (run_moves moves next))
        → (o : Option Batch) → NextIfSome m b o
        → AfterIfSome (own_moves (m ∷ moves)) b (o >>= (λ next. run_moves moves next))
    one_more ih none h = tt
    one_more ih (some next) h = onward next (run_moves moves next) h (ih next)
