-- ===== src/Risk/SubScores.antt =====
-- The three sub-scores of app/scoring/risk_scorer.py: what they count and where they lie.
use ot_asset_discovery.Prelude.{
  ℕ, ◌+◌, ◌*◌, ◌≤◌, min, Text, contains, Option, none, some, List, [], ◌∷◌, ◌++◌, ◌≡◌, Bool, arith,
  if◌then◌else◌, text_keys,
}
use ot_asset_discovery.Prelude.Int.{ℤ, ◌≤ℤ◌}
use ot_asset_discovery.Risk.{
  secure_protocols, lower, protocol_points, add_points, protocol_sub_score, severity_score,
  read_answer, severity_lower, vulnerability_sub_score, VulnerabilityDb, Answer, raised, answered,
  exposure_sub_score,
}

abbrev pub is_secure : Text → Bool
is_secure protocol = contains (lower protocol) secure_protocols

-- How many of the protocols are secure.
pub secure_count : List Text → ℕ
secure_count [] = 0
secure_count (p ∷ ps) = (if is_secure p then 1 else 0) + secure_count ps

pub other_count : List Text → ℕ
other_count [] = 0
other_count (p ∷ ps) = (if is_secure p then 0 else 1) + other_count ps

add_points_lem :
    (score : ℕ) (ps : List Text)
    → add_points score ps ≡ score + 5 * secure_count ps + 25 * other_count ps
unfolding add_points secure_count other_count protocol_points
add_points_lem score [] = omega arith
add_points_lem score (p ∷ ps) = ground (arith, add_points_lem (score + protocol_points p) ps)

-- The protocol sub-score is 5 points for each secure protocol and 25 for each other one, cut
-- off at 100, in whatever order the protocols are listed.
pub protocol_sub_score-eq :
    (ps : List Text) → protocol_sub_score ps ≡ min 100 (5 * secure_count ps + 25 * other_count ps)
unfolding protocol_sub_score
protocol_sub_score-eq [] = unfold secure_count other_count in omega arith
protocol_sub_score-eq (p ∷ ps) = rw (add_points_lem 0 (p ∷ ps)) (omega arith)

secure_count-append :
    (ps qs : List Text) → secure_count (ps ++ qs) ≡ secure_count ps + secure_count qs
unfolding secure_count
secure_count-append [] qs = omega arith
secure_count-append (p ∷ ps) qs = omega (arith, secure_count-append ps qs)

other_count-append : (ps qs : List Text) → other_count (ps ++ qs) ≡ other_count ps + other_count qs
unfolding other_count
other_count-append [] qs = omega arith
other_count-append (p ∷ ps) qs = omega (arith, other_count-append ps qs)

-- One more protocol never lowers the sub-score.
pub protocol_sub_score-append :
    (ps qs : List Text) → protocol_sub_score ps ≤ protocol_sub_score (ps ++ qs)
protocol_sub_score-append ps qs = omega (
  arith,
  protocol_sub_score-eq ps,
  protocol_sub_score-eq (ps ++ qs),
  secure_count-append ps qs,
  other_count-append ps qs,
)

pub protocol_sub_score-le : (ps : List Text) → protocol_sub_score ps ≤ 100
protocol_sub_score-le ps = omega (arith, protocol_sub_score-eq ps)

severity_score-le : (s : Text) → severity_score s ≤ 100
unfolding severity_score
severity_score-le s = ground arith

read_answer-le : (a : Answer) (v : ℕ) → read_answer a ≡ some v → v ≤ 100
unfolding read_answer
read_answer-le raised v h = cc
read_answer-le (answered s) v h = ground (arith, severity_score-le (severity_lower s))

pub vulnerability_sub_score-le :
    (db : Option VulnerabilityDb) (firmware : Option Text) (v : ℕ)
    → vulnerability_sub_score db firmware ≡ some v
    → v ≤ 100
unfolding vulnerability_sub_score
vulnerability_sub_score-le none firmware v h = cc
vulnerability_sub_score-le (some db) none v h = ground arith
vulnerability_sub_score-le (some db) (some f) v h = read_answer-le (db f) v h

pub exposure_sub_score-le : (n : ℤ) → exposure_sub_score n ≤ 100
unfolding exposure_sub_score
exposure_sub_score-le n = ground arith

-- More peers never lower the exposure sub-score.
pub exposure_sub_score_mono : (m n : ℤ) → m ≤ℤ n → exposure_sub_score m ≤ exposure_sub_score n
unfolding exposure_sub_score
exposure_sub_score_mono m n h = ground arith
