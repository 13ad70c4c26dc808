-- ===== src/Risk/Score.antt =====
-- The composite score of app/scoring/risk_scorer.py: rounding, range, monotony, alerts.
use ot_asset_discovery.Prelude.{
  ℕ, ◌+◌, ◌*◌, ◌≤◌, ◌≡◌, refl, inl, inr, Bool, false, ◌||◌, Option, none, some, List, [], ◌∷◌, ◌++◌,
  arith, ltb, Bool-cases, is_some, Text,
}
use ot_asset_discovery.Prelude.Int.{ℤ, pos, negsuc, pos_part, neg_part, ◌≤ℤ◌, ◌-ℤ◌, abs}
use ot_asset_discovery.Risk.{
  protocol_sub_score, VulnerabilityDb, vulnerability_sub_score, exposure_sub_score, round_div,
  raw_score, final_score, RiskScorer, RiskScoreResult, score_alert, change_alert, notify,
  calculate_score,
}
use ot_asset_discovery.Domain.{AlertType, Alert, Device}
use ot_asset_discovery.Risk.SubScores.{
  protocol_sub_score-append, protocol_sub_score-le, vulnerability_sub_score-le,
  exposure_sub_score-le, exposure_sub_score_mono,
}

-- q is a whole number nearest to n / d.
abbrev pub IsNearest : ℕ → ℕ → ℕ → Type 0
IsNearest n d q = (2 * n ≤ 2 * (d * q) + d) × (2 * (d * q) ≤ 2 * n + d)

round_div-100 : (n : ℕ) → IsNearest n 100 (round_div n 100)
unfolding round_div
round_div-100 n = ground arith

round_div-65 : (n : ℕ) → IsNearest n 65 (round_div n 65)
unfolding round_div
round_div-65 n = ground arith

-- The weighted sum of the sub-scores and the sum of the weights, in hundredths.
abbrev pub weighted : ℕ → Option ℕ → ℕ → ℕ
weighted proto none expo = 40 * proto + 25 * expo
weighted proto (some vuln) expo = 40 * proto + 35 * vuln + 25 * expo

abbrev pub weights : Option ℕ → ℕ
weights none = 65
weights (some vuln) = 100

abbrev AtMost100 : Option ℕ → Type 0
AtMost100 none = Unit
AtMost100 (some v) = v ≤ 100

final_score-IsNearest :
    (p : ℕ) (v : Option ℕ) (e : ℕ)
    → p ≤ 100
    → AtMost100 v
    → e ≤ 100
    → IsNearest (weighted p v e) (weights v) (final_score p v e) × (final_score p v e ≤ 100)
unfolding final_score raw_score
final_score-IsNearest p none e hp hv he = omega (arith, round_div-65 (40 * p + 25 * e))
final_score-IsNearest p (some v) e hp hv he =
    omega (arith, round_div-100 (40 * p + 35 * v + 25 * e))

final_score_mono :
    (p q : ℕ) (v : Option ℕ) (e f : ℕ) → p ≤ q → e ≤ f → final_score p v e ≤ final_score q v f
unfolding final_score raw_score round_div
final_score_mono p q none e f hp he = ground arith
final_score_mono p q (some v) e f hp he = ground arith

vulnerability-AtMost100 :
    (db : Option VulnerabilityDb) (firmware : Option Text)
    → AtMost100 (vulnerability_sub_score db firmware)
vulnerability-AtMost100 db firmware = at_value (vulnerability_sub_score db firmware) refl
  where
    at_value : (v : Option ℕ) → vulnerability_sub_score db firmware ≡ v → AtMost100 v
    at_value none h = tt
    at_value (some v) h = vulnerability_sub_score-le db firmware v h

-- Where the callback returned, the result is the one that was computed.
result-notify :
    (callback : Option (Alert → Bool)) (alert : Option Alert) (r r' : RiskScoreResult)
    → (notify callback alert r).result ≡ some r'
    → r ≡ r'
unfolding notify
result-notify callback none r r' h = cc
result-notify none (some a) r r' h = cc
result-notify (some f) (some a) r r' h = ground arith

-- The score is a whole number from 0 to 100, nearest to the weighted sum of the sub-scores
-- (40 : 35 : 25, or 40 : 25 where the database is unavailable) over the sum of the weights;
-- and the database counts as available exactly if there is a vulnerability sub-score.
pub calculate_score-IsNearest :
    (s : RiskScorer) (id now : ℕ) (device : Device) (peers : ℤ) (previous : Option ℤ)
    (r : RiskScoreResult)
    → (calculate_score s id now device peers previous).result ≡ some r
    → IsNearest
        (weighted r.protocol_sub_score r.vulnerability_sub_score r.exposure_sub_score)
        (weights r.vulnerability_sub_score)
        r.score
      × (r.score ≤ 100)
      × (r.vuln_db_available ≡ is_some r.vulnerability_sub_score)
unfolding calculate_score
calculate_score-IsNearest s id now device peers previous r h =
    let firmware = device.firmware_version in
    let e = result-notify _ _ _ r h in
    rw (← e) (
      let near =
        final_score-IsNearest (protocol_sub_score device.protocols)
          (vulnerability_sub_score s.vulnerability_db firmware) (exposure_sub_score peers)
          (protocol_sub_score-le device.protocols)
          (vulnerability-AtMost100 s.vulnerability_db firmware) (exposure_sub_score-le peers) in
      (near.0, near.1, refl))

-- Whether the score has moved by more than 10 points, up or down.
abbrev pub moved : Option ℤ → ℕ → Bool
moved none score = false
moved (some p) score =
    ltb (pos_part p + 10) (score + neg_part p) || ltb (score + neg_part p + 10) (pos_part p)

change_alert-moved :
    (id now device_id : ℕ) (previous : Option ℤ) (score : ℕ)
    → is_some (change_alert id now device_id previous score) ≡ moved previous score
unfolding change_alert
change_alert-moved id now device_id none score = refl
change_alert-moved id now device_id (some (pos p)) score = ground arith
change_alert-moved id now device_id (some (negsuc p)) score = ground arith

abbrev score_of : RiskScorer → Device → ℤ → ℕ
score_of s device peers =
    final_score (protocol_sub_score device.protocols)
      (vulnerability_sub_score s.vulnerability_db device.firmware_version)
      (exposure_sub_score peers)

score-calculate_score :
    (s : RiskScorer) (id now : ℕ) (device : Device) (peers : ℤ) (previous : Option ℤ)
    (r : RiskScoreResult)
    → (calculate_score s id now device peers previous).result ≡ some r
    → r.score ≡ score_of s device peers
unfolding calculate_score
score-calculate_score s id now device peers previous r h = rw (← result-notify _ _ _ r h)

-- For one scorer and one device, neither more peers nor more protocols lower the score.
pub calculate_score_mono :
    (s : RiskScorer) (i j t u : ℕ) (device : Device) (more : List Text) (m n : ℤ)
    (before after : Option ℤ) (r r' : RiskScoreResult)
    → m ≤ℤ n
    → (calculate_score s i t device m before).result ≡ some r
    → (calculate_score s j u
        (record device { protocols = device.protocols ++ more })
        n
        after).result
      ≡ some r'
    → r.score ≤ r'.score
calculate_score_mono s i j t u device more m n before after r r' h p q =
    rw
      (
        score-calculate_score s i t device m before r p,
        score-calculate_score s j u (record device { protocols = device.protocols ++ more }) n after
            r' q,
      )
      (final_score_mono _ _ _ _ _ (protocol_sub_score-append device.protocols more)
        (exposure_sub_score_mono m n h))

pub alert_list : Option Alert → List Alert
alert_list none = []
alert_list (some a) = a ∷ []

abbrev pub configured : Option (Alert → Bool) → List Alert → List Alert
configured none alerts = []
configured (some f) alerts = alerts

calls-notify :
    (callback : Option (Alert → Bool)) (alert : Option Alert) (r : RiskScoreResult)
    → (notify callback alert r).calls ≡ configured callback (alert_list alert)
unfolding notify alert_list
calls-notify none none r = refl
calls-notify none (some a) r = refl
calls-notify (some f) none r = refl
calls-notify (some f) (some a) r = refl

-- The result carries an alert exactly if the score has moved by more than 10 points from the
-- previous one, and the callback, where there is one, was given that alert and no other.
pub calculate_score-alerts :
    (s : RiskScorer) (id now : ℕ) (device : Device) (peers : ℤ) (previous : Option ℤ)
    (r : RiskScoreResult)
    → (calculate_score s id now device peers previous).result ≡ some r
    → (is_some r.alert ≡ moved previous r.score)
      × ((calculate_score s id now device peers previous).calls
          ≡ configured s.alert_callback (alert_list r.alert))
unfolding calculate_score
calculate_score-alerts s id now device peers previous r h = rw (← result-notify _ _ _ r h) (
  change_alert-moved id now device.id previous (score_of s device peers),
  calls-notify s.alert_callback _ _,
)

-- The type of the alert, where there is one.
abbrev pub kind : Option Alert → AlertType
kind none = AlertType.risk_score_change
kind (some a) = a.alert_type

change_alert-kind :
    (id now device_id : ℕ) (previous : Option ℤ) (score : ℕ)
    → kind (change_alert id now device_id previous score) ≡ AlertType.risk_score_change
unfolding change_alert score_alert
change_alert-kind id now device_id none score = refl
change_alert-kind id now device_id (some previous) score =
    elim (Bool-cases (ltb 10 (abs (pos score -ℤ previous)))) [
      | inl e ↦ rw e refl
      | inr e ↦ rw e refl
    ]

pub calculate_score-kind :
    (s : RiskScorer) (id now : ℕ) (device : Device) (peers : ℤ) (previous : Option ℤ)
    (r : RiskScoreResult)
    → (calculate_score s id now device peers previous).result ≡ some r
    → kind r.alert ≡ AlertType.risk_score_change
unfolding calculate_score
calculate_score-kind s id now device peers previous r h =
    rw (← result-notify _ _ _ r h)
      (change_alert-kind id now device.id previous (score_of s device peers))
