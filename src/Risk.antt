-- ===== src/Risk.antt =====
-- app/scoring/risk_scorer.py, statement by statement. The weights 0.40, 0.35 and 0.25 are
-- hundredths here, so the raw score is a quotient of whole numbers: every sub-score is a
-- multiple of 5 up to 100, and at each of those values Python's floats round to the same
-- whole number. The time and the fresh id of an alert are arguments.
pub mod SubScores
pub mod Score
mod Tests
use ot_asset_discovery.Prelude.{
  ℕ, suc, ◌+◌, ◌*◌, ◌/◌, ◌%◌, min, max, Text, codes, contains, Option, none, some, List, [], ◌∷◌,
  ◌++◌, Bool, true, false, ◌&&◌, not, if◌then◌else◌, ltb, leb, nat_eq, ◌==◌, text_keys, Eq, is_some,
}
use ot_asset_discovery.Prelude.Int.{ℤ, pos, abs, leb_ℤ, ◌-ℤ◌}
use ot_asset_discovery.Domain.{Device, Alert, Severity, AlertType, Details}

abbrev pub secure_protocols : List Text
secure_protocols =
    codes "dnp3_sa"
    ∷ codes "opcua"
    ∷ codes "tls"
    ∷ codes "ipsec"
    ∷ codes "mqtt_tls"
    ∷ codes "https"
    ∷ []

-- `str.lower` on one character. Besides the ASCII capitals, U+0130 and U+212A alone have a
-- lower case with an ASCII letter in it; any other character stays outside ASCII, where it is
-- left as it is, since `lower` is used only to look a text up among ASCII ones.
abbrev pub lower_char : ℕ → Text
lower_char c =
    if leb b'A' c && leb c b'Z'
    then (c + 32) ∷ []
    else if nat_eq c 0x212a
    then b'k' ∷ []
    else if nat_eq c 0x130
    then b'i' ∷ 0x307 ∷ []
    else c ∷ []

unfoldable pub lower : Text → Text
lower [] = []
lower (c ∷ s) = lower_char c ++ lower s

-- What one protocol adds.
unfoldable pub protocol_points : Text → ℕ
protocol_points protocol = if contains (lower protocol) secure_protocols then 5 else 25

-- the loop of `protocol_sub_score`
pub add_points : ℕ → List Text → ℕ
add_points score [] = score
add_points score (protocol ∷ rest) = add_points (score + protocol_points protocol) rest

pub protocol_sub_score : List Text → ℕ
protocol_sub_score [] = 0
protocol_sub_score (p ∷ ps) = min 100 (add_points 0 (p ∷ ps))

-- `get_highest_severity`, which an implementation of `VulnerabilityDB` supplies: it answers
-- with a text or None, or it raises.
pub data Answer : Type 0 where
  raised : Answer
  answered : Option Text → Answer

abbrev pub VulnerabilityDb : Type 0
VulnerabilityDb = Text → Answer

-- VULNERABILITY_SEVERITY_SCORES.get(severity, 0)
pub severity_score : Text → ℕ
severity_score s =
    if s == codes "critical"
    then 100
    else if s == codes "high"
    then 75
    else if s == codes "medium"
    then 50
    else if s == codes "low"
    then 25
    else 0

-- `severity.lower() if severity else "none"`
pub severity_lower : Option Text → Text
severity_lower none = codes "none"
severity_lower (some []) = codes "none"
severity_lower (some (c ∷ s)) = lower (c ∷ s)

-- `none` is VulnerabilityDBUnavailableError.
pub read_answer : Answer → Option ℕ
read_answer raised = none
read_answer (answered severity) = some (severity_score (severity_lower severity))

pub vulnerability_sub_score : Option VulnerabilityDb → Option Text → Option ℕ
vulnerability_sub_score none firmware = none
vulnerability_sub_score (some db) none = some 0
vulnerability_sub_score (some db) (some firmware) = read_answer (db firmware)

pub exposure_sub_score : ℤ → ℕ
exposure_sub_score peer_count =
    if leb_ℤ peer_count (pos 0)
    then 0
    else if leb_ℤ peer_count (pos 5)
    then 25
    else if leb_ℤ peer_count (pos 15)
    then 50
    else if leb_ℤ peer_count (pos 30)
    then 75
    else 100

-- Python's `round` of n / d: to the nearest, halves to the even neighbour.
unfoldable pub round_div : ℕ → ℕ → ℕ
round_div n d =
    let q = n / d in
    let r = n % d in
    if ltb (2 * r) d
    then q
    else if ltb d (2 * r)
    then q + 1
    else if nat_eq (q % 2) 0
    then q
    else q + 1

-- PROTOCOL_WEIGHT, VULNERABILITY_WEIGHT and EXPOSURE_WEIGHT, in hundredths
abbrev pub protocol_weight : ℕ
protocol_weight = 40

abbrev pub vulnerability_weight : ℕ
vulnerability_weight = 35

abbrev pub exposure_weight : ℕ
exposure_weight = 25

-- `round(raw_score)`: without a vulnerability sub-score, the two weights that are left are
-- divided by their sum.
pub raw_score : ℕ → Option ℕ → ℕ → ℕ
raw_score proto (some vuln) expo =
    round_div (protocol_weight * proto + vulnerability_weight * vuln + exposure_weight * expo) 100
raw_score proto none expo =
    round_div (protocol_weight * proto + exposure_weight * expo) (protocol_weight + exposure_weight)

unfoldable pub final_score : ℕ → Option ℕ → ℕ → ℕ
final_score proto vuln expo = max 0 (min 100 (raw_score proto vuln expo))

pub record RiskScorer : Type 0 where
  pub vulnerability_db : Option VulnerabilityDb
  -- the callback, as whether it returns when it is given the alert
  pub alert_callback : Option (Alert → Bool)

pub record RiskScoreResult : Type 0 where
  pub score : ℕ
  pub protocol_sub_score : ℕ
  pub vulnerability_sub_score : Option ℕ
  pub exposure_sub_score : ℕ
  pub vuln_db_available : Bool
  pub alert : Option Alert

-- What a call did: its result, `none` where the callback raised, and the alerts that the
-- callback was given.
pub record Outcome : Type 0 where
  pub result : Option RiskScoreResult
  pub calls : List Alert

pub score_alert : (id now device_id : ℕ) → ℤ → ℕ → Alert
score_alert id now device_id previous score = record {
  id = id;
  alert_type = AlertType.risk_score_change;
  severity = Severity.medium;
  device_id = some device_id;
  details = Details.score_details previous score (pos score -ℤ previous);
  generated_at = now;
}

-- the alert of a score that has moved by more than 10
pub change_alert : (id now device_id : ℕ) → Option ℤ → ℕ → Option Alert
change_alert id now device_id none score = none
change_alert id now device_id (some previous) score =
    if ltb 10 (abs (pos score -ℤ previous))
    then some (score_alert id now device_id previous score)
    else none

-- `if self._alert_callback: self._alert_callback(alert)`
pub notify : Option (Alert → Bool) → Option Alert → RiskScoreResult → Outcome
notify callback none r = record { result = some r; calls = [] }
notify none (some alert) r = record { result = some r; calls = [] }
notify (some returns) (some alert) r = record {
  result = if returns alert then some r else none;
  calls = alert ∷ [];
}

pub calculate_score : RiskScorer → (id now : ℕ) → Device → ℤ → Option ℤ → Outcome
calculate_score s id now device peer_count previous_score =
    let proto = protocol_sub_score device.protocols in
    let expo = exposure_sub_score peer_count in
    let vuln = vulnerability_sub_score s.vulnerability_db device.firmware_version in
    let score = final_score proto vuln expo in
    let alert = change_alert id now device.id previous_score score in
    notify s.alert_callback alert (record {
      score = score;
      protocol_sub_score = proto;
      vulnerability_sub_score = vuln;
      exposure_sub_score = expo;
      vuln_db_available = is_some vuln;
      alert = alert;
    })
