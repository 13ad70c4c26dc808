-- ===== src/Risk/Tests.antt =====
-- The risk scorer at concrete devices.
use ot_asset_discovery.Domain.{Device}
use ot_asset_discovery.Risk.{
  lower, protocol_points, add_points, protocol_sub_score, raised, answered, VulnerabilityDb,
  severity_score, severity_lower, read_answer, vulnerability_sub_score, exposure_sub_score,
  round_div, raw_score, final_score, RiskScorer, RiskScoreResult, Outcome, score_alert,
  change_alert, notify, calculate_score,
}
use ot_asset_discovery.Risk.Score.{IsNearest, weighted, calculate_score-IsNearest}
use ot_asset_discovery.Prelude.{◌≤◌, ◌≡◌, refl, true, none, some, [], ◌∷◌, ◌++◌, is_some, codes}
use ot_asset_discovery.Prelude.Int.{pos}

abbrev plant_plc : Device
plant_plc = record {
  id = 7;
  mac_address = codes "00:1b:1b:00:00:01";
  ip_address = codes "10.0.0.7";
  vendor = none;
  model = none;
  firmware_version = some (codes "2.1");
  device_type = none;
  protocols = codes "Modbus_TCP" ∷ codes "OPCUA" ∷ [];
  risk_score = 0;
  fingerprint = none;
  first_seen = 0;
  last_seen = 0;
}

abbrev cve_db : VulnerabilityDb
cve_db firmware = answered (some (codes "HIGH"))

abbrev scorer : RiskScorer
scorer = record { vulnerability_db = some cve_db; alert_callback = some (λ a. true) }

abbrev offline : RiskScorer
offline = record { vulnerability_db = some (λ f. raised); alert_callback = none }

abbrev outcome : Outcome
outcome = calculate_score scorer 1 50 plant_plc (pos 6) (some (pos 20))

-- 40 * 30 + 35 * 75 + 25 * 50 = 5075 hundredths
abbrev scored : RiskScoreResult
scored = record {
  score = 51;
  protocol_sub_score = 30;
  vulnerability_sub_score = some 75;
  exposure_sub_score = 50;
  vuln_db_available = true;
  alert = some (score_alert 1 50 7 (pos 20) 51);
}

outcome_scored : outcome.result ≡ some scored
unfolding calculate_score protocol_sub_score add_points protocol_points lower
    vulnerability_sub_score read_answer severity_lower severity_score exposure_sub_score final_score
    raw_score round_div change_alert notify
outcome_scored = refl

-- 40 * 30 + 25 * 50 = 2450, over 65
offline_score : final_score 30 none 50 ≡ 38
unfolding final_score raw_score round_div
offline_score = refl

-- 17.5 rounds to the even neighbour
half_even : (round_div 1750 100 ≡ 18) × (round_div 1650 100 ≡ 16)
unfolding round_div
half_even = (refl, refl)

calculate_score-IsNearest_example :
    IsNearest (weighted 30 (some 75) 50) 100 51
    × (51 ≤ 100)
    × (true ≡ is_some scored.vulnerability_sub_score)
calculate_score-IsNearest_example =
    calculate_score-IsNearest scorer 1 50 plant_plc (pos 6) (some (pos 20)) scored outcome_scored

more_peers :
    (calculate_score scorer 2 60
      (record plant_plc { protocols = plant_plc.protocols ++ [] })
      (pos 16)
      (some (pos 51))).result
    ≡ some (record scored { score = 57; exposure_sub_score = 75; alert = none })
unfolding calculate_score protocol_sub_score add_points protocol_points lower
    vulnerability_sub_score read_answer severity_lower severity_score exposure_sub_score final_score
    raw_score round_div change_alert notify
more_peers = refl
