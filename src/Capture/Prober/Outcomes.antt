-- ===== src/Capture/Prober/Outcomes.antt =====
-- What a probe of app/capture/prober.py ends with, for any behaviour of the device.
use ot_asset_discovery.Prelude.{
  ℕ, ◌≡◌, refl, inl, inr, Bool, true, false, not, ◌&&◌, Option, none, some, List, [], ◌∷◌, arith,
  if◌then◌else◌, Bool-cases, is_some, ◌==◌, nat_keys, Text, codes, text_keys,
}
use ot_asset_discovery.Capture.Prober.{
  ProbeTarget, Attempt, ProbeStatus, succeeded, probe_timeout, probe_error, Callbacks, Probed,
  Verdict, identified_as, error_reply, failure, nothing_found, verdict, exhausted_status,
  last_probe, retry_probe, probe_from, probe_device,
}
use ot_asset_discovery.Domain.{DeviceFingerprint}

abbrev pub identified_by : Verdict → Option DeviceFingerprint
identified_by (identified_as f) = some f
identified_by (error_reply e) = none
identified_by (failure e) = none
identified_by nothing_found = none

-- An error, a timeout or an exception.
abbrev pub is_failure : Verdict → Bool
is_failure (identified_as f) = false
is_failure (error_reply e) = true
is_failure (failure e) = true
is_failure nothing_found = false

abbrev pub is_success : ProbeStatus → Bool
is_success succeeded = true
is_success probe_timeout = false
is_success probe_error = false

abbrev pub listed_fingerprint : Option DeviceFingerprint → List DeviceFingerprint
listed_fingerprint none = []
listed_fingerprint (some f) = f ∷ []

-- With the last attempt's verdict: the result is its fingerprint, a success unless it failed; the
-- fingerprint is delivered, and a failure recorded, once, where the callback is there.
pub record IsReported (c : Callbacks) (target : ProbeTarget) (v : Verdict) (p : Probed)
    : Type 0 where
  pub probed : p.result.target ≡ target
  pub fingerprint : p.result.fingerprint ≡ identified_by v
  pub status : is_success p.result.status ≡ not (is_failure v)
  pub error_code : is_some p.result.error_code ≡ is_failure v
  pub delivered : p.delivered ≡ (if c.on_result then listed_fingerprint (identified_by v) else [])
  pub history : p.history ≡ (if is_failure v && c.on_scan_history then p.result ∷ [] else [])

exhausted : (e : Text) → is_success (exhausted_status e) ≡ false
exhausted e = elim (Bool-cases (e == codes "timeout")) [ inl a ↦ rw a refl | inr a ↦ rw a refl ]

last_probe-IsReported :
    (c : Callbacks) (target : ProbeTarget) (n : ℕ) (v : Verdict)
    → IsReported c target v (last_probe c target n v)
last_probe-IsReported c target n (identified_as f) = record {
  probed = refl;
  fingerprint = refl;
  status = refl;
  error_code = refl;
  delivered = refl;
  history = refl;
}
last_probe-IsReported c target n (error_reply e) = record {
  probed = refl;
  fingerprint = refl;
  status = refl;
  error_code = refl;
  delivered = ground arith;
  history = refl;
}
last_probe-IsReported c target n (failure e) = record {
  probed = refl;
  fingerprint = refl;
  status = exhausted e;
  error_code = refl;
  delivered = ground arith;
  history = refl;
}
last_probe-IsReported c target n nothing_found = record {
  probed = refl;
  fingerprint = refl;
  status = refl;
  error_code = refl;
  delivered = ground arith;
  history = refl;
}

-- The last of two verdicts, and how many attempts they take.
abbrev pub decisive : (first second : Verdict) → Verdict
decisive first second = if is_failure first then second else first

attempts_lem :
    (c : Callbacks) (target : ProbeTarget) (n : ℕ) (v : Verdict)
    → (last_probe c target n v).attempts ≡ n
attempts_lem c target n (identified_as f) = refl
attempts_lem c target n (error_reply e) = refl
attempts_lem c target n (failure e) = refl
attempts_lem c target n nothing_found = refl

two_verdicts :
    (c : Callbacks) (target : ProbeTarget) (v w : Verdict)
    → let p = retry_probe c target 1 v (last_probe c target 2 w) in
      IsReported c target (decisive v w) p × (p.attempts ≡ (if is_failure v then 2 else 1))
two_verdicts c target (identified_as f) w =
    (last_probe-IsReported c target 1 (identified_as f), refl)
two_verdicts c target (error_reply e) w =
    (last_probe-IsReported c target 2 w, attempts_lem c target 2 w)
two_verdicts c target (failure e) w =
    (last_probe-IsReported c target 2 w, attempts_lem c target 2 w)
two_verdicts c target nothing_found w = (last_probe-IsReported c target 1 nothing_found, refl)

-- A probe makes a second attempt exactly if the first one ends with an error, a timeout or an
-- exception, and no third one. Its last attempt decides: a fingerprint is returned as a success, an
-- answer without identity or error is a success without a fingerprint, and anything else is a
-- failure with an error code. The fingerprint is delivered once if the prober has a callback for
-- results, the failure is recorded once if it has one for the history, and neither otherwise.
pub probe_device_lem :
    (c : Callbacks) (target : ProbeTarget) (attempt : ℕ → Attempt)
    → let p = probe_device c target attempt in
      let v = verdict (attempt 0) in
      IsReported c target (decisive v (verdict (attempt 1))) p
      × (p.attempts ≡ (if is_failure v then 2 else 1))
unfolding probe_device probe_from
probe_device_lem c target attempt =
    two_verdicts c target (verdict (attempt 0)) (verdict (attempt 1))
