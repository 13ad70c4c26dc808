-- ===== src/Capture/Sniffer/Runs.antt =====
-- Runs of a PassiveSniffer of app/capture/sniffer.py: what becomes of the fingerprints.
use ot_asset_discovery.Capture.{route_to_parser}
use ot_asset_discovery.Capture.Sniffer.Flush.{flush_loop-Splits}
use ot_asset_discovery.Domain.{DeviceFingerprint}
use ot_asset_discovery.Parsers.{Bytes}
use ot_asset_discovery.Capture.Sniffer.{
  Reply, returns, raises, times_out, PassiveSniffer, on_packet, on_device_discovered, Effects,
  no_effects, validate_interface, start_capture, flush_loop, flush_buffer, stop_capture, addressed,
  fingerprint_in, committed_or_refused, hand_over, hand_over_if, process_packet,
}
use ot_asset_discovery.Prelude.{
  ℕ, ◌+◌, ◌≡◌, ap, inl, inr, Bool, true, false, not, Option, none, some, List, [], ◌∷◌, ◌++◌, arith,
  if◌then◌else◌, Option-cases, Text,
}

pub data Action : Type 0 where
  add_callback set_commit : ℕ → Action
  start_on :
      (interface : Text) (available : Option (List Text)) (captures : Bool) (now : ℕ) → Action
  stop_with : (answer : ℕ → Reply) → Action
  packet : (src_mac dst_mac : Text) (reply : Reply) (raw : Bytes) → Action

abbrev pub both : Effects → Effects → Effects
both d e = record {
  found = d.found ++ e.found;
  committed = d.committed ++ e.committed;
  refused = d.refused ++ e.refused;
  dropped = d.dropped ++ e.dropped;
}

module _ (show_float : Bytes → Text) (message : Text) where
  abbrev pub step : Action → PassiveSniffer → Effects × PassiveSniffer
  step (add_callback c) s = (no_effects, on_packet c s)
  step (set_commit c) s = (no_effects, on_device_discovered c s)
  step (start_on interface available captures now) s =
      (start_capture interface available captures now s).1
  step (stop_with answer) s = (stop_capture answer s).1
  step (packet src_mac dst_mac reply raw) s =
      process_packet show_float message src_mac dst_mac reply raw s

  unfoldable pub run : List Action → PassiveSniffer → Effects × PassiveSniffer
  run [] s = (no_effects, s)
  run (a ∷ actions) s = let (d, s') = step a s in let (e, s'') = run actions s' in (both d e, s'')

-- How many of the fingerprints pass a test.
abbrev pub count : (DeviceFingerprint → Bool) → List DeviceFingerprint → ℕ
count p [] = 0
count p (f ∷ fs) = (if p f then 1 else 0) + count p fs

count-append :
    (p : DeviceFingerprint → Bool) (xs ys : List DeviceFingerprint)
    → count p (xs ++ ys) ≡ count p xs + count p ys
count-append p [] ys = omega arith
count-append p (x ∷ xs) ys = omega (arith, count-append p xs ys)

-- Every fingerprint that was buffered before or is found is committed, refused, dropped or
-- buffered afterwards.
abbrev pub IsConserved :
    (DeviceFingerprint → Bool) → PassiveSniffer → Effects × PassiveSniffer → Type 0
IsConserved p s r =
    count p s.buffer + count p r.0.found
    ≡ count p r.0.committed + (count p r.0.refused + (count p r.0.dropped + count p r.1.buffer))

hand_over-IsConserved :
    (p : DeviceFingerprint → Bool) (reply : Reply) (f : DeviceFingerprint) (s : PassiveSniffer)
    → IsConserved p s (hand_over reply f s)
unfolding hand_over
hand_over-IsConserved p reply f s = elim (Option-cases s.commit_callback) [
  | inl c ↦ rw c (omega (arith, count-append p s.buffer (f ∷ [])))
  | inr c ↦ rw c.1 (elim reply as (λ r. IsConserved p s (committed_or_refused r f, s)) [
    | returns ↦ omega arith
    | raises ↦ omega arith
    | times_out ↦ omega arith
  ])
]

flush-IsConserved :
    (p : DeviceFingerprint → Bool) (answer : ℕ → Reply) (s : PassiveSniffer)
    → IsConserved p s (flush_buffer answer s)
unfolding flush_buffer
flush-IsConserved p answer s = elim (Option-cases s.commit_callback) [
  | inl c ↦ rw c (omega arith)
  | inr c ↦
      let r = flush_loop answer 0 s.buffer in
      let split = flush_loop-Splits answer 0 s.buffer in
      rw c.1 (omega (arith, ap (count p) split.0, count-append p r.0 r.1))
]

either_branch {ℓ} :
    {A : Type ℓ} (p : DeviceFingerprint → Bool) (s : PassiveSniffer) (b : Bool)
    (x y : A × (Effects × PassiveSniffer))
    → IsConserved p s x.1
    → IsConserved p s y.1
    → IsConserved p s (if b then x else y).1
either_branch p s true x y h g = h
either_branch p s false x y h g = g

nothing-IsConserved :
    (p : DeviceFingerprint → Bool) (s : PassiveSniffer) → IsConserved p s (no_effects, s)
nothing-IsConserved p s = omega arith

stop-IsConserved :
    (p : DeviceFingerprint → Bool) (answer : ℕ → Reply) (s : PassiveSniffer)
    → IsConserved p s (stop_capture answer s).1
unfolding stop_capture
stop-IsConserved p answer s =
    let stopping = record s { is_running = false } in
    let r = flush_buffer answer stopping in
    either_branch p s s.is_running (true, r) (false, (no_effects, s))
      (flush-IsConserved p answer stopping) (nothing-IsConserved p s)

start-IsConserved :
    (p : DeviceFingerprint → Bool) (interface : Text) (available : Option (List Text))
    (captures : Bool) (now : ℕ) (s : PassiveSniffer)
    → IsConserved p s (start_capture interface available captures now s).1
unfolding start_capture
start-IsConserved p interface available captures now s =
    either_branch p s s.is_running _ _ (nothing-IsConserved p s) (
      either_branch p s (not (validate_interface interface available)) _ _ (nothing-IsConserved p s)
        (either_branch p s captures _ _ (omega arith) (omega arith)))

module _ (show_float : Bytes → Text) (message : Text) (p : DeviceFingerprint → Bool) where
  step-IsConserved :
      (a : Action) (s : PassiveSniffer) → IsConserved p s (step show_float message a s)
  unfolding process_packet
  step-IsConserved (add_callback c) s = omega arith
  step-IsConserved (set_commit c) s = omega arith
  step-IsConserved (start_on interface available captures now) s =
      start-IsConserved p interface available captures now s
  step-IsConserved (stop_with answer) s = stop-IsConserved p answer s
  step-IsConserved (packet src_mac dst_mac reply raw) s =
      found_one (fingerprint_in (route_to_parser show_float message raw src_mac dst_mac))
    where
      found_one :
          (o : Option DeviceFingerprint) → IsConserved p s (hand_over_if reply raw src_mac o s)
      found_one none = nothing-IsConserved p s
      found_one (some f) = hand_over-IsConserved p reply (addressed raw src_mac f) s

  -- Whatever the operations, and however the calls of the commit callback end, each fingerprint that
  -- was buffered before or is found in a packet is at the end, once, among the committed ones, those
  -- whose commit failed, those that a start or a flush without a callback dropped, or those in the
  -- buffer.
  pub run-IsConserved :
      (actions : List Action) (s : PassiveSniffer)
      → IsConserved p s (run show_float message actions s)
  unfolding run
  run-IsConserved [] s = nothing-IsConserved p s
  run-IsConserved (a ∷ actions) s =
      let (d, s') = step show_float message a s in
      let (e, s'') = run show_float message actions s' in
      omega (
        arith,
        step-IsConserved a s,
        run-IsConserved actions s',
        count-append p d.found e.found,
        count-append p d.committed e.committed,
        count-append p d.refused e.refused,
        count-append p d.dropped e.dropped,
      )
