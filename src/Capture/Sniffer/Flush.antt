-- ===== src/Capture/Sniffer/Flush.antt =====
-- The flush of app/capture/sniffer.py commits the longest prefix of the buffer whose calls return.
use ot_asset_discovery.Domain.{DeviceFingerprint}
use ot_asset_discovery.Capture.Sniffer.{
  Reply, returns, raises, times_out, PassiveSniffer, after_call, flush_loop, flush_buffer,
}
use ot_asset_discovery.Prelude.{
  ℕ, zero, suc, ◌+◌, ◌<◌, ◌≡◌, refl, sym, ap, ◌∙◌, ◌≢◌, ◌⊎◌, inl, inr, List, [], ◌∷◌, ◌++◌,
  append-nil, arith, if◌then◌else◌, Option-cases, is_some, length,
}

-- A split of a list after the first calls that return, counted from one call on.
abbrev pub Splits :
    (ℕ → Reply)
    → ℕ
    → List DeviceFingerprint
    → List DeviceFingerprint × List DeviceFingerprint
    → Type 0
Splits answer call fs r =
    (r.0 ++ r.1 ≡ fs)
    × ((i : ℕ) → i < length r.0 → answer (call + i) ≡ returns)
    × ((r.1 ≡ []) ⊎ (answer (call + length r.0) ≢ returns))

module _ (answer : ℕ → Reply) where
  at_first : (call : ℕ) → answer (call + 0) ≡ answer call
  at_first call = ap answer (omega arith)

  later : (call i : ℕ) → answer (call + suc i) ≡ answer (call + 1 + i)
  later call i = ap answer (omega arith)

  after_call-Splits :
      (call : ℕ) (f : DeviceFingerprint) (fs : List DeviceFingerprint)
      (rest : List DeviceFingerprint × List DeviceFingerprint) (r : Reply)
      → answer call ≡ r
      → Splits answer (call + 1) fs rest
      → Splits answer call (f ∷ fs) (after_call r f fs rest)
  after_call-Splits call f fs (committed, left) returns e h = (
    ap (λ xs. f ∷ xs) h.0,
    earlier,
    elim h.2 [ inl a ↦ inl a | inr a ↦ inr (λ b. a (sym (later call (length committed)) ∙ b)) ],
  )
    where
      earlier : (i : ℕ) → i < suc (length committed) → answer (call + i) ≡ returns
      earlier zero g = at_first call ∙ e
      earlier (suc i) g = later call i ∙ h.1 i (omega (arith, g))
  after_call-Splits call f fs rest raises e h = (
    refl,
    λ i g. absurd (ground (arith, g)),
    inr (λ b. different (sym e ∙ sym (at_first call) ∙ b)),
  )
    where
      different : raises ≢ returns
      different b = cc
  after_call-Splits call f fs rest times_out e h = (
    refl,
    λ i g. absurd (ground (arith, g)),
    inr (λ b. different (sym e ∙ sym (at_first call) ∙ b)),
  )
    where
      different : times_out ≢ returns
      different b = cc

  pub flush_loop-Splits :
      (call : ℕ) (fs : List DeviceFingerprint) → Splits answer call fs (flush_loop answer call fs)
  unfolding flush_loop
  flush_loop-Splits call [] = (refl, λ i h. absurd (ground (arith, h)), inl refl)
  flush_loop-Splits call (f ∷ fs) =
      after_call-Splits call f fs (flush_loop answer (call + 1) fs) (answer call) refl
        (flush_loop-Splits (call + 1) fs)

-- With a commit callback, a flush commits the buffer from its front up to the first call that
-- raises or is cut off by the timeout, keeps the rest in order and drops nothing; without one, it
-- commits nothing and drops the whole buffer.
pub flush_buffer_lem :
    (answer : ℕ → Reply) (s : PassiveSniffer)
    → let (e, s') = flush_buffer answer s in
      (e.committed ++ (e.dropped ++ s'.buffer) ≡ s.buffer)
      × (if is_some s.commit_callback
          then (e.dropped ≡ [])
            × ((i : ℕ) → i < length e.committed → answer i ≡ returns)
            × ((s'.buffer ≡ []) ⊎ (answer (length e.committed) ≢ returns))
          else (e.dropped ≡ s.buffer))
unfolding flush_buffer
flush_buffer_lem answer s = elim (Option-cases s.commit_callback) [
  | inl c ↦ rw c (append-nil s.buffer, refl)
  | inr c ↦
      let h = flush_loop-Splits answer 0 s.buffer in
      let same : (i : ℕ) → answer (0 + i) ≡ answer i = λ i. ap answer (omega arith) in
      rw c.1 (
        h.0,
        (
          refl,
          λ i g. sym (same i) ∙ h.1 i g,
          elim h.2 [
            | inl a ↦ inl a
            | inr a ↦ inr (λ b. a (same (length (flush_loop answer 0 s.buffer).0) ∙ b))
          ],
        ),
      )
]
