-- ===== src/Policy/Counts.antt =====
-- What the records of security/isolation.ex add up to.
use olwsx.Base.{
  ℕ, ◌+◌, ◌≤◌, ◌≡◌, refl, ap, ◌∙◌, Bool, true, false, ◌&&◌, ◌||◌, Bool-cases, inl, inr, List, [],
  ◌∷◌, leb, arith, if◌then◌else◌,
}
use olwsx.Policy.{
  fail_threshold, timeout_threshold, quarantine_ms, State, new, maybe_quarantine, record_failure,
  record_timeout, allowed, Signal, go_on, shed_compression, shed_gpu, shed_inference,
  backpressure_signal,
}

-- What was recorded, and when.
pub data Event : Type 0 where
  failure : ℕ → Event
  timeout : ℕ → Event

abbrev pub perform : Event → State → State
perform (failure now) s = record_failure now s
perform (timeout now) s = record_timeout now s

-- The state after these records, the last one first.
abbrev pub after : ℕ → List Event → State
after start [] = new start
after start (e ∷ es) = perform e (after start es)

abbrev pub failures_of : List Event → ℕ
failures_of [] = 0
failures_of (failure now ∷ es) = failures_of es + 1
failures_of (timeout now ∷ es) = failures_of es

abbrev pub timeouts_of : List Event → ℕ
timeouts_of [] = 0
timeouts_of (failure now ∷ es) = timeouts_of es
timeouts_of (timeout now ∷ es) = timeouts_of es + 1

abbrev pub reached : ℕ → ℕ → Bool
reached fails times = leb fail_threshold fails || leb timeout_threshold times

-- The end of the quarantine, from the number of records alone.
abbrev pub quarantine_end : List Event → ℕ
quarantine_end [] = 0
quarantine_end (failure now ∷ es) =
    if reached (failures_of es + 1) (timeouts_of es) then now + quarantine_ms else 0
quarantine_end (timeout now ∷ es) =
    if reached (failures_of es) (timeouts_of es + 1) then now + quarantine_ms else 0

-- The state that the records add up to.
abbrev total : ℕ → List Event → State
total start es = record {
  failures = failures_of es;
  timeouts = timeouts_of es;
  window_start_ms = start;
  quarantined_until_ms = quarantine_end es;
}

quiet :
    (es : List Event) → reached (failures_of es) (timeouts_of es) ≡ false → quarantine_end es ≡ 0
quiet [] h = refl
quiet (failure now ∷ es) h = rw h refl
quiet (timeout now ∷ es) h = rw h refl

fewer : (f t f' t' : ℕ) → f ≤ f' → t ≤ t' → reached f' t' ≡ false → reached f t ≡ false
fewer f t f' t' a b h = ground arith

failure_step :
    (start now : ℕ) (es : List Event)
    → record_failure now (total start es) ≡ total start (failure now ∷ es)
unfolding record_failure maybe_quarantine
failure_step start now es =
    let f = failures_of es in
    let t = timeouts_of es in
    elim (Bool-cases (reached (f + 1) t)) [
      | inl h ↦ rw h refl
      | inr h ↦ rw (h, quiet es (fewer f t (f + 1) t (omega arith) (omega arith) h)) refl
    ]

timeout_step :
    (start now : ℕ) (es : List Event)
    → record_timeout now (total start es) ≡ total start (timeout now ∷ es)
unfolding record_timeout maybe_quarantine
timeout_step start now es =
    let f = failures_of es in
    let t = timeouts_of es in
    elim (Bool-cases (reached f (t + 1))) [
      | inl h ↦ rw h refl
      | inr h ↦ rw (h, quiet es (fewer f t f (t + 1) (omega arith) (omega arith) h)) refl
    ]

after-total : (start : ℕ) (es : List Event) → after start es ≡ total start es
after-total start [] = refl
after-total start (failure now ∷ es) =
    ap (record_failure now) (after-total start es) ∙ failure_step start now es
after-total start (timeout now ∷ es) =
    ap (record_timeout now) (after-total start es) ∙ timeout_step start now es

abbrev pub signal_of : ℕ → ℕ → Signal
signal_of fails times =
    if leb timeout_threshold times
    then if leb fail_threshold fails then shed_gpu else shed_compression
    else if leb fail_threshold fails
    then shed_inference
    else go_on

signal_lem :
    (a b : Bool)
    → (if a && b
        then shed_gpu
        else if b
        then shed_compression
        else if a
        then shed_inference
        else go_on)
      ≡ (if b
          then if a then shed_gpu else shed_compression
          else if a
          then shed_inference
          else go_on)
signal_lem true true = refl
signal_lem true false = refl
signal_lem false true = refl
signal_lem false false = refl

-- The defect: however far apart in time the records are, all failures and all timeouts since the
-- start count. Work is allowed where the 30 s after the last record are over, if the five
-- failures or three timeouts that a window of 10 s is meant to have were reached in all; else it is
-- allowed at any time. The signal depends on these two numbers alone.
pub allowed-after :
    (start now : ℕ) (es : List Event)
    → (allowed now (after start es) ≡ leb (quarantine_end es) now)
      × (backpressure_signal (after start es) ≡ signal_of (failures_of es) (timeouts_of es))
unfolding allowed backpressure_signal
allowed-after start now es =
    let e = after-total start es in
    (
      ap (allowed now) e,
      ap backpressure_signal e
          ∙ signal_lem (leb fail_threshold (failures_of es))
              (leb timeout_threshold (timeouts_of es)),
    )
