-- ===== src/Policy/Tests.antt =====
-- Runs and witnesses for security/isolation.ex.
use olwsx.Base.{◌≡◌, refl, true, false, List, [], ◌∷◌, leb}
use olwsx.Policy.{allowed, backpressure_signal}
use olwsx.Policy.Counts.{
  Event, failure, after, failures_of, timeouts_of, quarantine_end, signal_of, allowed-after,
}

-- Five failures, an hour apart.
abbrev hourly : List Event
hourly = failure 14400000 ∷ failure 10800000 ∷ failure 7200000 ∷ failure 3600000 ∷ failure 0 ∷ []

allowed-after_example :
    (allowed 14401000 (after 0 hourly) ≡ leb (quarantine_end hourly) 14401000)
    × (backpressure_signal (after 0 hourly) ≡ signal_of (failures_of hourly) (timeouts_of hourly))
allowed-after_example = allowed-after 0 14401000 hourly

hourly_quarantined :
    (leb (quarantine_end hourly) 14401000 ≡ false) × (leb (quarantine_end hourly) 14430000 ≡ true)
hourly_quarantined = (refl, refl)
