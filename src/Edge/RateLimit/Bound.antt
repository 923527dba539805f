-- ===== src/Edge/RateLimit/Bound.antt =====
-- How often the rate limiter of edge/rate_limit.go lets an address pass.
use olwsx.Base.{
  ℕ, ◌+◌, ◌-◌, ◌*◌, ◌/◌, ◌≤◌, ◌≡◌, sym, if◌then◌else◌, Bool, true, false, not, ◌&&◌, Bytes,
  bytes_eq, bytes_eq_iff, Bool-cases, inl, inr, Map, get, insert, get-insert, Option, none, some,
  List, [], ◌∷◌, All, arith,
}
use mathlib.Core.Path.{subst}
use olwsx.Edge.RateLimit.{
  Bucket, bucket_capacity, refill_per_second, second, refill, take_token, limited_host, host_of,
  limited,
}

-- How many more calls until `until` a bucket can let pass.
abbrev credit : ℕ → ℕ → Option Bucket → ℕ
credit since until none = bucket_capacity + refill_per_second * ((until - since) / second)
credit since until (some b) = b.tokens + refill_per_second * ((until - b.last) / second)

abbrev one_if : Bool → ℕ
one_if true = 1
one_if false = 0

module _ (since until : ℕ) where
  take_token_lem :
      (b : Bucket)
      → one_if (not (take_token b).1) + credit since until (some (take_token b).0)
        ≡ credit since until (some b)
  take_token_lem b = ground arith

  refill_lem :
      (now : ℕ) (o : Option Bucket)
      → since ≤ now
      → now ≤ until
      → credit since until (some (refill now o)) ≤ credit since until o
  unfolding refill
  refill_lem now none a c = omega (arith, a, c)
  refill_lem now (some b) a c = ground (arith, c)

-- A bucket holds no more than its capacity.
abbrev IsFilled : Option Bucket → Type 0
IsFilled none = Unit
IsFilled (some b) = b.tokens ≤ bucket_capacity

refill-tokens : (now : ℕ) (o : Option Bucket) → IsFilled o → (refill now o).tokens ≤ bucket_capacity
unfolding refill
refill-tokens now none v = omega arith
refill-tokens now (some b) v = ground (arith, v)

take_token-IsFilled :
    (now : ℕ) (o : Option Bucket) → IsFilled o → IsFilled (some (take_token (refill now o)).0)
take_token-IsFilled now o v = ground (arith, refill-tokens now o v)

-- The most calls that can pass between two times.
abbrev most : ℕ → ℕ → ℕ
most since until = bucket_capacity + refill_per_second * ((until - since) / second + 1)

refill-most :
    (since until now : ℕ) (o : Option Bucket)
    → since ≤ now
    → now ≤ until
    → IsFilled o
    → credit since until (some (refill now o)) ≤ most since until
unfolding refill
refill-most since until now none a c v = omega (arith, a, c)
refill-most since until now (some b) a c v = ground (arith, a, c, v)

module _ (split : Bytes → Option Bytes) where
  -- The buckets after these calls.
  unfoldable pub after : List (Bytes × ℕ) → Map Bucket → Map Bucket
  after [] buckets = buckets
  after ((remote, now) ∷ calls) buckets = after calls (limited split remote now buckets).0

module _ (split : Bytes → Option Bytes) (host : Bytes) where
  -- How many of these calls, each an address and a time, let the host pass.
  unfoldable pub passes : List (Bytes × ℕ) → Map Bucket → ℕ
  passes [] buckets = 0
  passes ((remote, now) ∷ calls) buckets =
      let (buckets', limit) = limited split remote now buckets in
      one_if (bytes_eq (host_of split remote) host && not limit) + passes calls buckets'

  -- The calls of the host lie in this span of time.
  abbrev pub Within : ℕ → ℕ → List (Bytes × ℕ) → Type 0
  Within since until calls =
      All (λ (c : Bytes × ℕ). host_of split c.0 ≡ host → (since ≤ c.1) × (c.1 ≤ until)) calls

  passes-credit :
      (since until : ℕ) (calls : List (Bytes × ℕ)) (buckets : Map Bucket)
      → Within since until calls
      → passes calls buckets ≤ credit since until (get host buckets)
  unfolding passes limited limited_host
  passes-credit since until [] buckets w = omega arith
  passes-credit since until ((remote, now) ∷ calls) buckets w =
      let before = get (host_of split remote) buckets in
      let b = take_token (refill now before) in
      let ih = passes-credit since until calls (insert (host_of split remote) b.0 buckets) w.1 in
      let found = get-insert (host_of split remote) host b.0 buckets in
      elim (Bool-cases (bytes_eq (host_of split remote) host)) [
        | inl same ↦
            let e = (bytes_eq_iff (host_of split remote) host).0 same in
            let time = w.0 e in
            let le =
              subst
                (λ z.
                  credit since until (some (refill now before))
                  ≤ credit since until (get z buckets))
                e (refill_lem since until now before time.0 time.1) in
            rw same (
              omega
                (arith, le, take_token_lem since until (refill now before), rw (found, same) at ih))
        | inr other ↦ rw other (omega (arith, rw (found, other) at ih))
      ]

  -- A host that has no bucket yet starts with a full one.
  passes_fresh :
      (since until : ℕ) (calls : List (Bytes × ℕ))
      → Within since until calls
      → passes calls [] ≤ bucket_capacity + refill_per_second * ((until - since) / second)
  passes_fresh since until calls w = passes-credit since until calls [] w

  get-limited :
      (remote : Bytes) (now : ℕ) (buckets : Map Bucket)
      → get host (limited split remote now buckets).0 ≡ (
          if bytes_eq (host_of split remote) host
          then some (take_token (refill now (get (host_of split remote) buckets))).0
          else get host buckets)
  unfolding limited limited_host
  get-limited remote now buckets =
      get-insert (host_of split remote) host
        (take_token (refill now (get (host_of split remote) buckets))).0 buckets

  limited-IsFilled :
      (remote : Bytes) (now : ℕ) (buckets : Map Bucket)
      → IsFilled (get host buckets)
      → IsFilled (get host (limited split remote now buckets).0)
  limited-IsFilled remote now buckets v = elim (Bool-cases (bytes_eq (host_of split remote) host)) [
    | inl same ↦
        let e = (bytes_eq_iff (host_of split remote) host).0 same in
        rw (get-limited remote now buckets, same, e) (take_token-IsFilled now (get host buckets) v)
    | inr other ↦ rw (get-limited remote now buckets, other) v
  ]

  after-IsFilled :
      (calls : List (Bytes × ℕ)) (buckets : Map Bucket)
      → IsFilled (get host buckets)
      → IsFilled (get host (after split calls buckets))
  unfolding after
  after-IsFilled [] buckets v = v
  after-IsFilled ((remote, now) ∷ calls) buckets v =
      after-IsFilled calls (limited split remote now buckets).0
        (limited-IsFilled remote now buckets v)

  passes-filled :
      (since until : ℕ) (calls : List (Bytes × ℕ)) (buckets : Map Bucket)
      → Within since until calls
      → IsFilled (get host buckets)
      → passes calls buckets ≤ most since until
  unfolding passes limited limited_host
  passes-filled since until [] buckets w v = omega arith
  passes-filled since until ((remote, now) ∷ calls) buckets w v =
      elim (Bool-cases (bytes_eq (host_of split remote) host)) [
        | inl same ↦
            let e = (bytes_eq_iff (host_of split remote) host).0 same in
            let time = w.0 e in
            let full =
              subst (λ z. credit since until (some (refill now (get z buckets))) ≤ most since until)
                (sym e) (refill-most since until now (get host buckets) time.0 time.1 v) in
            let b = refill now (get (host_of split remote) buckets) in
            let ih = passes-credit since until calls (limited split remote now buckets).0 w.1 in
            rw same (
              omega (
                arith,
                full,
                take_token_lem since until b,
                rw (get-limited remote now buckets, same) at ih,
              ))
        | inr other ↦
            let ih =
              passes-filled since until calls (limited split remote now buckets).0 w.1
                (limited-IsFilled remote now buckets v) in
            rw other (omega (arith, ih))
      ]

  -- Whatever was called before, the calls of a host that lie between two times let it pass at most 60
  -- times, 30 times more for each whole second between them, and 30 times more for the part of a second
  -- that its bucket may have waited before; whatever other hosts call in between, and in whatever
  -- order the calls take the mutex.
  pub passes-bound :
      (since until : ℕ) (before calls : List (Bytes × ℕ))
      → Within since until calls
      → passes calls (after split before [])
        ≤ bucket_capacity + refill_per_second * ((until - since) / second + 1)
  passes-bound since until before calls w =
      passes-filled since until calls (after split before []) w (after-IsFilled before [] tt)
