-- ===== src/Core/Control/Invariant.antt =====
-- What holds of the state of the core (core/main.cpp) after any calls of its ABI.
use olwsx.Base.{
  ℕ, ◌==◌, codes, ◌≤◌, ◌<◌, ◌≡◌, ◌⊎◌, refl, Bool, true, false, not, ◌&&◌, Bytes, bytes_eq,
  bytes_eq_iff, keys, member, member-without, member-keys-insert, keys-insert-Distinct, keys-remove,
  without-Distinct, Distinct, Option, Option-cases, inl, inr, none, some, List, [], ◌∷◌, All,
  length, arith, Bool-cases, ltb,
}
use olwsx.Core.{
  Slice, null, at, slice_len, Request, ok, err_too_large, meta_comp_none, CoreState, g_core,
  max_key_bytes,
}
use olwsx.Core.Router.{match_prefix}
use olwsx.Core.Security.{waf_hint, rate_hint, decide}
use olwsx.Core.Export.{Heap}
use olwsx.Core.Process.{
  is_get, process_request, gate, serve, found, computed, validate_request_sizes, to_string,
}
use olwsx.Core.Process.Routed.{FitsRule}
use olwsx.Core.Control.{
  default_rules, l2_insert, l2_erase, core_init, core_shutdown, stage_config, cache_invalidate_l2,
  cache_insert_l2, Op, init, shutdown, stage, invalidate, insert_l2, process, step, run,
}

-- A key of the L2 cache is neither empty nor too long.
abbrev pub FitsKey : Bytes → Type 0
FitsKey k = (0 < length k) × (length k ≤ max_key_bytes)

pub record IsValid (core : CoreState) : Type 0 where
  pub routes : All FitsRule core.rules
  pub distinct : Distinct (keys core.l2)
  pub sized : (k : Bytes) → member k (keys core.l2) ≡ true → FitsKey k

l2_insert-IsValid :
    (now : ℕ) (k v : Bytes) (flags : ℕ) {core : CoreState}
    → IsValid core
    → FitsKey k
    → IsValid (l2_insert now k v flags core)
unfolding l2_insert
l2_insert-IsValid now k v flags {core} valid fits = record {
  routes = valid.routes;
  distinct = keys-insert-Distinct k _ core.l2 valid.distinct;
  sized = λ q m. ground (
    arith,
    valid.sized q,
    member-keys-insert k q (record { value = v; ts_ns = now; flags = flags }) core.l2,
    bytes_eq_iff k q,
  );
}

l2_erase-IsValid : (k : Bytes) {core : CoreState} → IsValid core → IsValid (l2_erase k core)
unfolding l2_erase
l2_erase-IsValid k {core} valid = record {
  routes = valid.routes;
  distinct = rw (keys-remove k core.l2) (without-Distinct k _ valid.distinct);
  sized = λ q m.
      ground (arith, valid.sized q, keys-remove k core.l2, member-without k q (keys core.l2));
}

nonempty_length : (s : Bytes) → bytes_eq s [] ≡ false → 0 < length s
nonempty_length [] h = absurd (cc)
nonempty_length (b ∷ s) h = omega arith

-- The invariant says nothing of the counters.
counters-IsValid :
    {core core' : CoreState}
    → core'.rules ≡ core.rules
    → core'.l2 ≡ core.l2
    → IsValid core
    → IsValid core'
counters-IsValid r l valid = record {
  routes = rw r valid.routes;
  distinct = rw l valid.distinct;
  sized = λ k m. valid.sized k (rw l at m);
}

named_of : (a b : Bool) → a && not b ≡ true → b ≡ false
named_of a b h = ground arith

to_string-length : (s : Slice) → length (to_string s) ≤ slice_len s
to_string-length (null n) = omega arith
to_string-length (at s) = omega arith

validate_request_sizes-cases :
    (r : Request)
    → ((length (to_string r.path) ≤ max_key_bytes) × (validate_request_sizes r ≡ ok))
      ⊎ (validate_request_sizes r ≡ err_too_large)
unfolding validate_request_sizes
validate_request_sizes-cases r = ground (arith, to_string-length r.path)

module _ (grants : ℕ → Bool) (now : ℕ) where
  computed-IsValid :
      (path method : Bytes) {core : CoreState} (h : Heap)
      → IsValid core
      → length path ≤ max_key_bytes
      → IsValid (computed grants now path method core h).0
  unfolding computed l2_insert
  computed-IsValid path method {core} h valid fits =
      elim (Bool-cases (is_get method && not (bytes_eq path []))) [
        | inl keeps ↦
            rw keeps (
              l2_insert-IsValid now path _ _ valid
                (nonempty_length path (named_of _ _ keeps), fits))
        | inr skips ↦ rw skips valid
      ]

  found-IsValid :
      (path method : Bytes) {core : CoreState} (h : Heap)
      → IsValid core
      → length path ≤ max_key_bytes
      → (o : Option (ℕ × (Bytes × Bytes))) → IsValid (found grants now path method core h o).0
  found-IsValid path method h valid fits none = computed-IsValid path method h valid fits
  found-IsValid path method h valid fits (some (flags, (level, value))) = valid

  serve-IsValid :
      (path method : Bytes) {core : CoreState} (h : Heap)
      → IsValid core
      → length path ≤ max_key_bytes
      → IsValid (serve grants now path method core h).0
  unfolding serve
  serve-IsValid path method {core} h valid fits =
      elim (Option-cases (match_prefix path core.rules)) [
        | inr (rr, routed) ↦ rw routed valid
        | inl none_fits ↦ rw none_fits (found-IsValid path method h valid fits _)
      ]

  gate-IsValid :
      (req : Request) {core : CoreState} (h : Heap)
      → IsValid core
      → length (to_string req.path) ≤ max_key_bytes
      → IsValid (gate grants now req core h).0
  unfolding gate decide
  gate-IsValid req {core} h valid fits = elim (Bool-cases (waf_hint req.edge_hints)) [
    | inl waf ↦ rw waf (counters-IsValid refl refl valid)
    | inr calm ↦ elim (Bool-cases (rate_hint req.edge_hints)) [
      | inl rate ↦ rw (calm, rate) (counters-IsValid refl refl valid)
      | inr fine ↦
          rw (calm, fine)
            (serve-IsValid (to_string req.path) (to_string req.method) h
              (counters-IsValid refl refl valid) fits)
    ]
  ]

  pub process_request-IsValid :
      (req : Option Request) (resp : Bool) {core : CoreState} (h : Heap)
      → IsValid core
      → IsValid (process_request grants now req resp core h).0
  unfolding process_request
  process_request-IsValid none resp {core} h valid = elim (Bool-cases core.running) [
    | inl up ↦ simp up valid
    | inr down ↦ simp down valid
  ]
  process_request-IsValid (some r) false {core} h valid = elim (Bool-cases core.running) [
    | inl up ↦ simp up valid
    | inr down ↦ simp down valid
  ]
  process_request-IsValid (some r) true {core} h valid = elim (Bool-cases core.running) [
    | inl up ↦ elim (validate_request_sizes-cases r) [
      | inl (fits, e) ↦ simp (up, e) (gate-IsValid r h valid fits)
      | inr e ↦ simp (up, e) valid
    ]
    | inr down ↦ simp down valid
  ]

default_rules-FitsRule : All FitsRule default_rules
default_rules-FitsRule = (
  record { fits_headers = omega arith; fits_body = omega arith },
  (record { fits_headers = omega arith; fits_body = omega arith }, tt),
)

init-IsValid :
    (now epoch : ℕ) {core : CoreState} → IsValid core → IsValid (core_init now epoch core).0
unfolding core_init
init-IsValid now epoch {core} valid =
    let warm =
      l2_insert-IsValid now (codes "/hello") (codes "Hello from OLWSX Core (L2 cached)")
        meta_comp_none (counters-IsValid {core' = record core { running = true }} refl refl valid)
        (omega arith, omega arith) in
    record { routes = default_rules-FitsRule; distinct = warm.distinct; sized = warm.sized }

stage-IsValid :
    (blob : Option (Slice × ℕ)) {core : CoreState}
    → IsValid core
    → IsValid (stage_config blob core).0
unfolding stage_config
stage-IsValid none valid = valid
stage-IsValid (some (null n, g)) valid = valid
stage-IsValid (some (at [], g)) valid = valid
stage-IsValid (some (at (b ∷ blob), g)) valid = counters-IsValid refl refl valid

invalidate-IsValid :
    (key : Slice) {core : CoreState} → IsValid core → IsValid (cache_invalidate_l2 key core).0
unfolding cache_invalidate_l2
invalidate-IsValid (null n) valid = valid
invalidate-IsValid (at key) {core} valid = elim (Bool-cases (length key == 0)) [
  | inl nil ↦ rw nil valid
  | inr named ↦ elim (Bool-cases (ltb max_key_bytes (length key))) [
    | inl long ↦ rw (named, long) valid
    | inr fits ↦ rw (named, fits) (l2_erase-IsValid key valid)
  ]
]

insert-IsValid :
    (now : ℕ) (key val : Slice) (flags : ℕ) {core : CoreState}
    → IsValid core
    → IsValid (cache_insert_l2 now key val flags core).0
unfolding cache_insert_l2
insert-IsValid now (null n) val flags valid = valid
insert-IsValid now (at key) (null n) flags valid = valid
insert-IsValid now (at key) (at val) flags {core} valid = elim (Bool-cases (length key == 0)) [
  | inl nil ↦ rw nil valid
  | inr named ↦ elim (Bool-cases (ltb max_key_bytes (length key))) [
    | inl long ↦ rw (named, long) valid
    | inr fits ↦
        rw (named, fits) (l2_insert-IsValid now key val flags valid (ground arith, ground arith))
  ]
]

module _ (grants : ℕ → Bool) where
  step-IsValid : (x : Op) {core : CoreState} → IsValid core → IsValid (step grants x core)
  unfolding step core_shutdown
  step-IsValid (init now epoch) valid = init-IsValid now epoch valid
  step-IsValid shutdown valid = counters-IsValid refl refl valid
  step-IsValid (stage blob) valid = stage-IsValid blob valid
  step-IsValid (invalidate key) valid = invalidate-IsValid key valid
  step-IsValid (insert_l2 now key val flags) valid = insert-IsValid now key val flags valid
  step-IsValid (process now req resp h) valid = process_request-IsValid grants now req resp h valid

  g_core-IsValid : IsValid g_core
  g_core-IsValid = record { routes = tt; distinct = tt; sized = λ k m. absurd (cc) }

  run-IsValid : (xs : List Op) {core : CoreState} → IsValid core → IsValid (run grants xs core)
  unfolding run
  run-IsValid [] valid = valid
  run-IsValid (x ∷ xs) valid = run-IsValid xs (step-IsValid x valid)

  -- After any calls from the start of the program, whatever `malloc` grants: the L2 cache has each key
  -- once, every key in it has between 1 and 65536 bytes, and the headers and the body of every route
  -- are shorter than 2^32.
  pub core_run-IsValid : (xs : List Op) → IsValid (run grants xs g_core)
  core_run-IsValid xs = run-IsValid xs g_core-IsValid
