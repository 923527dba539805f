-- ===== src/Core/Process/Hits.antt =====
-- A `GET` served twice by the core (core/main.cpp).
use olwsx.Base.{
  ℕ, ◌+◌, ◌%◌, ◌≡◌, refl, Bool, true, false, Bytes, bytes_eq, bytes_eq_iff, codes, get, insert,
  get-insert, none, some, Option, ◌≢◌, not, ◌||◌, [], ◌∷◌, if◌then◌else◌, Bool-cases, arith,
  Option-cases, inl, inr,
}
use olwsx.Base.Int.{ℤ, pos}
use olwsx.Core.{
  ok, err_alloc_failed, Request, CacheEntry, CoreState, u64_mod, meta_comp_none, meta_cache_l2,
  meta_sec_ok,
}
use olwsx.Core.Router.{match_prefix}
use olwsx.Core.Security.{waf_hint, rate_hint, decide}
use olwsx.Core.Export.{Heap, export_copy, alloc}
use olwsx.Core.Process.{
  miss_body, to_string, is_get, validate_request_sizes, cached, computed, found, serve, gate,
  process_request, Outcome, failed, answered, filled, reply, give_up,
}
use olwsx.Core.Process.Expected.{Reply, found_reply, hit_reply, expected}
use olwsx.Core.Process.Served.{free_top}

-- A `GET` for a path that no route has and that passes the security gate.
pub record IsPlainGet (req : Request) (core : CoreState) : Type 0 where
  pub sized : validate_request_sizes req ≡ ok
  pub calm : waf_hint req.edge_hints ≡ false
  pub slow : rate_hint req.edge_hints ≡ false
  pub gets : is_get (to_string req.method) ≡ true
  pub somewhere : bytes_eq (to_string req.path) [] ≡ false
  pub unrouted : match_prefix (to_string req.path) core.rules ≡ none

module _ (path : Bytes) (core : CoreState) where
  cached-hit :
      (ce : CacheEntry)
      → get path core.l2 ≡ some ce
      → cached path core ≡ some (meta_cache_l2 + meta_sec_ok, (codes "L2", ce.value))
  unfolding cached
  cached-hit ce hit = rw (cached, hit) refl

  cached-miss : get path core.l2 ≡ none → cached path core ≡ none
  unfolding cached
  cached-miss miss = rw (cached, miss) refl

module _ (grants : ℕ → Bool) where
  -- The refusal after `n` calls of `malloc`, with the blocks that were live before.
  abbrev refused_after : ℕ → Heap → Option (Heap × Outcome)
  refused_after made h = some (record { made = made; live = h.live }, failed err_alloc_failed)

  -- A reply in two new buffers, if `malloc` grants both and the body is not empty.
  abbrev pub replayed : Reply → Heap → Option (Heap × Outcome)
  replayed e h =
      if not (grants h.made) || bytes_eq e.body []
      then refused_after (h.made + 1) h
      else if grants (h.made + 1)
      then some (
        record {
          made = h.made + 1 + 1;
          live = (h.made + 1, e.body) ∷ (h.made, e.headers) ∷ h.live;
        },
        answered (filled e.status e.headers e.body e.flags (some h.made) (some (h.made + 1))),
      )
      else refused_after (h.made + 1 + 1) h

  reply-replayed :
      (status : ℤ) (hdr body : Bytes) (flags : ℕ) (h : Heap)
      → hdr ≢ []
      → reply grants status hdr body flags h
        ≡ replayed (record { status = status; headers = hdr; body = body; flags = flags }) h
  unfolding reply give_up export_copy alloc
  reply-replayed status [] body flags h n = absurd (n refl)
  reply-replayed status (b ∷ hdr) [] flags h n = elim (Bool-cases (grants h.made)) [
    | inr d ↦ rw d refl
    | inl a ↦ rw (a, free_top h.made (h.made + 1) (b ∷ hdr) [] h.live) refl
  ]
  reply-replayed status (b ∷ hdr) (c ∷ body) flags h n = elim (Bool-cases (grants h.made)) [
    | inr d ↦ rw d refl
    | inl a ↦ elim (Bool-cases (grants (h.made + 1))) [
      | inr d ↦ rw (a, d, free_top h.made (h.made + 1 + 1) (b ∷ hdr) [] h.live) refl
      | inl both ↦ rw (a, both) refl
    ]
  ]

module _ (grants : ℕ → Bool) (now : ℕ) (req : Request) (core : CoreState) (h : Heap) where
  -- The state behind the security gate.
  abbrev gated : CoreState
  gated = record core { ok_total = (core.ok_total + 1) % u64_mod }

  -- Such a request comes to the lookups.
  plain-found :
      core.running ≡ true
      → IsPlainGet req core
      → process_request grants now (some req) true core h
        ≡ found grants now
            (to_string req.path)
            (to_string req.method)
            gated
            h
            (cached (to_string req.path) gated)
  unfolding process_request gate decide serve
  plain-found run g = simp (run, g.sized, g.calm, g.slow, g.unrouted, g.gets)

  plain-expected :
      IsPlainGet req core
      → expected req core
        ≡ found_reply (to_string req.path) (to_string req.method) (get (to_string req.path) core.l2)
  plain-expected g = simp (g.calm, g.slow, g.unrouted, g.gets)

  hit-replayed :
      (ce : CacheEntry)
      → core.running ≡ true
      → IsPlainGet req core
      → get (to_string req.path) core.l2 ≡ some ce
      → (process_request grants now (some req) true core h).1
        ≡ replayed grants (hit_reply ce.value) h
  hit-replayed ce run g hit =
      rw (plain-found run g, cached-hit _ gated ce hit)
        (reply-replayed grants (pos 200) _ ce.value _ h (λ z. cc))

  -- What a miss leaves in L2.
  abbrev computed_entry : CacheEntry
  computed_entry = record {
    value = miss_body (to_string req.path) (to_string req.method);
    ts_ns = now;
    flags = meta_comp_none;
  }

  abbrev stored : CoreState
  stored = record gated { l2 = insert (to_string req.path) computed_entry core.l2 }

  hit-stays :
      (ce : CacheEntry)
      → core.running ≡ true
      → IsPlainGet req core
      → get (to_string req.path) core.l2 ≡ some ce
      → (process_request grants now (some req) true core h).0 ≡ gated
  hit-stays ce run g hit = rw (plain-found run g, cached-hit _ gated ce hit) refl

  miss-stored :
      core.running ≡ true
      → IsPlainGet req core
      → get (to_string req.path) core.l2 ≡ none
      → (process_request grants now (some req) true core h).0 ≡ stored
  unfolding computed
  miss-stored run g miss = simp (plain-found run g, cached-miss _ gated miss, g.gets, g.somewhere)

-- Such a request stays one as long as the routes do.
IsPlainGet-rules :
    {req : Request} {core core' : CoreState}
    → core'.rules ≡ core.rules
    → IsPlainGet req core
    → IsPlainGet req core'
IsPlainGet-rules e g = record {
  sized = g.sized;
  calm = g.calm;
  slow = g.slow;
  gets = g.gets;
  somewhere = g.somewhere;
  unrouted = rw e g.unrouted;
}

module _ (grants : ℕ → Bool) (now later : ℕ) where
  -- After a `GET` in a running core, within the limits on sizes, for a path that is not empty and that
  -- no route has, which passed the security gate, whether it was a hit or a miss and even if it got no
  -- memory, the same request is a hit in L2: if its two calls of `malloc` get memory and the body due to the first one is not empty, it is answered with that body
  -- and the headers of a hit, in two new buffers; else it is refused with `ALLOC_FAILED`, and no buffer
  -- stays behind.
  pub process_request-repeated :
      (req : Request) (core : CoreState) (h h' : Heap)
      → core.running ≡ true
      → IsPlainGet req core
      → (process_request grants later
          (some req)
          true
          (process_request grants now (some req) true core h).0
          h').1
        ≡ replayed grants (hit_reply (expected req core).body) h'
  process_request-repeated req core h h' run g =
      elim (Option-cases (get (to_string req.path) core.l2)) [
        | inr (ce, hit) ↦
            rw
              (
                hit-stays grants now req core h ce run g hit,
                plain-expected grants now req core h g,
                hit,
              )
              (hit-replayed grants later req (gated grants now req core h) h' ce run
                (IsPlainGet-rules refl g) hit)
        | inl miss ↦
            rw
              (
                miss-stored grants now req core h run g miss,
                plain-expected grants now req core h g,
                miss,
              )
              (hit-replayed grants later req (stored grants now req core h) h'
                (computed_entry grants now req core h) run (IsPlainGet-rules refl g)
                (ground (
                  arith,
                  get-insert (to_string req.path) (to_string req.path)
                      (computed_entry grants now req core h) core.l2,
                  bytes_eq_iff (to_string req.path) (to_string req.path),
                )))
      ]
