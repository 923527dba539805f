-- ===== src/Core/Process/Correct.antt =====
-- The whole of `process_request` in core/main.cpp: its answers and its buffers.
use olwsx.Base.{
  ℕ, ◌+◌, ◌%◌, ◌≡◌, refl, inl, inr, Bool, true, not, ◌&&◌, Bytes, bytes_eq, starts_with, codes, get,
  Option, none, some, List, [], ◌∷◌, All, Bool-cases, some_inj,
}
use mathlib.Core.Path.{subst}
use olwsx.Base.Int.{pos}
use olwsx.Core.{ok, Request, RouteRule, CoreState, CacheEntry, u64_mod, meta_cache_l2, meta_sec_ok}
use olwsx.Core.Router.{match_prefix}
use olwsx.Core.Security.{waf_hint, rate_hint, decide}
use olwsx.Core.Export.{Heap}
use olwsx.Core.Process.{
  to_string, text_plain, is_get, miss_body, validate_request_sizes, cached, computed, found,
  dispatch, serve, gate, process_request,
}
use olwsx.Core.Process.Expected.{found_reply, dispatch_reply, expected}
use olwsx.Core.Process.Served.{Served, reply-Served}
use olwsx.Core.Process.Routed.{FitsRule, routed-Served}

match_prefix-All :
    (P : RouteRule → Type 0) (path : Bytes) (rules : List RouteRule) (rr : RouteRule)
    → All P rules
    → match_prefix path rules ≡ some rr
    → P rr
unfolding match_prefix
match_prefix-All P path [] rr a h = absurd (cc)
match_prefix-All P path (r ∷ rules) rr a h =
    elim (Bool-cases (not (bytes_eq r.match_prefix []) && starts_with path r.match_prefix)) [
      | inl here ↦ subst P (some_inj (rw here at h)) a.0
      | inr past ↦ match_prefix-All P path rules rr a.1 (rw past at h)
    ]

module _ (grants : ℕ → Bool) (now : ℕ) where
  found-Served :
      (path method : Bytes) (core : CoreState) (h : Heap) (o : Option CacheEntry)
      → Served grants
          (found_reply path method o)
          h
          (found grants now path method core h (elim o [
            | none ↦ none
            | some ce ↦ some (meta_cache_l2 + meta_sec_ok, (codes "L2", ce.value))
          ])).1
  unfolding computed
  found-Served path method core h none =
      reply-Served grants (pos 200) _ (miss_body path method) _ h (λ z. cc)
  found-Served path method core h (some ce) = reply-Served grants (pos 200) _ ce.value _ h (λ z. cc)

  dispatch-Served :
      (path method : Bytes) (core : CoreState) (h : Heap) (o : Option RouteRule)
      → ((rr : RouteRule) → o ≡ some rr → FitsRule rr)
      → Served grants
          (dispatch_reply path method core o)
          h
          (dispatch grants now path method core h o).1
  unfolding cached
  dispatch-Served path method core h (some rr) fits = routed-Served grants rr h (fits rr refl)
  dispatch-Served path method core h none fits = elim (Bool-cases (is_get method)) [
    | inl gets ↦ rw gets (found-Served path method core h (get path core.l2))
    | inr other ↦ rw other (found-Served path method core h none)
  ]

  gate-Served :
      (req : Request) (core : CoreState) (h : Heap)
      → All FitsRule core.rules
      → Served grants (expected req core) h (gate grants now req core h).1
  unfolding gate decide serve
  gate-Served req core h fits = elim (Bool-cases (waf_hint req.edge_hints)) [
    | inl waf ↦ rw waf (reply-Served grants (pos 403) text_plain _ _ h (λ z. cc))
    | inr calm ↦ elim (Bool-cases (rate_hint req.edge_hints)) [
      | inl rate ↦ rw (calm, rate) (reply-Served grants (pos 429) _ _ _ h (λ z. cc))
      | inr fine ↦
          rw (calm, fine)
            (dispatch-Served (to_string req.path) (to_string req.method)
              (record core { ok_total = (core.ok_total + 1) % u64_mod }) h
              (match_prefix (to_string req.path) core.rules)
              (λ rr m. match_prefix-All FitsRule _ core.rules rr fits m))
    ]
  ]

  -- A request that passes the checks is answered as it is described without buffers, or it is refused
  -- because a `malloc` of its own got no memory or because its body is empty, and then nothing that it
  -- allocated is left. What an answer leaves allocated is what its two pointers point to, and these
  -- buffers hold the headers and the body as described. No buffer is freed twice, or read after it was
  -- freed. The lengths are those of the contents modulo 2^32, the headers are a null pointer only if a
  -- `malloc` of the request got no memory, and the body only for this reason or if it is empty. The
  -- headers and the body of every route are shorter than 2^32.
  pub process_request-Served :
      (req : Request) (core : CoreState) (h : Heap)
      → core.running ≡ true
      → validate_request_sizes req ≡ ok
      → All FitsRule core.rules
      → Served grants (expected req core) h (process_request grants now (some req) true core h).1
  unfolding process_request
  process_request-Served req core h run sizes fits = rw (run, sizes) (gate-Served req core h fits)
