-- ===== src/Core/Process/Expected.antt =====
-- What a request to the core (core/main.cpp) is answered with, described without buffers and
-- allocations.
use olwsx.Base.{ℕ, ◌+◌, ◌%◌, Bytes, codes, get, Option, none, some, ◌++◌, ◌==◌, if◌then◌else◌}
use olwsx.Base.Int.{ℤ, pos}
use olwsx.Core.{
  Request, RouteRule, CacheEntry, CoreState, meta_cache_miss, meta_cache_l2, meta_sec_ok,
  meta_sec_waf, meta_sec_ratelim,
}
use olwsx.Core.Router.{match_prefix}
use olwsx.Core.Security.{waf_hint, rate_hint}
use olwsx.Core.Process.{
  crlf, text_plain, to_string, gzip_headers, status_of, miss_body, cached_headers, is_get,
}

pub record Reply : Type 0 where
  pub status : ℤ
  pub headers : Bytes
  pub body : Bytes
  pub flags : ℕ

-- A rule with the gzip flag gets the header that says so.
abbrev pub route_reply : RouteRule → Reply
route_reply rr =
    let hdrs = rr.resp_headers ++ (codes "Cache: MISS" ++ crlf) in
    record {
      status = status_of rr;
      headers = if rr.meta_flags % 2 == 1 then gzip_headers hdrs else hdrs;
      body = rr.static_body;
      flags = rr.meta_flags;
    }

abbrev pub hit_reply : Bytes → Reply
hit_reply value = record {
  status = pos 200;
  headers = cached_headers (codes "L2");
  body = value;
  flags = meta_cache_l2 + meta_sec_ok;
}

abbrev pub miss_reply : Bytes → Bytes → Reply
miss_reply path method = record {
  status = pos 200;
  headers = cached_headers (codes "MISS");
  body = miss_body path method;
  flags = meta_cache_miss + meta_sec_ok;
}

abbrev pub found_reply : Bytes → Bytes → Option CacheEntry → Reply
found_reply path method (some ce) = hit_reply ce.value
found_reply path method none = miss_reply path method

abbrev pub dispatch_reply : Bytes → Bytes → CoreState → Option RouteRule → Reply
dispatch_reply path method core (some rr) = route_reply rr
dispatch_reply path method core none =
    found_reply path method (if is_get method then get path core.l2 else none)

-- A rule that matches comes before the cache, and the cache is for `GET` only.
abbrev pub serve_reply : Bytes → Bytes → CoreState → Reply
serve_reply path method core = dispatch_reply path method core (match_prefix path core.rules)

abbrev pub waf_reply : Reply
waf_reply = record {
  status = pos 403;
  headers = text_plain;
  body = codes "Forbidden (WAF)";
  flags = meta_sec_waf + meta_cache_miss;
}

abbrev pub rate_reply : Reply
rate_reply = record {
  status = pos 429;
  headers = text_plain ++ (codes "Retry-After: 1" ++ crlf);
  body = codes "Too Many Requests (Rate Limit)";
  flags = meta_sec_ratelim + meta_cache_miss;
}

-- The hint of the firewall comes before that of the rate limiter.
abbrev pub expected : Request → CoreState → Reply
expected req core =
    if waf_hint req.edge_hints
    then waf_reply
    else if rate_hint req.edge_hints
    then rate_reply
    else serve_reply (to_string req.path) (to_string req.method) core
