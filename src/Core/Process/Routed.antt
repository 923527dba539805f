-- ===== src/Core/Process/Routed.antt =====
-- The branch of `process_request` in core/main.cpp for a route that matched.
use olwsx.Base.{
  ℕ, ◌+◌, ◌%◌, ◌≡◌, ◌≢◌, ◌<◌, refl, inl, inr, Bool, true, Bytes, codes, none, some, List, [], ◌∷◌,
  ◌++◌, length, arith, Bool-cases, ◌==◌, if◌then◌else◌,
}
use olwsx.Core.{RouteRule, u32_mod}
use olwsx.Core.Export.{Heap}
use olwsx.Core.Process.{
  crlf, compose_headers, gzip_headers, status_of, filled, give_up, finish, routed_body, routed,
}
use olwsx.Core.Process.Expected.{Reply, route_reply}
use olwsx.Core.Process.Served.{
  just, start, Served, refused, given, export-cases, top, below, free_top, filled-Answers, both,
  refilter_bodiless-Served, refilter-Served,
}

-- What the two lengths of a response can say of a rule.
pub record FitsRule (rr : RouteRule) : Type 0 where
  pub fits_headers : length (rr.resp_headers ++ (codes "Cache: MISS" ++ crlf)) < u32_mod
  pub fits_body : length rr.static_body < u32_mod

compose_headers_lem : (s core : Bytes) → compose_headers s core ≡ s ++ core
compose_headers_lem [] core = refl
compose_headers_lem (b ∷ s) core = refl

append_nonempty : (s : Bytes) (b : ℕ) (more : Bytes) → s ++ b ∷ more ≢ []
append_nonempty [] b more = λ h. cc
append_nonempty (c ∷ s) b more = λ h. cc

module _ (grants : ℕ → Bool) (rr : RouteRule) where
  abbrev reply_with : Bytes → Bytes → Reply
  reply_with hdr body = record {
    status = status_of rr;
    headers = if rr.meta_flags % 2 == 1 then gzip_headers hdr else hdr;
    body = body;
    flags = rr.meta_flags;
  }

  odd : rr.meta_flags % 2 == 1 ≡ true → rr.meta_flags % 2 ≡ 1
  odd h = ground arith

  bodiless-Served :
      (hdr : Bytes) (p : ℕ) (live : List (ℕ × Bytes))
      → hdr ≢ []
      → length hdr < u32_mod
      → Served grants (reply_with hdr []) (start p live) (
          finish grants rr.meta_flags p
            (filled (status_of rr) hdr [] rr.meta_flags (some p) none)
            (top p (p + 1) hdr [] live))
  bodiless-Served hdr p live n small = elim (Bool-cases (rr.meta_flags % 2 == 1)) [
    | inl gz ↦
        rw gz
          (refilter_bodiless-Served grants (status_of rr) hdr rr.meta_flags p live n small (odd gz))
    | inr plain ↦
        let e : Reply = record {
          status = status_of rr;
          headers = hdr;
          body = [];
          flags = rr.meta_flags;
        } in
        rw plain (
          given _ _ (
            filled-Answers grants e (start p live) (p + 1) (some p) none (λ z. absurd (cc))
              (λ z. inl refl)))
  ]

  bodied-Served :
      (hdr : Bytes) (c : ℕ) (body : Bytes) (p : ℕ) (live : List (ℕ × Bytes))
      → hdr ≢ []
      → length hdr < u32_mod
      → length (c ∷ body) < u32_mod
      → Served grants (reply_with hdr (c ∷ body)) (start p live) (
          finish grants rr.meta_flags p
            (filled (status_of rr) hdr (c ∷ body) rr.meta_flags (some p) (some (p + 1)))
            (below p (p + 1 + 1) hdr (c ∷ body) live))
  bodied-Served hdr c body p live n small small_body = elim (Bool-cases (rr.meta_flags % 2 == 1)) [
    | inl gz ↦ rw gz (
        refilter-Served grants (status_of rr) hdr c body rr.meta_flags p live n small small_body
          (odd gz))
    | inr plain ↦
        let e : Reply = record {
          status = status_of rr;
          headers = hdr;
          body = c ∷ body;
          flags = rr.meta_flags;
        } in
        rw plain (given _ _ (both grants e (start p live) (p + 1 + 1) p (p + 1)))
  ]

  body-Served :
      (hdr body : Bytes) (p : ℕ) (live : List (ℕ × Bytes))
      → hdr ≢ []
      → length hdr < u32_mod
      → length body < u32_mod
      → Served grants
          (reply_with hdr body)
          (start p live)
          (routed_body grants rr hdr p body (top p (p + 1) hdr [] live))
  unfolding give_up
  body-Served hdr [] p live n small small_body = bodiless-Served hdr p live n small
  body-Served hdr (c ∷ body) p live n small small_body =
      elim (export-cases grants (c ∷ body) (top p (p + 1) hdr [] live) (λ z. cc)) [
        | inl g ↦ rw g (bodied-Served hdr c body p live n small small_body)
        | inr (g, d) ↦
            let lacks = just grants p (p + 1) (p + 1 + 1) (omega arith) (omega arith) d in
            rw (g, free_top p (p + 1 + 1) hdr [] live) (refused _ refl (inr lacks))
      ]

  pub routed-Served :
      (h : Heap) → FitsRule rr → Served grants (route_reply rr) h (routed grants rr h)
  unfolding routed
  routed-Served h fits =
      let hdr = rr.resp_headers ++ (codes "Cache: MISS" ++ crlf) in
      let n = append_nonempty rr.resp_headers b'C' (codes "ache: MISS" ++ crlf) in
      let composed = compose_headers_lem rr.resp_headers (codes "Cache: MISS" ++ crlf) in
      elim (export-cases grants hdr h n) [
        | inl g ↦
            rw (composed, g)
              (body-Served hdr rr.static_body h.made h.live n fits.fits_headers fits.fits_body)
        | inr (g, d) ↦
            let lacks = just grants h.made h.made (h.made + 1) (omega arith) (omega arith) d in
            rw (composed, g) (refused _ refl (inr lacks))
      ]
