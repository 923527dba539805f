-- ===== src/Core/Process/Served.antt =====
-- Every buffer that a request to the core (core/main.cpp) allocates is handed to the caller or freed.
use olwsx.Base.{
  ℕ, ◌+◌, ◌%◌, ◌≡◌, ◌≢◌, ◌≤◌, ◌<◌, ◌⊎◌, refl, inl, inr, Bool, true, false, Bytes, Option, none,
  some, List, [], ◌∷◌, ◌++◌, length, take, take_all, arith, Bool-cases, if◌then◌else◌,
}
use native.Mathlib.Nat.{mod-eq_of_lt}
use olwsx.Base.Int.{ℤ}
use olwsx.Core.{err_alloc_failed, Response, u32_mod}
use olwsx.Core.Export.{Heap, free, load, alloc, export_copy}
use olwsx.Core.Process.{
  Outcome, failed, answered, gzip_headers, gzip_flags, give_up, filled, reply, read_body, reexport,
  refilter,
}
use olwsx.Core.Process.Expected.{Reply}

-- The block at a pointer, if that is not null.
abbrev pub block : Option ℕ → Bytes → List (ℕ × Bytes)
block none s = []
block (some p) s = (p, s) ∷ []

module _ (grants : ℕ → Bool) where
  -- A call of `malloc` got no memory, of those numbered from `first` on and before `past`.
  pub record Denied (first past : ℕ) : Type 0 where
    pub call : ℕ
    pub after : first ≤ call
    pub before : call < past
    pub got_none : grants call ≡ false

  pub later : {first past further : ℕ} → past ≤ further → Denied first past → Denied first further
  later le d = record {
    call = d.call;
    after = d.after;
    before = omega (arith, le, d.before);
    got_none = d.got_none;
  }

  -- The response `r` says `e`, and its two buffers are what is live `after` the call beside what was
  -- live `before` it.
  pub record Answers (e : Reply) (before after : Heap) (r : Response) : Type 0 where
    pub status : r.status ≡ e.status
    pub flags : r.meta_flags ≡ e.flags
    pub headers_len : r.headers_len ≡ length e.headers % u32_mod
    pub body_len : r.body_len ≡ length e.body % u32_mod
    pub owned : after.live ≡ block r.body e.body ++ (block r.headers_flat e.headers ++ before.live)
    pub headers_null : r.headers_flat ≡ none → Denied before.made after.made
    pub body_null : r.body ≡ none → (e.body ≡ []) ⊎ Denied before.made after.made

  -- A run that is no undefined behaviour, and leaves no buffer behind that the response does not name.
  pub data Served (e : Reply) (before : Heap) : Option (Heap × Outcome) → Type 0 where
    refused :
        (h : Heap)
        → h.live ≡ before.live
        → (e.body ≡ []) ⊎ Denied before.made h.made
        → Served e before (some (h, failed err_alloc_failed))
    given :
        (h : Heap) (r : Response) → Answers e before h r → Served e before (some (h, answered r))

  pub just : (first n past : ℕ) → first ≤ n → n < past → grants n ≡ false → Denied first past
  just first n past a b d = record { call = n; after = a; before = b; got_none = d }

  abbrev pub granted : Bytes → Heap → Heap
  granted src h = record { made = h.made + 1; live = (h.made, src) ∷ h.live }

  abbrev pub denied : Heap → Heap
  denied h = record { made = h.made + 1; live = h.live }

  -- An export of something that is not empty.
  pub export-cases :
      (src : Bytes) (h : Heap)
      → src ≢ []
      → (export_copy grants src h ≡ (granted src h, some h.made))
        ⊎ ((export_copy grants src h ≡ (denied h, none)) × (grants h.made ≡ false))
  unfolding export_copy alloc
  export-cases [] h n = absurd (n refl)
  export-cases (b ∷ src) h n = elim (Bool-cases (grants h.made)) [
    | inl gets ↦ inl (ground arith)
    | inr lacks ↦ inr (ground arith, lacks)
  ]

  export_empty : (h : Heap) → export_copy grants [] h ≡ (h, none)
  unfolding export_copy
  export_empty h = refl

-- The heap before the first of two exports.
abbrev pub start : ℕ → List (ℕ × Bytes) → Heap
start p live = record { made = p; live = live }

module _ (p made : ℕ) (s t : Bytes) (live : List (ℕ × Bytes)) where
  abbrev pub top : Heap
  top = record { made = made; live = (p, s) ∷ live }

  abbrev pub below : Heap
  below = record { made = made; live = (p + 1, t) ∷ (p, s) ∷ live }

  pub free_top : free (some p) top ≡ some (record { made = made; live = live })
  unfolding free
  free_top = ground arith

  free_below : free (some p) below ≡ some (record { made = made; live = (p + 1, t) ∷ live })
  unfolding free
  free_below = ground arith

  load-top : load p top ≡ some s
  unfolding load
  load-top = ground arith

  load_top_of : load (p + 1) below ≡ some t
  unfolding load
  load_top_of = ground arith

  load-below : load p below ≡ some s
  unfolding load
  load-below = ground arith

module _ (grants : ℕ → Bool) where
  pub filled-Answers :
      (e : Reply) (before : Heap) (made : ℕ) (p q : Option ℕ)
      → (p ≡ none → Denied grants before.made made)
      → (q ≡ none → (e.body ≡ []) ⊎ Denied grants before.made made)
      → Answers grants e before
          (record { made = made; live = block q e.body ++ (block p e.headers ++ before.live) })
          (filled e.status e.headers e.body e.flags p q)
  filled-Answers e before made p q hp hq = record {
    status = refl;
    flags = refl;
    headers_len = refl;
    body_len = refl;
    owned = refl;
    headers_null = hp;
    body_null = hq;
  }

  pub both :
      (e : Reply) (before : Heap) (made p q : ℕ)
      → Answers grants e before
          (record { made = made; live = (q, e.body) ∷ (p, e.headers) ∷ before.live })
          (filled e.status e.headers e.body e.flags (some p) (some q))
  both e before made p q =
      filled-Answers e before made (some p) (some q) (λ h. absurd (cc)) (λ h. absurd (cc))

  pub reply-Served :
      (status : ℤ) (hdr body : Bytes) (flags : ℕ) (h : Heap)
      → hdr ≢ []
      → Served grants
          (record { status = status; headers = hdr; body = body; flags = flags })
          h
          (reply grants status hdr body flags h)
  unfolding reply give_up
  reply-Served status hdr [] flags h n = elim (export-cases grants hdr h n) [
    | inr (e, d) ↦ rw e (refused _ refl (inl refl))
    | inl e ↦
        let back = free_top h.made (h.made + 1) hdr [] h.live in
        rw (e, export_empty grants (granted grants hdr h), back) (refused _ refl (inl refl))
  ]
  reply-Served status hdr (c ∷ body) flags h n = elim (export-cases grants hdr h n) [
    | inr (e, d) ↦ rw e (
        refused _ refl (inr (just grants h.made h.made (h.made + 1) (omega arith) (omega arith) d)))
    | inl e ↦ elim (export-cases grants (c ∷ body) (granted grants hdr h) (λ z. cc)) [
      | inr (f, d) ↦
          let back = free_top h.made (h.made + 1 + 1) hdr [] h.live in
          rw (e, f, back)
            (refused _ refl (
              inr (just grants h.made (h.made + 1) (h.made + 1 + 1) (omega arith) (omega arith) d)))
      | inl f ↦
          let said : Reply = record {
            status = status;
            headers = hdr;
            body = c ∷ body;
            flags = flags;
          } in
          rw (e, f) (given _ _ (both said h (h.made + 1 + 1) h.made (h.made + 1)))
    ]
  ]

  gzip_flags_odd : (flags : ℕ) → flags % 2 ≡ 1 → gzip_flags flags ≡ flags
  unfolding gzip_flags
  gzip_flags_odd flags h = ground arith

  extended_nonempty : (t : Bool) (s more : Bytes) → s ≢ [] → (if t then s else s ++ more) ≢ []
  extended_nonempty true s more n = n
  extended_nonempty false [] more n = absurd (n refl)
  extended_nonempty false (b ∷ s) more n = λ h. cc

  gzip_headers_nonempty : (hdr : Bytes) → hdr ≢ [] → gzip_headers hdr ≢ []
  unfolding gzip_headers
  gzip_headers_nonempty hdr n = extended_nonempty _ hdr _ n

  whole : (s : Bytes) → length s < u32_mod → take (length s % u32_mod) s ≡ s
  whole s h = rw (mod-eq_of_lt h) (take_all s)

  -- The filter on a response without a body.
  pub refilter_bodiless-Served :
      (status : ℤ) (hdr : Bytes) (flags p : ℕ) (live : List (ℕ × Bytes))
      → hdr ≢ []
      → length hdr < u32_mod
      → flags % 2 ≡ 1
      → Served grants
          (record { status = status; headers = gzip_headers hdr; body = []; flags = flags })
          (start p live)
          (refilter grants p (filled status hdr [] flags (some p) none) (top p (p + 1) hdr [] live))
  unfolding refilter read_body reexport
  refilter_bodiless-Served status hdr flags p live n small odd =
      let e : Reply = record {
        status = status;
        headers = gzip_headers hdr;
        body = [];
        flags = flags;
      } in
      let freed = start (p + 1) live in
      elim (export-cases grants (gzip_headers hdr) freed (gzip_headers_nonempty hdr n)) [
        | inl g ↦
            rw
              (
                load-top p (p + 1) hdr [] live,
                free_top p (p + 1) hdr [] live,
                whole hdr small,
                g,
                gzip_flags_odd flags odd,
              )
              (given _ _ (
                filled-Answers e (start p live) (p + 1 + 1) (some (p + 1)) none (λ z. absurd (cc))
                  (λ z. inl refl)))
        | inr (g, d) ↦
            let lacks = just grants p (p + 1) (p + 1 + 1) (omega arith) (omega arith) d in
            rw
              (
                load-top p (p + 1) hdr [] live,
                free_top p (p + 1) hdr [] live,
                whole hdr small,
                g,
                gzip_flags_odd flags odd,
              )
              (given _ _ (
                filled-Answers e (start p live) (p + 1 + 1) none none (λ z. lacks) (λ z. inl refl)))
      ]

  -- Exporting the body again, with the headers exported or not.
  reexport-Served :
      (status : ℤ) (headers : Bytes) (c : ℕ) (body : Bytes) (flags first q made : ℕ) (p : Option ℕ)
      (live : List (ℕ × Bytes))
      → first ≤ made
      → (p ≡ none → Denied grants first made)
      → free (some q) (start made (block p headers ++ (q, c ∷ body) ∷ live))
        ≡ some (start made (block p headers ++ live))
      → Served grants
          (record { status = status; headers = headers; body = c ∷ body; flags = flags })
          (start first live)
          (reexport grants
            (c ∷ body)
            (filled status headers (c ∷ body) flags p (some q))
            (start made (block p headers ++ (q, c ∷ body) ∷ live)))
  unfolding reexport
  reexport-Served status headers c body flags first q made p live le hp back =
      let e : Reply = record {
        status = status;
        headers = headers;
        body = c ∷ body;
        flags = flags;
      } in
      let grown : p ≡ none → Denied grants first (made + 1) =
        λ z. later grants (omega arith) (hp z) in
      elim (export-cases grants (c ∷ body) (start made (block p headers ++ live)) (λ z. cc)) [
        | inl g ↦
            rw (back, g)
              (given _ _ (
                filled-Answers e (start first live) (made + 1) p (some made) grown
                  (λ z. absurd (cc))))
        | inr (g, d) ↦
            let lacks = just grants first made (made + 1) le (omega arith) d in
            rw (back, g)
              (given _ _
                (filled-Answers e (start first live) (made + 1) p none grown (λ z. inr lacks)))
      ]

  -- The filter on a response with a body.
  pub refilter-Served :
      (status : ℤ) (hdr : Bytes) (c : ℕ) (body : Bytes) (flags p : ℕ) (live : List (ℕ × Bytes))
      → hdr ≢ []
      → length hdr < u32_mod
      → length (c ∷ body) < u32_mod
      → flags % 2 ≡ 1
      → Served grants
          (record { status = status; headers = gzip_headers hdr; body = c ∷ body; flags = flags })
          (start p live)
          (refilter grants p
            (filled status hdr (c ∷ body) flags (some p) (some (p + 1)))
            (below p (p + 1 + 1) hdr (c ∷ body) live))
  unfolding refilter read_body
  refilter-Served status hdr c body flags p live n small small_body odd =
      let made = p + 1 + 1 + 1 in
      let read_top = load_top_of p (p + 1 + 1) hdr (c ∷ body) live in
      let read_below = load-below p (p + 1 + 1) hdr (c ∷ body) live in
      let freed = free_below p (p + 1 + 1) hdr (c ∷ body) live in
      elim (export-cases grants (gzip_headers hdr) (start (p + 1 + 1) ((p + 1, c ∷ body) ∷ live))
        (gzip_headers_nonempty hdr n)) [
          | inl g ↦
              rw
                (
                  read_top,
                  whole (c ∷ body) small_body,
                  read_below,
                  freed,
                  whole hdr small,
                  g,
                  gzip_flags_odd flags odd,
                )
                (reexport-Served status (gzip_headers hdr) c body flags p (p + 1) made
                  (some (p + 1 + 1)) live (omega arith) (λ z. absurd (cc))
                  (free_below (p + 1) made (c ∷ body) (gzip_headers hdr) live))
          | inr (g, d) ↦
              let lacks = just grants p (p + 1 + 1) made (omega arith) (omega arith) d in
              rw
                (
                  read_top,
                  whole (c ∷ body) small_body,
                  read_below,
                  freed,
                  whole hdr small,
                  g,
                  gzip_flags_odd flags odd,
                )
                (reexport-Served status (gzip_headers hdr) c body flags p (p + 1) made none live
                  (omega arith) (λ z. lacks) (free_top (p + 1) made (c ∷ body) [] live))
        ]
