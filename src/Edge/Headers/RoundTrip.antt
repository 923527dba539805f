-- ===== src/Edge/Headers/RoundTrip.antt =====
-- What edge/http/parser.go makes of headers and of its own text of them.
use olwsx.Base.{
  ℕ, ◌+◌, ◌++◌, ◌≡◌, ◌≢◌, refl, sym, ap, ◌∙◌, Bool-cases, inl, inr, false, ◌&&◌, Bytes, codes, List,
  [], ◌∷◌, length, length-append, All, All-append, arith, append-nil, ◌==◌,
}
use mathlib.Core.List.{append_assoc}
use olwsx.Edge.Headers.{
  crlf, header_line, flatten_values, flatten_from, flatten_headers, onto_first, off_first,
  next_is_lf, split_lines, nonempty, parse_flat,
}

abbrev pub line : Bytes → Bytes → Bytes
line k v = k ++ (codes ": " ++ v)

-- The lines of headers, in order.
abbrev pub value_lines : Bytes → List Bytes → List Bytes
value_lines k [] = []
value_lines k (v ∷ vals) = line k v ∷ value_lines k vals

abbrev pub lines : List (Bytes × List Bytes) → List Bytes
lines [] = []
lines ((k, vals) ∷ h) = value_lines k vals ++ lines h

-- The same as one text.
abbrev pub text : List Bytes → Bytes
text [] = []
text (l ∷ ls) = l ++ (crlf ++ text ls)

abbrev pub NoCr : Bytes → Type 0
NoCr s = All (λ b. b ≢ 13) s

-- No name and no value has a carriage return in it.
abbrev pub IsClean : List (Bytes × List Bytes) → Type 0
IsClean h = All (λ (e : Bytes × List Bytes). NoCr e.0 × All NoCr e.1) h

text-append : (xs ys : List Bytes) → text (xs ++ ys) ≡ text xs ++ text ys
text-append [] ys = refl
text-append (l ∷ xs) ys = simp (text-append xs ys, append_assoc)

pair_end : (b : Bytes) (size : ℕ) → ◌≡◌ {A = Bytes × ℕ} (b, size) (b ++ [], size + 0)
pair_end b size = let same : size + 0 ≡ size = omega arith in rw (append-nil b, same) refl

pair_more :
    (b t u : Bytes) (size : ℕ)
    → ◌≡◌ {A = Bytes × ℕ}
        ((b ++ t) ++ u, size + length t + length u)
        (b ++ (t ++ u), size + length (t ++ u))
pair_more b t u size =
    let sizes : size + length t + length u ≡ size + length (t ++ u) =
      omega (arith, length-append t u) in
    rw (append_assoc b t u, sizes) refl

flatten_values_lem :
    (k : Bytes) (vals : List Bytes) (b : Bytes) (size : ℕ)
    → flatten_values k vals (b, size)
      ≡ (b ++ text (value_lines k vals), size + length (text (value_lines k vals)))
flatten_values_lem k [] b size = pair_end b size
flatten_values_lem k (v ∷ vals) b size =
    let hl = header_line k v in
    let t = text (value_lines k vals) in
    let e : hl ++ t ≡ line k v ++ (crlf ++ t) = simp append_assoc in
    flatten_values_lem k vals (b ++ hl) (size + length hl)
    ∙ pair_more b hl t size
    ∙ ap (λ (z : Bytes). (b ++ z, size + length z)) e

onto-off : (b : ℕ) (parts : List Bytes) → parts ≢ [] → off_first (onto_first b parts) ≡ parts
onto-off b [] n = absurd (n refl)
onto-off b (part ∷ parts) n = refl

onto_nonempty : (b : ℕ) (parts : List Bytes) → onto_first b parts ≢ []
onto_nonempty b [] = λ h. cc
onto_nonempty b (part ∷ parts) = λ h. cc

split_nonempty : (s : Bytes) → split_lines s ≢ []
unfolding split_lines
split_nonempty [] = λ h. cc
split_nonempty (b ∷ s) = elim (Bool-cases (b == 13 && next_is_lf s)) [
  | inl ends ↦ rw ends (λ h. cc)
  | inr goes ↦ rw goes (onto_nonempty b (split_lines s))
]

split_line : (l s : Bytes) → NoCr l → split_lines (l ++ 13 ∷ 10 ∷ s) ≡ l ∷ split_lines s
unfolding split_lines
split_line [] s n = ap (◌∷◌ []) (onto-off 10 (split_lines s) (split_nonempty s))
split_line (b ∷ l) s n =
    let other : (b == 13) ≡ false = ground (arith, n.0) in simp (other, split_line l s n.1)

-- Lines that are not empty and have no carriage return in them.
abbrev IsLine : Bytes → Type 0
IsLine l = (l ≢ []) × NoCr l

nonempty_lem : (ls : List Bytes) → All IsLine ls → nonempty (split_lines (text ls)) ≡ ls
unfolding split_lines
nonempty_lem [] a = refl
nonempty_lem ([] ∷ ls) a = absurd (a.0.0 refl)
nonempty_lem ((b ∷ l) ∷ ls) a =
    rw (split_line (b ∷ l) (text ls) a.0.1) (ap (◌∷◌ (b ∷ l)) (nonempty_lem ls a.1))

parse_flat-text : (ls : List Bytes) → All IsLine ls → parse_flat (text ls) ≡ ls
unfolding parse_flat
parse_flat-text [] a = refl
parse_flat-text ([] ∷ ls) a = absurd (a.0.0 refl)
parse_flat-text ((b ∷ l) ∷ ls) a = nonempty_lem ((b ∷ l) ∷ ls) a

flatten_from_lem :
    (h : List (Bytes × List Bytes)) (b : Bytes) (size : ℕ)
    → flatten_from h (b, size) ≡ (b ++ text (lines h), size + length (text (lines h)))
flatten_from_lem [] b size = pair_end b size
flatten_from_lem ((k, vals) ∷ h) b size =
    let t = text (value_lines k vals) in
    ap (flatten_from h) (flatten_values_lem k vals b size)
    ∙ flatten_from_lem h (b ++ t) (size + length t)
    ∙ pair_more b t (text (lines h)) size
    ∙ ap (λ (z : Bytes). (b ++ z, size + length z))
        (sym (text-append (value_lines k vals) (lines h)))

middle_nonempty : (s : Bytes) (b : ℕ) (more : Bytes) → s ++ b ∷ more ≢ []
middle_nonempty [] b more = λ h. cc
middle_nonempty (c ∷ s) b more = λ h. cc

line-IsLine : (k v : Bytes) → NoCr k → NoCr v → IsLine (line k v)
line-IsLine k v a b =
    (middle_nonempty k b':' (32 ∷ v), All-append _ k (codes ": " ++ v) a (λ h. cc, (λ h. cc, b)))

value_lines-IsLine :
    (k : Bytes) (vals : List Bytes) → NoCr k → All NoCr vals → All IsLine (value_lines k vals)
value_lines-IsLine k [] a b = tt
value_lines-IsLine k (v ∷ vals) a b = (line-IsLine k v a b.0, value_lines-IsLine k vals a b.1)

lines-IsLine : (h : List (Bytes × List Bytes)) → IsClean h → All IsLine (lines h)
lines-IsLine [] c = tt
lines-IsLine ((k, vals) ∷ h) c =
    All-append IsLine (value_lines k vals) (lines h) (value_lines-IsLine k vals c.0.0 c.0.1)
      (lines-IsLine h c.1)

-- The text that the edge makes of the headers of a request has the length that it is said to have, and
-- it is taken apart again into one line "name: value" for each value, in the order of the map, if no
-- name and no value has a carriage return in it.
pub parse_flat-flatten_headers :
    (h : List (Bytes × List Bytes))
    → IsClean h
    → (parse_flat (flatten_headers h).0 ≡ lines h)
      × ((flatten_headers h).1 ≡ length (flatten_headers h).0)
unfolding flatten_headers
parse_flat-flatten_headers h c =
    let e = flatten_from_lem h [] 0 in
    rw e (parse_flat-text (lines h) (lines-IsLine h c), omega arith)
