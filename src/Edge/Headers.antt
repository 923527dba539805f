-- ===== src/Edge/Headers.antt =====
-- edge/http/parser.go: header maps as one text, and back as lines. A map is the list of its entries in
-- the order of the iteration.
pub mod RoundTrip
use olwsx.Base.{
  ℕ, ◌+◌, ◌++◌, Bool, false, ◌&&◌, Bytes, codes, List, [], ◌∷◌, length, ◌==◌, if◌then◌else◌,
}

abbrev pub crlf : Bytes
crlf = 13 ∷ 10 ∷ []

abbrev pub header_line : Bytes → Bytes → Bytes
header_line k v = k ++ (codes ": " ++ (v ++ crlf))

-- The inner loop of `FlattenHeaders`: the builder and the size.
abbrev pub flatten_values : Bytes → List Bytes → Bytes × ℕ → Bytes × ℕ
flatten_values k [] acc = acc
flatten_values k (v ∷ vals) (b, size) =
    flatten_values k vals (b ++ header_line k v, size + length (header_line k v))

abbrev pub flatten_from : List (Bytes × List Bytes) → Bytes × ℕ → Bytes × ℕ
flatten_from [] acc = acc
flatten_from ((k, vals) ∷ h) acc = flatten_from h (flatten_values k vals acc)

-- `FlattenHeaders`
unfoldable pub flatten_headers : List (Bytes × List Bytes) → Bytes × ℕ
flatten_headers h = flatten_from h ([], 0)

-- Putting a byte in front of the first part.
abbrev pub onto_first : ℕ → List Bytes → List Bytes
onto_first b [] = (b ∷ []) ∷ []
onto_first b (part ∷ parts) = (b ∷ part) ∷ parts

-- Taking it away again.
abbrev pub off_first : List Bytes → List Bytes
off_first [] = []
off_first ([] ∷ parts) = [] ∷ parts
off_first ((b ∷ part) ∷ parts) = part ∷ parts

abbrev pub next_is_lf : Bytes → Bool
next_is_lf [] = false
next_is_lf (b ∷ s) = b == 10

-- `strings.Split(s, "\r\n")`; behind a CR the LF is the first byte of the first part of what follows.
unfoldable pub split_lines : Bytes → List Bytes
split_lines [] = [] ∷ []
split_lines (b ∷ s) =
    let rest = split_lines s in
    if b == 13 && next_is_lf s then [] ∷ off_first rest else onto_first b rest

abbrev pub nonempty : List Bytes → List Bytes
nonempty [] = []
nonempty ([] ∷ parts) = nonempty parts
nonempty ((b ∷ part) ∷ parts) = (b ∷ part) ∷ nonempty parts

-- `ParseFlat`
unfoldable pub parse_flat : Bytes → List Bytes
parse_flat [] = []
parse_flat (b ∷ s) = nonempty (split_lines (b ∷ s))
