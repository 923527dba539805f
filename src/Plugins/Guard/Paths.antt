-- ===== src/Plugins/Guard/Paths.antt =====
-- Where "../" can stand in a path that plugins/filter_example.rs rewrites.
use olwsx.Base.{
  Bool, false, Bytes, ◌≡◌, refl, sym, [], ◌∷◌, ◌++◌, codes, ◌==◌, starts_with-append, contains,
  arith, drop-append,
}
use mathlib.Core.List.{append-nil}
use olwsx.Plugins.Guard.{replace_first}

-- The last byte is a dot.
abbrev pub ends_in_dot : Bytes → Bool
ends_in_dot [] = false
ends_in_dot (b ∷ []) = b == b'.'
ends_in_dot (b ∷ c ∷ s) = ends_in_dot (c ∷ s)

pub contains_back :
    (front back needle : Bytes)
    → contains (front ++ back) needle ≡ false
    → contains back needle ≡ false
contains_back [] back needle h = h
contains_back (x ∷ front) back needle h = contains_back front back needle (ground arith)

-- Two texts without "../" make another, when the first does not end in a dot.
pub contains-append_dots :
    (front back : Bytes)
    → contains front (codes "../") ≡ false
    → ends_in_dot front ≡ false
    → contains back (codes "../") ≡ false
    → contains (front ++ back) (codes "../") ≡ false
contains-append_dots [] back h d hb = hb
contains-append_dots (x ∷ []) back h d hb = ground arith
contains-append_dots (x ∷ y ∷ []) back h d hb = ground arith
contains-append_dots (x ∷ y ∷ z ∷ front) back h d hb =
    ground (arith, contains-append_dots (y ∷ z ∷ front) back)

-- A prefix is replaced where it stands.
pub replace_first_prefix :
    (from to rest : Bytes) → replace_first from to (from ++ rest) ≡ to ++ rest
replace_first_prefix [] to [] = sym (append-nil to)
replace_first_prefix [] to (b ∷ rest) = refl
replace_first_prefix (b ∷ from) to rest =
    ground (arith, starts_with-append (b ∷ from) rest, drop-append (b ∷ from) rest)
