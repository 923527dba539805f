-- ===== src/Waf/Tests.antt =====
-- Concrete matches of security/waf.rs, and the theorems on matching at concrete inputs.
use olwsx.Base.{
  ◌≡◌, ◌≢◌, ◌↔◌, refl, true, false, Bytes, [], ◌∷◌, ◌++◌, codes, arith, to_ascii_lowercase, lower,
}
use olwsx.Waf.{
  contains, prefix, suffix, eq, ret, panic, match_str, match_bytes, find_subslice_ci, find_from,
  eq_ci_bytes, zip_all_ci, slice_from, eq_ci,
}
use olwsx.Waf.Matching.{InBody, match_bytes_iff}
use olwsx.Waf.Ascii.{InText, match_str_panics, match_str_iff}

abbrev ascii_only : Bytes → Bytes
ascii_only = to_ascii_lowercase

match_tests :
    (match_bytes (codes "id=1 Union Select 2") (contains (codes "UNION SELECT")) ≡ true)
    × (match_bytes (codes "abc") (eq (codes "B")) ≡ true)
    × (match_bytes (codes "abc") (prefix (codes "BC")) ≡ false)
    × (match_str ascii_only (codes "/Index.PHP") (suffix (codes ".php")) ≡ ret true)
unfolding match_bytes find_subslice_ci find_from eq_ci_bytes zip_all_ci match_str slice_from eq_ci
    lower
match_tests = (refl, refl, refl, refl)

match_bytes_iff_example :
    (match_bytes (codes "GET /x") (prefix (codes "get")) ≡ true)
    ↔ InBody (codes "GET /x") (prefix (codes "get"))
match_bytes_iff_example = match_bytes_iff (codes "GET /x") (prefix (codes "get"))

match_str_iff_example :
    (match_str ascii_only (codes "/Index.PHP") (suffix (codes ".php")) ≢ panic)
    × ((match_str ascii_only (codes "/Index.PHP") (suffix (codes ".php")) ≡ ret true)
        ↔ InText (codes "/Index.PHP") (suffix (codes ".php")))
match_str_iff_example =
    match_str_iff ascii_only (λ s a. refl) (codes "/Index.PHP") (suffix (codes ".php"))
      (omega arith) (omega arith)

-- "aé"
abbrev accented : Bytes
accented = codes "a" ++ 0xc3 ∷ 0xa9 ∷ []

accented_test : match_str ascii_only accented (prefix (codes "xy")) ≡ panic
accented_test =
    match_str_panics ascii_only accented (codes "xy") 0xa9 refl (omega arith) (omega arith)
      (omega arith)
