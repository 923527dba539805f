-- ===== src/Cache/Compression/Tests.antt =====
-- Concrete runs of cache/compression.rs, and the laws at concrete inputs.
use olwsx.Base.{◌≡◌, refl, codes, lower}
use olwsx.Cache.Compression.{Algo, gzip, best_for_mime}

best_for_mime_tests :
    (best_for_mime (codes "Application/JSON") ≡ gzip)
    × (best_for_mime (codes "image/png") ≡ Algo.none)
unfolding best_for_mime lower
best_for_mime_tests = (refl, refl)
