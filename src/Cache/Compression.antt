-- ===== src/Cache/Compression.antt =====
-- cache/compression.rs: the facade that marks and does not compress.
mod Laws
mod Tests
use olwsx.Base.{ℕ, Bool, ◌||◌, Bytes, codes, contains, to_ascii_lowercase, if◌then◌else◌}
use olwsx.Cache.Meta.{comp_none, comp_gzip, comp_zstd, comp_brotli}

pub data Algo : Type 0 where
  none gzip zstd brotli : Algo

pub record CompResult : Type 0 where
  pub data_bytes : Bytes
  pub meta_flags : ℕ

pub compress : Bytes → Algo → CompResult
compress input Algo.none = record { data_bytes = input; meta_flags = comp_none }
compress input gzip = record { data_bytes = input; meta_flags = comp_gzip }
compress input zstd = record { data_bytes = input; meta_flags = comp_zstd }
compress input brotli = record { data_bytes = input; meta_flags = comp_brotli }

pub best_for_mime : Bytes → Algo
best_for_mime mime =
    let m = to_ascii_lowercase mime in
    if contains m (codes "text/") || contains m (codes "json") || contains m (codes "xml")
    then gzip
    else Algo.none
