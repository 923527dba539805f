-- ===== src/Cache/Meta.antt =====
-- `mod meta` of cache/lib.rs: the flag bits.
use olwsx.Base.{ℕ}

abbrev pub comp_none : ℕ
comp_none = 0x0000_0000

abbrev pub comp_gzip : ℕ
comp_gzip = 0x0000_0001

abbrev pub comp_zstd : ℕ
comp_zstd = 0x0000_0002

abbrev pub comp_brotli : ℕ
comp_brotli = 0x0000_0004

abbrev pub cache_miss : ℕ
cache_miss = 0x0001_0000

abbrev pub cache_l1 : ℕ
cache_l1 = 0x0002_0000

abbrev pub cache_l2 : ℕ
cache_l2 = 0x0004_0000

abbrev pub cache_l3 : ℕ
cache_l3 = 0x0008_0000

abbrev pub sec_ok : ℕ
sec_ok = 0x0010_0000

abbrev pub sec_waf : ℕ
sec_waf = 0x0020_0000

abbrev pub sec_ratelim : ℕ
sec_ratelim = 0x0040_0000
