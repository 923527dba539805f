-- ===== src/Edge/Wire.antt =====
-- edge/wire/serialize.go and edge/wire/deserialize.go. A reader of `bytes` is what it has left to read;
-- an error is `none`, and a nil slice is an empty one.
use olwsx.Base.{
  ℕ, ◌-◌, ◌%◌, ◌^◌, ◌++◌, [], Bytes, Option, none, some, length, take, drop, ltb, ◌==◌,
  if◌then◌else◌, ◌>>=◌, Reader, to_le_bytes, read_le,
}
use olwsx.Base.Int.{ℤ, pos, negsuc}

-- `Response`
pub record Response : Type 0 where
  pub status : ℤ
  pub headers_flat : Bytes
  pub body : Bytes
  pub meta_flags : ℕ

abbrev pub u32_mod : ℕ
u32_mod = 2 ^ 32

-- `writeStr`
unfoldable pub write_str : Bytes → Bytes → Bytes
write_str b s = (b ++ to_le_bytes 4 (length s % u32_mod)) ++ s

-- `writeBytes`
unfoldable pub write_bytes : Bytes → Bytes → Bytes
write_bytes b p =
    let l = length p % u32_mod in let b' = b ++ to_le_bytes 4 l in if ltb 0 l then b' ++ p else b'

-- `WriteEnvelope`
unfoldable pub write_envelope : Bytes → Bytes → Bytes → Bytes → ℕ → ℕ → ℕ → Bytes
write_envelope method path headers body trace_id span_id hints =
    let b = write_bytes (write_str (write_str (write_str [] method) path) headers) body in
    ((b ++ to_le_bytes 8 trace_id) ++ to_le_bytes 8 span_id) ++ to_le_bytes 4 hints

-- The `int32` with these bits.
abbrev pub to_i32 : ℕ → ℤ
to_i32 n = if ltb n (2 ^ 31) then pos n else negsuc (u32_mod - 1 - n)

-- What `r.Read(buf)` on a buffer of `n` bytes and the tests behind it make of the rest.
unfoldable pub read_exactly : ℕ → Reader Bytes
read_exactly n r =
    if length r == 0
    then none
    else if length (take n r) == n
    then some (take n r, drop n r)
    else none

-- `readStr` and `readBytes`
unfoldable pub read_str : Reader Bytes
read_str r = do (l, r) ← read_le 4 r; if l == 0 then some ([], r) else read_exactly l r

-- `ReadResponse`
unfoldable pub read_response : Bytes → Option Response
read_response p = do
  (status, r) ← read_le 4 p
  (hdr, r) ← read_str r
  (body, r) ← read_str r
  (meta, r) ← read_le 4 r
  some (record { status = to_i32 status; headers_flat = hdr; body = body; meta_flags = meta })
