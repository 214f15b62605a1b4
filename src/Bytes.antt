-- ===== src/Bytes.antt =====
-- src/libchidb/util.h, util.c: the bytes of a buffer and the integers stored in them. A buffer is
-- the function from an offset to the byte at it; a write gives a new buffer. The sizes of the
-- buffers are kept by the modules that own them.
pub mod Laws
mod Tests
use Prim.Native.Nat.{bit_and, bit_or}
use chidb.Prelude.{ℕ, ◌+◌, ◌*◌, ◌/◌, ◌%◌, ◌^◌, ◌-◌, Bool, ◌&&◌, leb, ltb, ◌==◌, if◌then◌else◌}

abbrev pub Bytes : Type 0
Bytes = ℕ → ℕ

-- What `calloc` and `memset (p, 0, n)` give.
abbrev pub zeros : Bytes
zeros j = 0

-- `d[i] = v`, where `v` is a `uint8_t`.
unfoldable pub store : Bytes → ℕ → ℕ → Bytes
store d i v j = if i == j then v else d j

-- `memcpy (d + off, src + from, n)`
unfoldable pub memcpy : Bytes → ℕ → Bytes → ℕ → ℕ → Bytes
memcpy d off src from n j = if leb off j && ltb j (off + n) then src (from + (j - off)) else d j

unfoldable pub get2byte : Bytes → ℕ → ℕ
get2byte p i = bit_or (p i * 2 ^ 8) (p (i + 1))

unfoldable pub put2byte : Bytes → ℕ → ℕ → Bytes
unfolding store
put2byte p i v = store (store p i (v / 2 ^ 8 % 256)) (i + 1) (v % 256)

unfoldable pub get4byte : Bytes → ℕ → ℕ
get4byte p i =
    bit_or (bit_or (bit_or (p i * 2 ^ 24) (p (i + 1) * 2 ^ 16)) (p (i + 2) * 2 ^ 8)) (p (i + 3))

unfoldable pub put4byte : Bytes → ℕ → ℕ → Bytes
unfolding store
put4byte p i v =
    let p = store p i (v / 2 ^ 24 % 256) in
    let p = store p (i + 1) (v / 2 ^ 16 % 256) in
    let p = store p (i + 2) (v / 2 ^ 8 % 256) in store p (i + 3) (v % 256)

-- Seven bits of each of four bytes.
unfoldable pub get_varint32 : Bytes → ℕ → ℕ
get_varint32 p i =
    let v = bit_and (p (i + 3)) 0x7f in
    let v = bit_or v (bit_and (p (i + 2)) 0x7f * 2 ^ 7) in
    let v = bit_or v (bit_and (p (i + 1)) 0x7f * 2 ^ 14) in bit_or v (bit_and (p i) 0x7f * 2 ^ 21)

-- The word whose four bytes `putVarint32` stores. No shift loses a bit, since the masks are below 2^28.
unfoldable pub varint_word : ℕ → ℕ
varint_word v =
    let aux = bit_and v 0x7f in
    let aux = bit_or aux (bit_or (bit_and v 0x3f80 * 2 ^ 1) 0x8000) in
    let aux = bit_or aux (bit_or (bit_and v 0x1f_c000 * 2 ^ 2) 0x80_0000) in
    bit_or aux (bit_or (bit_and v 0xfe0_0000 * 2 ^ 3) 0x8000_0000)

unfoldable pub put_varint32 : Bytes → ℕ → ℕ → Bytes
unfolding store
put_varint32 p i v =
    let aux = varint_word v in
    let p = store p (i + 3) (aux % 256) in
    let p = store p (i + 2) (aux / 2 ^ 8 % 256) in
    let p = store p (i + 1) (aux / 2 ^ 16 % 256) in store p i (aux / 2 ^ 24 % 256)
