-- ===== src/Bytes/Laws.antt =====
-- src/libchidb/util.c: what is read back after a write of an integer, and what a write leaves alone.
use Prim.Native.Nat.{bit_and, bit_or}
use chidb.Prelude.{ℕ, ◌+◌, ◌*◌, ◌/◌, ◌%◌, ◌^◌, ◌≤◌, ◌<◌, ◌≡◌, ◌⊎◌, refl, arith}
use chidb.Prelude.Bits.{bit_or_high, bit_or_low, bit_and_shift, bit_and_one, bit_and_seven_ones}
use chidb.Bytes.{
  Bytes, memcpy, get2byte, put2byte, get4byte, put4byte, get_varint32, put_varint32, varint_word,
}

-- Four bytes put together by shifts and unions.
big_endian4 :
    (a b c d : ℕ)
    → b < 256
    → c < 256
    → d < 256
    → bit_or (bit_or (bit_or (a * 2 ^ 24) (b * 2 ^ 16)) (c * 2 ^ 8)) d
      ≡ ((a * 256 + b) * 256 + c) * 256 + d
big_endian4 a b c d hb hc hd = ground (
  arith,
  bit_or_high 24 a (b * 2 ^ 16) (omega arith),
  bit_or_high 16 (a * 256 + b) (c * 2 ^ 8) (omega arith),
  bit_or_high 8 ((a * 256 + b) * 256 + c) d (omega arith),
)

-- A two-byte integer is read back as it was written, modulo its width.
pub get2byte-put2byte : (d : Bytes) (i v : ℕ) → get2byte (put2byte d i v) i ≡ v % 2 ^ 16
unfolding get2byte put2byte
get2byte-put2byte d i v = ground (arith, bit_or_high 8 (v / 2 ^ 8 % 256) (v % 256))

-- A four-byte integer is read back as it was written, modulo its width.
pub get4byte-put4byte : (d : Bytes) (i v : ℕ) → get4byte (put4byte d i v) i ≡ v % 2 ^ 32
unfolding get4byte put4byte
get4byte-put4byte d i v =
    ground (arith, big_endian4 (v / 2 ^ 24 % 256) (v / 2 ^ 16 % 256) (v / 2 ^ 8 % 256) (v % 256))

seven_bits : (k v : ℕ) → bit_and v (127 * 2 ^ k) ≡ v / 2 ^ k % 128 * 2 ^ k
seven_bits k v = rw bit_and_shift (rw bit_and_seven_ones refl)

-- Each group of seven bits goes to the low end of a byte with the top bit set, except that the lowest byte has it clear.
varint_word_fields :
    (v : ℕ)
    → varint_word v
      ≡ ((128 + v / 2 ^ 21 % 128) * 256 + (128 + v / 2 ^ 14 % 128)) * 2 ^ 16
        + (128 + v / 2 ^ 7 % 128) * 256
        + v % 128
unfolding varint_word
varint_word_fields v = ground (
  arith,
  bit_and_seven_ones v,
  seven_bits 7 v,
  seven_bits 14 v,
  seven_bits 21 v,
  bit_or_low 15 1 (v / 2 ^ 7 % 128 * 2 ^ 8),
  bit_or_low 23 1 (v / 2 ^ 14 % 128 * 2 ^ 16),
  bit_or_low 31 1 (v / 2 ^ 21 % 128 * 2 ^ 24),
  bit_or_low 8 (128 + v / 2 ^ 7 % 128) (v % 128),
  bit_or_low 16 (128 + v / 2 ^ 14 % 128) ((128 + v / 2 ^ 7 % 128) * 256 + v % 128),
  bit_or_low 24 (128 + v / 2 ^ 21 % 128)
      ((128 + v / 2 ^ 14 % 128) * 2 ^ 16 + (128 + v / 2 ^ 7 % 128) * 256 + v % 128),
)

varint_groups :
    (a b c d : ℕ)
    → bit_or
        (bit_or (bit_or (bit_and d 0x7f) (bit_and c 0x7f * 2 ^ 7)) (bit_and b 0x7f * 2 ^ 14))
        (bit_and a 0x7f * 2 ^ 21)
      ≡ ((a % 128 * 128 + b % 128) * 128 + c % 128) * 128 + d % 128
varint_groups a b c d = ground (
  arith,
  bit_and_seven_ones a,
  bit_and_seven_ones b,
  bit_and_seven_ones c,
  bit_and_seven_ones d,
  bit_or_low 7 (c % 128) (d % 128),
  bit_or_low 14 (b % 128) (c % 128 * 128 + d % 128),
  bit_or_low 21 (a % 128) ((b % 128 * 128 + c % 128) * 128 + d % 128),
)

-- A variable-length integer is read back modulo 2^28: four groups of seven bits are stored.
pub get_varint32-put_varint32 :
    (d : Bytes) (i v : ℕ) → get_varint32 (put_varint32 d i v) i ≡ v % 2 ^ 28
unfolding get_varint32 put_varint32
get_varint32-put_varint32 d i v = ground (
  arith,
  varint_word_fields v,
  varint_groups (varint_word v / 2 ^ 24 % 256) (varint_word v / 2 ^ 16 % 256)
      (varint_word v / 2 ^ 8 % 256) (varint_word v % 256),
)

-- The first byte of a variable-length integer has its top bit set.
pub put_varint32-top : (d : Bytes) (i v : ℕ) → put_varint32 d i v i ≡ 128 + v / 2 ^ 21 % 128
unfolding put_varint32
put_varint32-top d i v = ground (arith, varint_word_fields v)

pub top_bit : (a : ℕ) → bit_and a 0x80 ≡ a / 2 ^ 7 % 2 * 2 ^ 7
top_bit a = rw (bit_and_shift 7 a 1) (rw (bit_and_one (a / 2 ^ 7)) refl)

-- Writes leave the other bytes alone.
pub put2byte-frame : (d : Bytes) (i v j : ℕ) → (j < i) ⊎ (i + 2 ≤ j) → put2byte d i v j ≡ d j
unfolding put2byte
put2byte-frame d i v j h = ground arith

pub put4byte-frame : (d : Bytes) (i v j : ℕ) → (j < i) ⊎ (i + 4 ≤ j) → put4byte d i v j ≡ d j
unfolding put4byte
put4byte-frame d i v j h = ground arith

pub put_varint32-frame :
    (d : Bytes) (i v j : ℕ) → (j < i) ⊎ (i + 4 ≤ j) → put_varint32 d i v j ≡ d j
unfolding put_varint32
put_varint32-frame d i v j h = ground arith

pub memcpy-frame :
    (d : Bytes) (off : ℕ) (src : Bytes) (from n j : ℕ)
    → (j < off) ⊎ (off + n ≤ j)
    → memcpy d off src from n j ≡ d j
unfolding memcpy
memcpy-frame d off src from n j h = ground arith

pub memcpy_copies :
    (d : Bytes) (off : ℕ) (src : Bytes) (from n k : ℕ)
    → k < n
    → memcpy d off src from n (off + k) ≡ src (from + k)
unfolding memcpy
memcpy_copies d off src from n k h = ground arith

-- What is read depends on the bytes that are read, and on no others.
pub get2byte-same :
    (d e : Bytes) (i : ℕ) → ((j : ℕ) → i ≤ j → j < i + 2 → d j ≡ e j) → get2byte d i ≡ get2byte e i
unfolding get2byte
get2byte-same d e i h = ground (arith, h i, h (i + 1))

pub get4byte-same :
    (d e : Bytes) (i : ℕ) → ((j : ℕ) → i ≤ j → j < i + 4 → d j ≡ e j) → get4byte d i ≡ get4byte e i
unfolding get4byte
get4byte-same d e i h = ground (arith, h i, h (i + 1), h (i + 2), h (i + 3))

pub get_varint32-same :
    (d e : Bytes) (i : ℕ)
    → ((j : ℕ) → i ≤ j → j < i + 4 → d j ≡ e j)
    → get_varint32 d i ≡ get_varint32 e i
unfolding get_varint32
get_varint32-same d e i h = ground (arith, h i, h (i + 1), h (i + 2), h (i + 3))

-- Every read gives a number of its width.
pub get2byte-lt : (d : Bytes) (i : ℕ) → d i < 256 → d (i + 1) < 256 → get2byte d i < 2 ^ 16
unfolding get2byte
get2byte-lt d i h g = ground (arith, bit_or_high 8 (d i) (d (i + 1)))

pub get2byte-put2byte_ne :
    (d : Bytes) (i v j : ℕ) → (j + 2 ≤ i) ⊎ (i + 2 ≤ j) → get2byte (put2byte d i v) j ≡ get2byte d j
get2byte-put2byte_ne d i v j out = get2byte-same _ d j λ k h g. put2byte-frame d i v k (omega arith)
