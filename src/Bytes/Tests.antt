-- ===== src/Bytes/Tests.antt =====
-- src/libchidb/util.c on small integers.
use chidb.Prelude.{◌%◌, ◌^◌, ◌≡◌, refl}
use chidb.Bytes.{
  zeros, get2byte, put2byte, get4byte, put4byte, get_varint32, put_varint32, varint_word,
}
use chidb.Bytes.Laws.{get4byte-put4byte, get_varint32-put_varint32}

put2byte_big_endian : get2byte (put2byte zeros 0 0x0400) 0 ≡ 0x0400
unfolding get2byte put2byte
put2byte_big_endian = refl

varint_first_byte : put_varint32 zeros 0 5 0 ≡ 0x80
unfolding put_varint32 varint_word
varint_first_byte = refl

get4byte-put4byte_example : get4byte (put4byte zeros 3 0x1_2345_6789) 3 ≡ 0x1_2345_6789 % 2 ^ 32
get4byte-put4byte_example = get4byte-put4byte zeros 3 0x1_2345_6789

get_varint32-put_varint32_example :
    get_varint32 (put_varint32 zeros 3 0x1234_5678) 3 ≡ 0x1234_5678 % 2 ^ 28
get_varint32-put_varint32_example = get_varint32-put_varint32 zeros 3 0x1234_5678
