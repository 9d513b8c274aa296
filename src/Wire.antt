-- ===== src/Wire.antt =====
-- The bytes on the wire: dstc_internal.h, `dstc_header_t`, and the layout that dstc.c gives its
-- payload. Integers lie in memory lowest byte first, as the tags of dstc.h suppose ("DSTC" is
-- 0x43545344).
pub mod Codec
use dstc.Base.{
  ℕ, zero, suc, ◌+◌, ◌*◌, ◌/◌, ◌%◌, ◌^◌, List, [], ◌∷◌, ◌++◌, Option, none, some, length, take,
  drop, ◌==◌, if◌then◌else◌,
}

-- A cast to `uint16_t`, to `uint32_t`.
abbrev pub u16 : ℕ → ℕ
u16 x = x % 2 ^ 16

abbrev pub u32 : ℕ → ℕ
u32 x = x % 2 ^ 32

-- The object representation of an unsigned integer of `k` bytes, and its value.
unfoldable pub le_bytes : ℕ → ℕ → List ℕ
le_bytes zero v = []
le_bytes (suc k) v = (v % 256) ∷ le_bytes k (v / 256)

unfoldable pub le_value : List ℕ → ℕ
le_value [] = 0
le_value (b ∷ bs) = b + 256 * le_value bs

-- `sizeof(dstc_header_t)`: the flexible array member counts for nothing.
abbrev pub header_size : ℕ
header_size = 6

-- `sizeof(uint64_t)`, and `sizeof(dstc_callback_t)`.
abbrev pub ref_size : ℕ
ref_size = 8

-- `dstc_header_t`: the fields that a pointer to it reads.
pub record Header : Type 0 where
  pub node_id : ℕ
  pub payload_len : ℕ
  pub payload : List ℕ

unfoldable pub read_header : List ℕ → Header
read_header bytes = record {
  node_id = le_value (take 4 bytes);
  payload_len = le_value (take 2 (drop 4 bytes));
  payload = drop header_size bytes;
}

unfoldable pub header_bytes : ℕ → ℕ → List ℕ
header_bytes node_id payload_len = le_bytes 4 node_id ++ le_bytes 2 payload_len

-- The string at a `char*`: the bytes in front of the terminator. `none` if the object that the
-- pointer points into holds none, where `strlen` reads past its end.
unfoldable pub c_string : List ℕ → Option (List ℕ)
c_string [] = none
c_string (b ∷ bs) = if b == zero then some [] else cons_string b (c_string bs)
  where
    cons_string : ℕ → Option (List ℕ) → Option (List ℕ)
    cons_string b none = none
    cons_string b (some s) = some (b ∷ s)
