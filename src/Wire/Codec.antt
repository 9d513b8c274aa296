-- ===== src/Wire/Codec.antt =====
-- Integers, headers and strings of dstc_internal.h, written and read back.
use native.Mathlib.Nat.{pow-suc}
use dstc.Base.{
  ℕ, zero, suc, ◌*◌, ◌/◌, ◌^◌, ◌<◌, ◌≡◌, refl, ap, ◌≢◌, List, [], ◌∷◌, ◌++◌, some, arith, length,
  length-append,
}
use dstc.Wire.{le_bytes, le_value, read_header, header_bytes, c_string}

pub length-le_bytes : (k v : ℕ) → length (le_bytes k v) ≡ k
unfolding le_bytes
length-le_bytes zero v = refl
length-le_bytes (suc k) v = ap suc (length-le_bytes k _)

pub le_value-le_bytes : (k v : ℕ) → v < 256 ^ k → le_value (le_bytes k v) ≡ v
unfolding le_bytes le_value
le_value-le_bytes zero v h = omega arith
le_value-le_bytes (suc k) v h =
    let h' : v < 256 ^ k * 256 = rw pow-suc at h in
    omega (arith, le_value-le_bytes k (v / 256) (omega arith))

pub length-header_bytes : (node len : ℕ) → length (header_bytes node len) ≡ 6
unfolding header_bytes
length-header_bytes node len = omega (
  arith,
  length-append (le_bytes 4 node) (le_bytes 2 len),
  length-le_bytes 4 node,
  length-le_bytes 2 len,
)

-- A header written in front of a payload reads back as it is.
pub read_header-header_bytes :
    (node len : ℕ) (payload : List ℕ)
    → node < 2 ^ 32
    → len < 2 ^ 16
    → read_header (header_bytes node len ++ payload)
      ≡ record { node_id = node; payload_len = len; payload = payload }
unfolding read_header header_bytes le_bytes le_value
read_header-header_bytes node len payload hn hl = ground arith

-- All bytes of a string are other than its terminator.
abbrev pub NoNul : List ℕ → Type 0
NoNul [] = Unit {0}
NoNul (b ∷ bs) = (b ≢ 0) × NoNul bs

pub c_string-append : (s rest : List ℕ) → NoNul s → c_string (s ++ 0 ∷ rest) ≡ some s
unfolding c_string
c_string-append [] rest h = refl
c_string-append (b ∷ s) rest h = ground (arith, c_string-append s rest h.1)
