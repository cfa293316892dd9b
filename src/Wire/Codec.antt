-- ===== src/Wire/Codec.antt =====
-- The little-endian codecs invert one another, on either side.
use smb1client.Common.{zero, suc, drop, All-drop, ℕ, ◌+◌, ◌*◌, ◌≡◌, [], ◌∷◌, ◌++◌, arith}
use smb1client.Wire.{
  byte_at, u16_at, u32_at, Bytes, IsByte, AllBytes, IsU16, IsU32, IsU64, put_u16, put_u32, put_u64,
  u16_of, u32_of, u64_of,
}

pub u16_of-put : (v : ℕ) (rest : Bytes) → IsU16 v → u16_of (put_u16 v ++ rest) ≡ v
u16_of-put v rest h = omega arith

pub u32_of-put : (v : ℕ) (rest : Bytes) → IsU32 v → u32_of (put_u32 v ++ rest) ≡ v
u32_of-put v rest h = omega arith

pub u64_of-put : (v : ℕ) (rest : Bytes) → IsU64 v → u64_of (put_u64 v ++ rest) ≡ v
u64_of-put v rest h = omega arith

pub put_u16-AllBytes : (v : ℕ) → AllBytes (put_u16 v)
put_u16-AllBytes v = omega arith

pub put_u32-AllBytes : (v : ℕ) → AllBytes (put_u32 v)
put_u32-AllBytes v = omega arith

pub put_u64-AllBytes : (v : ℕ) → AllBytes (put_u64 v)
put_u64-AllBytes v = omega arith

-- Reading and writing back gives the bytes that were read.
pub put_u16-of : (a b : ℕ) → IsByte a → IsByte b → put_u16 (a + 256 * b) ≡ a ∷ b ∷ []
put_u16-of a b ha hb = ground arith

pub put_u32-of :
    (a b c d : ℕ)
    → IsByte a
    → IsByte b
    → IsByte c
    → IsByte d
    → put_u32 (a + 256 * b + 65536 * c + 16777216 * d) ≡ a ∷ b ∷ c ∷ d ∷ []
put_u32-of a b c d ha hb hc hd = ground arith

pub u16_of-lt : (xs : Bytes) → AllBytes xs → IsU16 (u16_of xs)
u16_of-lt [] h = omega arith
u16_of-lt (a ∷ []) h = omega arith
u16_of-lt (a ∷ b ∷ xs) h = omega arith

pub u32_of-lt : (xs : Bytes) → AllBytes xs → IsU32 (u32_of xs)
u32_of-lt [] h = omega arith
u32_of-lt (a ∷ []) h = omega arith
u32_of-lt (a ∷ b ∷ []) h = omega arith
u32_of-lt (a ∷ b ∷ c ∷ []) h = omega arith
u32_of-lt (a ∷ b ∷ c ∷ d ∷ xs) h = omega arith

pub byte_at-lt : (xs : Bytes) (i : ℕ) → AllBytes xs → IsByte (byte_at xs i)
byte_at-lt [] i h = omega arith
byte_at-lt (x ∷ xs) zero h = h.0
byte_at-lt (x ∷ xs) (suc i) h = byte_at-lt xs i h.1

pub u16_at-lt : (xs : Bytes) (i : ℕ) → AllBytes xs → IsU16 (u16_at xs i)
u16_at-lt xs i h = u16_of-lt (drop i xs) (All-drop IsByte i xs h)

pub u32_at-lt : (xs : Bytes) (i : ℕ) → AllBytes xs → IsU32 (u32_at xs i)
u32_at-lt xs i h = u32_of-lt (drop i xs) (All-drop IsByte i xs h)
