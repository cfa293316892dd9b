-- ===== src/Wire.antt =====
-- Byte slices and `encoding/binary`'s little-endian access, as the codecs of internal/ use them.
-- A byte slice is a list of numbers below 256; nil and the empty slice are both the empty list.
pub mod Codec
pub mod Cuts
use smb1client.Common.{
  ℕ, ◌-◌, length, ltb, leb, ◌&&◌, if◌then◌else◌, Outcome, ok, panic, ◌+◌, ◌*◌, ◌/◌, ◌%◌, ◌^◌, ◌<◌,
  List, [], ◌∷◌, ◌++◌, All, get_or, take, drop,
}

abbrev pub Bytes : Type 0
Bytes = List ℕ

abbrev pub IsByte : ℕ → Type 0
IsByte b = b < 256

abbrev pub AllBytes : Bytes → Type 0
AllBytes = All IsByte

abbrev pub IsU16 : ℕ → Type 0
IsU16 v = v < 2 ^ 16

abbrev pub IsU32 : ℕ → Type 0
IsU32 v = v < 2 ^ 32

abbrev pub IsU64 : ℕ → Type 0
IsU64 v = v < 2 ^ 64

-- `PutUint16`, `PutUint32`, `PutUint64`: the bytes written.
abbrev pub put_u16 : ℕ → Bytes
put_u16 v = v % 256 ∷ v / 256 % 256 ∷ []

abbrev pub put_u32 : ℕ → Bytes
put_u32 v = v % 256 ∷ v / 256 % 256 ∷ v / 65536 % 256 ∷ v / 16777216 % 256 ∷ []

abbrev pub put_u64 : ℕ → Bytes
put_u64 v = put_u32 (v % 2 ^ 32) ++ put_u32 (v / 2 ^ 32)

-- `b[i]`, for an index that the caller has checked.
abbrev pub byte_at : Bytes → ℕ → ℕ
byte_at b i = get_or b i 0

-- `b[i : i+n]`, for a range that the caller has checked.
abbrev pub slice : Bytes → ℕ → ℕ → Bytes
slice b i n = take n (drop i b)

-- `Uint16`, `Uint32` of a slice's first bytes.
abbrev pub u16_of : Bytes → ℕ
u16_of b = byte_at b 0 + 256 * byte_at b 1

abbrev pub u32_of : Bytes → ℕ
u32_of b = byte_at b 0 + 256 * byte_at b 1 + 65536 * byte_at b 2 + 16777216 * byte_at b 3

abbrev pub u64_of : Bytes → ℕ
u64_of b = u32_of b + 2 ^ 32 * u32_of (drop 4 b)

-- `Uint16(b[i : i+2])`
abbrev pub u16_at : Bytes → ℕ → ℕ
u16_at b i = u16_of (drop i b)

abbrev pub u32_at : Bytes → ℕ → ℕ
u32_at b i = u32_of (drop i b)

abbrev pub u64_at : Bytes → ℕ → ℕ
u64_at b i = u64_of (drop i b)

-- Go's checked accesses, `b[i]` and `b[lo:hi]`: a panic when out of range.
unfoldable pub index {κ} : {E : Type κ} → Bytes → ℕ → Outcome E ℕ
index b i = if ltb i (length b) then ok (byte_at b i) else panic

unfoldable pub cut {κ} : {E : Type κ} → Bytes → ℕ → ℕ → Outcome E Bytes
cut b lo hi = if leb lo hi && leb hi (length b) then ok (slice b lo (hi - lo)) else panic
