-- ===== src/Smb1/Values.antt =====
-- internal/smb1/encoder.go: building parameter bytes from values, and reading single values back at an
-- offset. An `int` is a 64-bit integer; offsets are given as ℤ.
pub mod ReadBack
use smb1client.Common.{
  ℕ, zero, suc, ◌+◌, ◌-◌, ◌%◌, ◌^◌, ◌≡◌, ◌≢◌, ◌≤◌, ◌<◌, refl, sym, ◌∙◌, ap, Bool, true, false, not,
  List, [], ◌∷◌, ◌++◌, length, ltb, leb, ◌==◌, if◌then◌else◌, Outcome, ok, err, panic, ◌>>=◌, arith,
  length-append, Bool-cases, inl, inr, ◌⊎◌, append_assoc, append-nil, le→ltb, lt→leb, ltb→lt,
  ltb_false→le,
}
use smb1client.Common.Int.{ℤ, pos, negsuc}
use smb1client.Wire.{
  Bytes, AllBytes, IsByte, IsU16, IsU32, IsU64, put_u16, put_u32, put_u64, u16_of, u32_of, u64_of,
  index, cut, byte_at, slice,
}
use smb1client.Wire.Codec.{u16_of-put, u32_of-put, u64_of-put}
use smb1client.Wire.Cuts.{cut-append, index-append, cut-slice, index_in_range}

pub data ValueError : Type 0 where
  unsupported_type out_of_range : ValueError

-- An argument of `EncodeParameters`, by its dynamic type.
pub data Value : Type 0 where
  uint8 uint16 uint32 uint64 : ℕ → Value
  bytes : Bytes → Value
  unsupported : Value

unfoldable pub value_bytes : Value → Outcome ValueError Bytes
value_bytes (uint8 v) = ok (v ∷ [])
value_bytes (uint16 v) = ok (put_u16 v)
value_bytes (uint32 v) = ok (put_u32 v)
value_bytes (uint64 v) = ok (put_u64 v)
value_bytes (bytes b) = ok b
value_bytes unsupported = err unsupported_type

-- The loop, from the buffer so far on.
unfoldable pub append_values : Bytes → List Value → Outcome ValueError Bytes
append_values buf [] = ok buf
append_values buf (v ∷ vs) = do b ← value_bytes v; append_values (buf ++ b) vs

unfoldable pub pad_even : Bytes → Bytes
pad_even buf = if not (length buf % 2 == 0) then buf ++ (0 ∷ []) else buf

unfoldable pub encode_parameters : List Value → Outcome ValueError Bytes
encode_parameters vs = do buf ← append_values [] vs; ok (pad_even buf)

unfoldable pub decode_uint8 : Bytes → ℤ → Outcome ValueError ℕ
decode_uint8 buf (negsuc _) = err out_of_range
decode_uint8 buf (pos i) = if leb (length buf) i then err out_of_range else index buf i

-- `offset+n > len(buf)`, where the sum of two non-negative numbers may wrap to a negative one.
abbrev pub passes_end : Bytes → ℕ → ℕ → Bool
passes_end buf i n = if leb (2 ^ 63) (i + n) then false else ltb (length buf) (i + n)

-- `buf[offset : offset+n]` behind that test; a sum that has wrapped is out of the slice's range.
unfoldable pub field_at : Bytes → ℤ → ℕ → Outcome ValueError Bytes
field_at buf (negsuc _) n = err out_of_range
field_at buf (pos i) n =
    if passes_end buf i n
    then err out_of_range
    else if leb (2 ^ 63) (i + n)
    then panic
    else cut buf i (i + n)

unfoldable pub decode_uint16 : Bytes → ℤ → Outcome ValueError ℕ
decode_uint16 buf offset = do b ← field_at buf offset 2; ok (u16_of b)

unfoldable pub decode_uint32 : Bytes → ℤ → Outcome ValueError ℕ
decode_uint32 buf offset = do b ← field_at buf offset 4; ok (u32_of b)

unfoldable pub decode_uint64 : Bytes → ℤ → Outcome ValueError ℕ
decode_uint64 buf offset = do b ← field_at buf offset 8; ok (u64_of b)

-- A negative length passes the test unless what is left still passes the end; `make` then panics.
unfoldable pub decode_bytes : Bytes → ℤ → ℤ → Outcome ValueError Bytes
decode_bytes buf offset (pos n) = field_at buf offset n
decode_bytes buf (negsuc _) (negsuc n) = err out_of_range
decode_bytes buf (pos i) (negsuc n) = if ltb (length buf + suc n) i then err out_of_range else panic

-- The bytes of a value, by its type's width.
abbrev pub IsValue : Value → Type 0
IsValue (uint8 v) = IsByte v
IsValue (uint16 v) = IsU16 v
IsValue (uint32 v) = IsU32 v
IsValue (uint64 v) = IsU64 v
IsValue (bytes b) = AllBytes b
IsValue unsupported = Unit {0}
