-- ===== src/Smb1/Header/Status.antt =====
-- Which NT statuses `IsError` takes for errors.
use Prim.Native.Nat.{bit_and}
use smb1client.Common.Bits.{bit_and-shift_left, bit_and_three, shift_right}
use smb1client.Common.{ℕ, ◌*◌, ◌/◌, ◌^◌, ◌≤◌, ◌≡◌, ◌≢◌, ◌↔◌, true, arith}
use smb1client.Wire.{IsU32}
use smb1client.Smb1.Header.{Header, is_error, status_more_processing_required}

bit_and_top : (s : ℕ) → IsU32 s → bit_and s 0xC000_0000 ≡ s / 0x4000_0000 * 0x4000_0000
bit_and_top s h =
    omega (arith, bit_and-shift_left 30 s 3, bit_and_three (shift_right 30 s) (omega arith))

-- A 32-bit status is an error exactly when its severity bits, the top two, are both set and it is
-- not the one that asks for another round of authentication.
pub is_error_iff :
    (h : Header)
    → IsU32 h.status
    → (is_error h ≡ true) ↔ ((3 * 2 ^ 30 ≤ h.status) × (h.status ≢ status_more_processing_required))
unfolding is_error
is_error_iff h v = ground (arith, bit_and_top h.status v)
