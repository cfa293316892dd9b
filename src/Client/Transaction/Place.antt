-- ===== src/Client/Transaction/Place.antt =====
-- `placeFragment` on a buffer that is filled from the front.
use smb1client.Common.{
  ℕ, zero, suc, ◌+◌, ◌-◌, ◌≤◌, ◌≡◌, refl, [], ◌∷◌, ◌++◌, length, replicate, drop, ok, arith, le→ltb,
  take-append, length-append, length-replicate, append_assoc, append-nil,
}
use smb1client.Wire.{Bytes}
use smb1client.Client.Transaction.{place_fragment, TransactionError}

-- A buffer whose first bytes are filled and whose others are zero.
abbrev pub filled : Bytes → ℕ → Bytes
filled front rest = front ++ replicate rest 0

drop-replicate : (n k : ℕ) → drop {A = ℕ} n (replicate k 0) ≡ replicate (k - n) 0
drop-replicate zero k = let e : k - 0 ≡ k = omega arith in rw e
drop-replicate (suc n) zero = let e : 0 - suc n ≡ 0 = omega arith in rw e
drop-replicate (suc n) (suc k) =
    let e : suc k - suc n ≡ k - n = omega arith in rw e (drop-replicate n k)

drop-filled :
    (front : Bytes) (n rest k : ℕ)
    → length front + n ≡ k
    → drop k (filled front rest) ≡ replicate (rest - n) 0
drop-filled [] n rest k e = let same : k ≡ n = omega arith in rw same (drop-replicate n rest)
drop-filled (x ∷ front) n rest zero e = absurd (omega arith)
drop-filled (x ∷ front) n rest (suc k) e = drop-filled front n rest k (omega arith)

-- A fragment at the end of what is filled extends it.
pub place_fragment-filled :
    (overflow : TransactionError) (front frag : Bytes) (rest : ℕ)
    → length frag ≤ rest
    → place_fragment overflow (filled front rest) frag (length front)
      ≡ ok (filled (front ++ frag) (rest - length frag))
unfolding place_fragment
place_fragment-filled overflow front [] rest h =
    let same : rest - 0 ≡ rest = omega arith in rw (append-nil, same)
place_fragment-filled overflow front (b ∷ frag) rest h = rw (
  le→ltb (length (filled front rest)) (length front + length (b ∷ frag)) (
      omega
        (arith, length-append front (replicate {A = ℕ} rest 0), length-replicate {A = ℕ} rest 0)),
  take-append (length front) front (replicate {A = ℕ} rest 0) refl,
  drop-filled front (length (b ∷ frag)) rest (length front + length (b ∷ frag)) refl,
  append_assoc front (b ∷ frag) (replicate {A = ℕ} (rest - length (b ∷ frag)) 0),
)
