-- ===== src/Wire/Cuts.antt =====
-- Checked accesses to a slice that is known as a concatenation.
use smb1client.Common.{
  take_all, refl, drop, zero, suc, sym, take-append-drop, length-take, length-drop, ℕ, ◌+◌, ◌-◌,
  ◌≤◌, ◌<◌, ◌≡◌, [], ◌∷◌, ◌++◌, length, ok, length-append, take-append, drop-append, arith, leb,
  ◌&&◌, ap, ◌∙◌, true, lt→ltb, get_or-append_right,
}
use smb1client.Wire.{Bytes, index, cut, slice, byte_at}

in_range : (lo hi n : ℕ) → lo ≤ hi → hi ≤ n → (leb lo hi && leb hi n) ≡ true
in_range lo hi n h k = ground arith

-- `b[lo:hi]` of `front ++ mid ++ back`, when `lo` and `hi` are where `mid` begins and ends.
pub cut-append {κ} :
    {E : Type κ} (raw front mid back : Bytes) (lo hi : ℕ)
    → raw ≡ front ++ (mid ++ back)
    → length front ≡ lo
    → lo + length mid ≡ hi
    → cut {E = E} raw lo hi ≡ ok mid
unfolding cut
cut-append {E} raw front mid back lo hi e hl hh = rw (
  e,
  in_range lo hi (length (front ++ (mid ++ back))) (omega arith)
      (omega (arith, length-append front (mid ++ back), length-append mid back)),
  drop-append lo front (mid ++ back) hl,
  take-append (hi - lo) mid back (omega arith),
)

pub index-append {κ} :
    {E : Type κ} (raw front back : Bytes) (x i : ℕ)
    → raw ≡ front ++ (x ∷ back)
    → length front ≡ i
    → index {E = E} raw i ≡ ok x
unfolding index
index-append raw front back x i e hi =
    rw (e, lt→ltb i (length (front ++ (x ∷ back))) (omega (arith, length-append front (x ∷ back))))
      (ap ok (
        ap (λ (k : ℕ). byte_at (front ++ (x ∷ back)) k) (omega arith)
        ∙ get_or-append_right front (x ∷ back) 0 0))

-- In range, an access does not panic.
pub cut-slice {κ} :
    {E : Type κ} (raw : Bytes) (lo n hi : ℕ)
    → lo + n ≡ hi
    → hi ≤ length raw
    → cut {E = E} raw lo hi ≡ ok (slice raw lo n)
unfolding cut
cut-slice raw lo n hi e h =
    let width : hi - lo ≡ n = omega arith in rw (in_range lo hi (length raw) (omega arith) h, width)

pub index_in_range {κ} :
    {E : Type κ} (raw : Bytes) (i : ℕ) → i < length raw → index {E = E} raw i ≡ ok (byte_at raw i)
unfolding index
index_in_range raw i h = rw (lt→ltb i (length raw) h)

-- Taking a slice apart: its first byte, and its first `n` bytes.
pub drop_cons :
    (raw : Bytes) (i j : ℕ) → i < length raw → suc i ≡ j → drop i raw ≡ byte_at raw i ∷ drop j raw
drop_cons [] i j h e = absurd (omega arith)
drop_cons (x ∷ raw) zero j h e = ap (λ (k : ℕ). x ∷ drop k (x ∷ raw)) e
drop_cons (x ∷ raw) (suc i) zero h e = absurd (omega arith)
drop_cons (x ∷ raw) (suc i) (suc j) h e = drop_cons raw i j (omega arith) (omega arith)

pub drop-drop : (raw : Bytes) (i n k : ℕ) → i + n ≡ k → drop n (drop i raw) ≡ drop k raw
drop-drop raw zero n k e = ap (λ (m : ℕ). drop m raw) (omega arith)
drop-drop [] (suc i) zero zero e = refl
drop-drop [] (suc i) zero (suc k) e = refl
drop-drop [] (suc i) (suc n) zero e = refl
drop-drop [] (suc i) (suc n) (suc k) e = refl
drop-drop (x ∷ raw) (suc i) n zero e = absurd (omega arith)
drop-drop (x ∷ raw) (suc i) n (suc k) e = drop-drop raw i n k (omega arith)

pub drop-slice : (raw : Bytes) (i n k : ℕ) → i + n ≡ k → drop i raw ≡ slice raw i n ++ drop k raw
drop-slice raw i n k e =
    sym (take-append-drop n (drop i raw))
    ∙ ap (λ (t : Bytes). slice raw i n ++ t) (drop-drop raw i n k e)

pub length-slice : (raw : Bytes) (i n : ℕ) → i + n ≤ length raw → length (slice raw i n) ≡ n
length-slice raw i n h = omega (arith, length-take n (drop i raw), length-drop i raw)

pub slice_to_end : (raw : Bytes) (i n : ℕ) → length raw ≤ i + n → slice raw i n ≡ drop i raw
slice_to_end raw i n h = take_all n (drop i raw) (omega (arith, length-drop i raw))
