-- ===== src/Client/File/Writes/Overwrite.antt =====
-- Writing bytes into a file one behind the other.
use smb1client.Common.{
  ℕ, ◌+◌, ◌-◌, ◌≡◌, refl, sym, ap, ◌∙◌, [], ◌∷◌, ◌++◌, length, take, drop, replicate, arith,
  append-nil, append_assoc, take-append, drop-append, length-append, length-take, length-replicate,
}
use smb1client.Wire.{Bytes}
use smb1client.Wire.Cuts.{drop-drop}

-- A file with bytes written at an offset; a gap before them is filled with zeros.
abbrev pub overwrite : Bytes → ℕ → Bytes → Bytes
overwrite file offset [] = file
overwrite file offset (b ∷ bytes) =
    take offset (file ++ replicate (offset - length file) 0)
    ++ ((b ∷ bytes) ++ drop (offset + length (b ∷ bytes)) file)

-- Writing `b` right behind `a`, which stands behind `front`.
module _ (file front a b : Bytes) (offset next : ℕ) (reaches : length front ≡ offset)
    (at : next ≡ offset + length a) where
  abbrev inner : Bytes
  inner = front ++ (a ++ drop (offset + length a) file)

  inner_split : inner ≡ (front ++ a) ++ drop (offset + length a) file
  inner_split = sym (append_assoc front a (drop (offset + length a) file))

  until_next : length (front ++ a) ≡ next
  until_next = length-append front a ∙ omega arith

  no_gap : next - length inner ≡ 0
  no_gap = omega (
    arith,
    length-append front (a ++ drop (offset + length a) file),
    length-append a (drop (offset + length a) file),
  )

  gap_filled : take next (inner ++ replicate (next - length inner) 0) ≡ front ++ a
  gap_filled =
      ap (λ (k : ℕ). take next (inner ++ replicate k 0)) no_gap
      ∙ ap (λ (l : Bytes). take next l) (append-nil inner ∙ inner_split)
      ∙ take-append next (front ++ a) (drop (offset + length a) file) until_next

  behind : drop (next + length b) inner ≡ drop (offset + length (a ++ b)) file
  behind =
      sym (drop-drop inner next (length b) _ refl)
      ∙ ap (λ (l : Bytes). drop (length b) l)
          (ap (λ (l : Bytes). drop next l) inner_split
            ∙ drop-append next (front ++ a) (drop (offset + length a) file) until_next)
      ∙ drop-drop file (offset + length a) (length b) _ (omega (arith, length-append a b))

  splice_over :
      take next (inner ++ replicate (next - length inner) 0) ++ (b ++ drop (next + length b) inner)
      ≡ front ++ ((a ++ b) ++ drop (offset + length (a ++ b)) file)
  splice_over =
      rw (gap_filled, behind)
        (append_assoc front a (b ++ drop (offset + length (a ++ b)) file)
          ∙ ap (λ (l : Bytes). front ++ l)
              (sym (append_assoc a b (drop (offset + length (a ++ b)) file))))

pub overwrite-overwrite :
    (file : Bytes) (offset next : ℕ) (xs ys : Bytes)
    → next ≡ offset + length xs
    → overwrite (overwrite file offset xs) next ys ≡ overwrite file offset (xs ++ ys)
overwrite-overwrite file offset next [] [] e = refl
overwrite-overwrite file offset next [] (y ∷ ys) e =
    ap (λ (k : ℕ). overwrite file k (y ∷ ys)) (omega arith)
overwrite-overwrite file offset next (x ∷ xs) [] e =
    ap (λ (l : Bytes). overwrite file offset (x ∷ l)) (sym (append-nil xs))
overwrite-overwrite file offset next (x ∷ xs) (y ∷ ys) e =
    splice_over file (take offset (file ++ replicate (offset - length file) 0)) (x ∷ xs) (y ∷ ys)
      offset next
      (omega (
        arith,
        length-take offset (file ++ replicate (offset - length file) 0),
        length-append file (replicate (offset - length file) 0),
        length-replicate {A = ℕ} (offset - length file) 0,
      ))
      e
