-- ===== src/Client/File/Listing/Pages.antt =====
-- A directory that is read page by page, and the last element of a path.
use smb1client.Common.{
  ◌≤◌, ltb, false, none, if◌then◌else◌, ℕ, zero, suc, ◌+◌, ◌-◌, ◌<◌, ◌≡◌, inl, inr, refl, sym, ap,
  ◌∙◌, some, List, [], ◌∷◌, ◌++◌, length, leb, min, take, drop, arith, Bool-cases, take_all,
  take-append-drop, length-drop, drop_all,
}
use smb1client.Client.File.{File}
use smb1client.Client.File.Listing.{
  FileStat, end_of_listing, listed, page, turns, max_int, next_page, readdir, read_pages,
}

drop-drop : (n m k : ℕ) (xs : List FileStat) → n + m ≡ k → drop m (drop n xs) ≡ drop k xs
drop-drop zero m k xs e = ap (λ (i : ℕ). drop i xs) (omega arith)
drop-drop (suc n) m zero xs e = absurd (omega arith)
drop-drop (suc n) zero (suc k) [] e = refl
drop-drop (suc n) (suc m) (suc k) [] e = refl
drop-drop (suc n) m (suc k) (x ∷ xs) e = drop-drop n m k xs (omega arith)

-- One page: the next entries and, with the last, `io.EOF`.
next_page_lem :
    (n : ℕ) (entries : List FileStat) (f : File)
    → length entries + n ≤ max_int
    → next_page n entries f ≡ (
        if leb (length entries) f.offset
        then turns (page [] (some end_of_listing) f)
        else turns (
            page
              (take n (drop f.offset entries))
              (if leb (length entries) (f.offset + n) then some end_of_listing else none)
              (record f { offset = min (f.offset + n) (length entries) })))
unfolding next_page
next_page_lem n entries f small = elim (Bool-cases (leb (length entries) f.offset)) [
  | inl at_end ↦ rw at_end refl
  | inr inside ↦
      let fits : ltb max_int (f.offset + n) ≡ false = ground (arith, inside, small) in
      rw (inside, fits) refl
]

-- Page after page of at least one entry, where the entries and a page are together no more than the
-- largest `int`, the entries from the file's offset on come once each and in order, and then `io.EOF`;
-- there are at most as many pages as entries, and one, and none of the calls panics.
pub read_pages_lem :
    (fuel n : ℕ) (entries : List FileStat) (f : File)
    → length entries - f.offset < fuel
    → length entries + suc n ≤ max_int
    → read_pages fuel (listed entries) (suc n) f ≡ some (drop f.offset entries, some end_of_listing)
unfolding read_pages readdir
read_pages_lem zero n entries f enough small = absurd (omega arith)
read_pages_lem (suc fuel) n entries f enough small =
    elim (Bool-cases (leb (length entries) f.offset)) [
      | inl at_end ↦
          rw
            (
              next_page_lem (suc n) entries f small,
              at_end,
              drop_all f.offset entries (ground (arith, at_end)),
            )
            refl
      | inr inside ↦ elim (Bool-cases (leb (length entries) (f.offset + suc n))) [
        | inl last ↦
            rw
              (
                next_page_lem (suc n) entries f small,
                inside,
                last,
                take_all (suc n) (drop f.offset entries)
                    (ground (arith, last, length-drop f.offset entries)),
              )
              refl
        | inr more ↦
            let next : f.offset + suc n ≡ min (f.offset + suc n) (length entries) =
              ground (arith, more) in
            rw
              (
                next_page_lem (suc n) entries f small,
                inside,
                more,
                read_pages_lem fuel n entries
                    (record f { offset = min (f.offset + suc n) (length entries) })
                    (ground (arith, inside, more, enough)) small,
              )
              (ap
                  (λ (l : List FileStat).
                    some (take (suc n) (drop f.offset entries) ++ l, some end_of_listing))
                  (sym (drop-drop f.offset (suc n) _ entries next))
                ∙ ap (λ (l : List FileStat). some (l, some end_of_listing))
                    (take-append-drop (suc n) (drop f.offset entries)))
      ]
    ]
