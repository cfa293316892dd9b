-- ===== src/Share/Globs/Found.antt =====
-- What a glob finds.
use smb1client.Common.{
  sym, ap, ◌∙◌, not, ◌&&◌, ◌==◌, ==_iff, if◌then◌else◌, append_assoc, ℕ, zero, suc, ◌≡◌, ◌⊎◌, inl,
  inr, refl, Bool, true, false, some, List, [], ◌∷◌, ◌++◌, All, All-append, Bool-cases,
  Option-cases,
}
use smb1client.Wire.{Bytes}
use smb1client.Share.Paths.{dot, same_bytes, path_separator, contains}
use smb1client.Share.Match.{
  MatchEnd, is_match, malformed, match_unfinished, norm_pattern, has_glob_meta, is_empty,
  match_name,
}
use smb1client.Share.Globs.{
  Lister, split_last_sep, clean_glob_dir, join_glob, GlobEnd, globs, glob_malformed,
  glob_unfinished, take_entry, glob_entries, glob_listed, glob_dir, go_on, glob_dirs, expand,
  glob_checked, check_pattern, glob_with,
}

abbrev pub IsIn : Bytes → List Bytes → Type 0
IsIn x [] = ⊥
IsIn x (y ∷ ys) = (x ≡ y) ⊎ IsIn x ys

module _ (decode : Bytes → ℕ × ℕ) (normalizes : Bool) (sort : List Bytes → List Bytes)
    (fs : Lister) where
  -- What is behind the last separator of a pattern.
  abbrev pub IsLastPart : Bytes → Bytes → Type 0
  IsLastPart file pattern =
      (contains path_separator file ≡ false)
      × ((pattern ≡ file) ⊎ ((front : Bytes) × (front ++ (path_separator ∷ file) ≡ pattern)))

  -- An entry of a directory that matches the pattern's last part; or the pattern itself, where it has no
  -- special bytes and is a path that is there.
  abbrev pub IsFound : Bytes → Bytes → Type 0
  IsFound pattern path =
      ((dir : Bytes) × (entry : Bytes) × (entries : List Bytes) × (file : Bytes) × (path
          ≡ join_glob dir entry)
        × (fs.read_dir dir ≡ some entries)
        × IsIn entry entries
        × IsLastPart file pattern
        × (match_name decode normalizes file entry ≡ is_match true))
      ⊎ (path ≡ pattern) × (fs.exists path ≡ true) × (has_glob_meta pattern ≡ false)

  abbrev pub AllFound : Bytes → GlobEnd → Type 0
  AllFound pattern (globs matches) = All (IsFound pattern) matches
  AllFound pattern (glob_malformed matches) = All (IsFound pattern) matches
  AllFound pattern glob_unfinished = Unit

  -- Two parts of a pattern, the first of which ends with a separator if it is not empty.
  IsSplit : Bytes → Bytes × Bytes → Type 0
  IsSplit pattern (front, file) =
      (front ++ file ≡ pattern)
      × (contains path_separator file ≡ false)
      × ((front ≡ []) ⊎ ((f : Bytes) × (f ++ (path_separator ∷ []) ≡ front)))

  extend-IsSplit :
      (x : ℕ) (xs front file : Bytes)
      → IsSplit xs (front, file)
      → IsSplit (x ∷ xs) (
          if is_empty front && not (x == path_separator) then ([], x ∷ file) else (x ∷ front, file))
  unfolding IsSplit
  extend-IsSplit x xs [] file (whole, clean, ends) = elim (Bool-cases (x == path_separator)) [
    | inl e ↦ rw e (
      ap (λ (l : Bytes). x ∷ l) whole,
      clean,
      inr ([], ap (λ (y : ℕ). y ∷ []) (sym ((==_iff x path_separator).0 e))),
    )
    | inr e ↦ rw e (ap (λ (l : Bytes). x ∷ l) whole, rw e clean, inl refl)
  ]
  extend-IsSplit x xs (y ∷ front) file (whole, clean, inl none_left) = absurd (cc)
  extend-IsSplit x xs (y ∷ front) file (whole, clean, inr (f, ends)) =
      (ap (λ (l : Bytes). x ∷ l) whole, clean, inr (x ∷ f, ap (λ (l : Bytes). x ∷ l) ends))

  split_last_sep-IsSplit : (pattern : Bytes) → IsSplit pattern (split_last_sep pattern)
  unfolding split_last_sep IsSplit
  split_last_sep-IsSplit [] = (refl, refl, inl refl)
  split_last_sep-IsSplit (x ∷ xs) = extend-IsSplit x xs _ _ (split_last_sep-IsSplit xs)

  last_part : (pattern front file : Bytes) → IsSplit pattern (front, file) → IsLastPart file pattern
  unfolding IsSplit
  last_part pattern front file (whole, clean, inl bare) = (clean, inl (rw bare at (sym whole)))
  last_part pattern front file (whole, clean, inr (f, ends)) = (
    clean,
    inr (
      f,
      sym (append_assoc f (path_separator ∷ []) file) ∙ ap (λ (l : Bytes). l ++ file) ends ∙ whole,
    ),
  )

  split_last_sep-IsLastPart : (pattern : Bytes) → IsLastPart (split_last_sep pattern).1 pattern
  split_last_sep-IsLastPart pattern = last_part pattern _ _ (split_last_sep-IsSplit pattern)

  module _
      (sort_keeps : (P : Bytes → Type 0) (paths : List Bytes) → All P paths → All P (sort paths))
      (pattern : Bytes) where
    take_entry-AllFound :
        (dir entry : Bytes) (matches : List Bytes) (m : MatchEnd) (next : List Bytes → GlobEnd)
        → ((m ≡ is_match true) → IsFound pattern (join_glob dir entry))
        → All (IsFound pattern) matches
        → ((matches' : List Bytes)
            → All (IsFound pattern) matches'
            → AllFound pattern (next matches'))
        → AllFound pattern (take_entry decode normalizes sort fs dir entry matches m next)
    unfolding take_entry
    take_entry-AllFound dir entry matches (is_match true) next is_found found rest =
        rest (matches ++ (join_glob dir entry ∷ [])) (
          All-append (IsFound pattern) matches (join_glob dir entry ∷ []) found (is_found refl, tt))
    take_entry-AllFound dir entry matches (is_match false) next is_found found rest =
        rest matches found
    take_entry-AllFound dir entry matches malformed next is_found found rest = found
    take_entry-AllFound dir entry matches match_unfinished next is_found found rest = tt

    -- The entries that are still to be looked at are the directory's.
    glob_entries-AllFound :
        (dir file : Bytes) (last : IsLastPart file pattern) (all entries matches : List Bytes)
        → fs.read_dir dir ≡ some all
        → All (λ (e : Bytes). IsIn e all) entries
        → All (IsFound pattern) matches
        → AllFound pattern (glob_entries decode normalizes sort fs dir file entries matches)
    unfolding glob_entries
    glob_entries-AllFound dir file last all [] matches listed inside found =
        sort_keeps (IsFound pattern) matches found
    glob_entries-AllFound dir file last all (entry ∷ entries) matches listed (here, inside) found =
        take_entry-AllFound dir entry matches (match_name decode normalizes file entry) _
          (λ is. inl (dir, entry, all, file, refl, listed, here, last, is)) found
          (λ matches' found'.
            glob_entries-AllFound dir file last all entries matches' listed inside found')

    glob_listed-AllFound :
        (dir file : Bytes) (last : IsLastPart file pattern) (matches : List Bytes)
        → All (IsFound pattern) matches
        → AllFound pattern
            (glob_listed decode normalizes sort fs dir file matches (fs.read_dir dir))
    unfolding glob_listed
    glob_listed-AllFound dir file last matches found = elim (Option-cases (fs.read_dir dir)) [
      | inl fails ↦ rw fails found
      | inr (entries, listed) ↦ rw listed (
          glob_entries-AllFound dir file last entries entries matches listed (all_in entries) found)
    ]
      where
        deeper :
            (x : Bytes) (ys zs : List Bytes)
            → All (λ (e : Bytes). IsIn e ys) zs
            → All (λ (e : Bytes). IsIn e (x ∷ ys)) zs
        deeper x ys [] h = tt
        deeper x ys (z ∷ zs) (here, rest) = (inr here, deeper x ys zs rest)

        all_in : (ys : List Bytes) → All (λ (e : Bytes). IsIn e ys) ys
        all_in [] = tt
        all_in (y ∷ ys) = (inl refl, deeper y ys ys (all_in ys))

    glob_dir-AllFound :
        (dir file : Bytes) (last : IsLastPart file pattern) (matches : List Bytes)
        → All (IsFound pattern) matches
        → AllFound pattern (glob_dir decode normalizes sort fs dir file matches)
    unfolding glob_dir
    glob_dir-AllFound dir file last matches found = elim (Bool-cases (same_bytes dir (dot ∷ []))) [
      | inl root ↦ rw root (glob_listed-AllFound [] file last matches found)
      | inr other ↦ elim (Bool-cases (fs.is_dir dir)) [
        | inl there ↦ rw (other, there) (glob_listed-AllFound dir file last matches found)
        | inr missing ↦ rw (other, missing) found
      ]
    ]

    go_on-AllFound :
        (r : GlobEnd) (next : List Bytes → GlobEnd)
        → AllFound pattern r
        → ((matches : List Bytes) → All (IsFound pattern) matches → AllFound pattern (next matches))
        → AllFound pattern (go_on r next)
    unfolding go_on
    go_on-AllFound (globs matches) next found rest = rest matches found
    go_on-AllFound (glob_malformed matches) next found rest = found
    go_on-AllFound glob_unfinished next found rest = tt

    glob_dirs-AllFound :
        (file : Bytes) (last : IsLastPart file pattern) (dirs matches : List Bytes)
        → All (IsFound pattern) matches
        → AllFound pattern (glob_dirs decode normalizes sort fs file dirs matches)
    unfolding glob_dirs
    glob_dirs-AllFound file last [] matches found = found
    glob_dirs-AllFound file last (d ∷ ds) matches found =
        go_on-AllFound (glob_dir decode normalizes sort fs d file matches) _
          (glob_dir-AllFound d file last matches found)
          (λ matches' found'. glob_dirs-AllFound file last ds matches' found')

    expand-AllFound :
        (file : Bytes) (last : IsLastPart file pattern) (r : GlobEnd)
        → AllFound pattern (expand decode normalizes sort fs file r)
    unfolding expand
    expand-AllFound file last (globs dirs) = glob_dirs-AllFound file last dirs [] tt
    expand-AllFound file last (glob_malformed matches) = tt
    expand-AllFound file last glob_unfinished = tt

    glob_checked-AllFound :
        (again : Bytes → GlobEnd)
        → AllFound pattern (glob_checked decode normalizes sort fs pattern again)
    unfolding glob_checked
    glob_checked-AllFound again = elim (Bool-cases (has_glob_meta pattern)) [
      | inr literal ↦ elim (Bool-cases (fs.exists pattern)) [
        | inl there ↦ rw (literal, there) (inr (refl, there, literal), tt)
        | inr missing ↦ rw (literal, missing) tt
      ]
      | inl wild ↦ elim (Bool-cases (has_glob_meta (clean_glob_dir (split_last_sep pattern).0))) [
        | inr plain ↦
            rw (wild, plain)
              (glob_dir-AllFound _ (split_last_sep pattern).1 (split_last_sep-IsLastPart pattern) []
                tt)
        | inl deep ↦
            elim (Bool-cases (same_bytes (clean_glob_dir (split_last_sep pattern).0) pattern)) [
              | inl fixed ↦ rw (wild, deep, fixed) tt
              | inr shorter ↦
                  rw (wild, deep, shorter)
                    (expand-AllFound (split_last_sep pattern).1 (split_last_sep-IsLastPart pattern)
                      (again (clean_glob_dir (split_last_sep pattern).0)))
            ]
      ]
    ]

  -- Whatever a glob returns, also beside an error, is an entry of a directory that was listed, joined to
  -- it, whose name matches what is behind the last separator of the normalized pattern; or it is that
  -- pattern itself, without special bytes, as a path that is there.
  pub glob_with-AllFound :
      (sort_keeps : (P : Bytes → Type 0) (paths : List Bytes) → All P paths → All P (sort paths))
      (fuel : ℕ) (pattern : Bytes)
      → AllFound
          (norm_pattern normalizes pattern)
          (glob_with decode normalizes sort fs fuel pattern)
  unfolding glob_with check_pattern
  glob_with-AllFound sort_keeps zero pattern = tt
  glob_with-AllFound sort_keeps (suc fuel) pattern =
      by_match (match_name decode normalizes (norm_pattern normalizes pattern) [])
    where
      by_match :
          (m : MatchEnd)
          → AllFound (norm_pattern normalizes pattern) (
              check_pattern decode normalizes sort fs m
                (norm_pattern normalizes pattern)
                (λ dir. glob_with decode normalizes sort fs fuel dir))
      by_match (is_match b) = glob_checked-AllFound sort_keeps (norm_pattern normalizes pattern) _
      by_match malformed = tt
      by_match match_unfinished = tt
