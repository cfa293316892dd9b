-- ===== src/Share/Globs/Total.antt =====
-- A glob ends, on any pattern and any share.
use smb1client.Common.{
  ℕ, zero, suc, ◌≤◌, ◌<◌, ◌≡◌, ◌≢◌, inl, inr, refl, sym, ap, ◌∙◌, Bool, true, false, Option, none,
  some, List, [], ◌∷◌, length, arith, Bool-cases,
}
use smb1client.Wire.{Bytes}
use smb1client.Share.Paths.{path_separator, same_bytes, replace_slashes}
use smb1client.Share.Paths.Roots.{same_bytes_iff}
use smb1client.Share.Match.{
  MatchEnd, is_match, malformed, match_unfinished, norm_pattern, drop_dots, has_glob_meta,
  match_name,
}
use smb1client.Share.Match.Total.{match_name-ne-unfinished}
use smb1client.Share.Globs.{
  Lister, split_last_sep, chop_last, clean_glob_dir, GlobEnd, globs, glob_malformed,
  glob_unfinished, take_entry, glob_entries, glob_listed, glob_dir, go_on, glob_dirs, expand,
  glob_checked, check_pattern, glob_with,
}

length-split_last_sep : (pattern : Bytes) → length (split_last_sep pattern).0 ≤ length pattern
unfolding split_last_sep
length-split_last_sep [] = omega arith
length-split_last_sep (x ∷ xs) = ground (arith, length-split_last_sep xs)

length-chop_last : (x : ℕ) (xs : Bytes) → length (chop_last (x ∷ xs)) ≡ length xs
unfolding chop_last
length-chop_last x [] = refl
length-chop_last x (y ∷ xs) = ap suc (length-chop_last y xs)

length-drop_dots : (pattern : Bytes) → length (drop_dots pattern) ≤ length pattern
unfolding drop_dots
length-drop_dots [] = omega arith
length-drop_dots (a ∷ []) = omega arith
length-drop_dots (a ∷ b ∷ rest) = ground (arith, length-drop_dots rest)

length-replace_slashes : (path : Bytes) → length (replace_slashes path) ≡ length path
length-replace_slashes [] = refl
length-replace_slashes (x ∷ xs) = ap suc (length-replace_slashes xs)

length-norm_pattern :
    (normalizes : Bool) (pattern : Bytes)
    → length (norm_pattern normalizes pattern) ≤ length pattern
unfolding norm_pattern
length-norm_pattern true pattern =
    omega (arith, length-drop_dots (replace_slashes pattern), length-replace_slashes pattern)
length-norm_pattern false pattern = omega arith

-- A directory part with a wildcard is shorter than what it is the directory part of.
clean_glob_dir-shorter :
    (dir : Bytes)
    → has_glob_meta (clean_glob_dir dir) ≡ true
    → length (clean_glob_dir dir) < length dir
unfolding clean_glob_dir
clean_glob_dir-shorter [] h = absurd (cc)
clean_glob_dir-shorter (x ∷ xs) h = elim (Bool-cases (same_bytes (x ∷ xs) (path_separator ∷ []))) [
  | inl root ↦
      let is : x ∷ xs ≡ path_separator ∷ [] = same_bytes_iff (x ∷ xs) (path_separator ∷ []) root in
      let impossible : false ≡ true =
        sym (ap (λ (l : Bytes). has_glob_meta (clean_glob_dir l)) is) ∙ h in
      absurd (cc)
  | inr other ↦ rw other (omega (arith, length-chop_last x xs))
]

module _ (decode : Bytes → ℕ × ℕ) (has_width : (x : ℕ) (name : Bytes) → 0 < (decode (x ∷ name)).1)
    (normalizes : Bool) (sort : List Bytes → List Bytes) (fs : Lister) where
  take_entry-ne-unfinished :
      (dir entry : Bytes) (matches : List Bytes) (m : MatchEnd) (next : List Bytes → GlobEnd)
      → m ≢ match_unfinished
      → ((matches' : List Bytes) → next matches' ≢ glob_unfinished)
      → take_entry decode normalizes sort fs dir entry matches m next ≢ glob_unfinished
  unfolding take_entry
  take_entry-ne-unfinished dir entry matches (is_match true) next ends rest e = rest _ e
  take_entry-ne-unfinished dir entry matches (is_match false) next ends rest e = rest matches e
  take_entry-ne-unfinished dir entry matches malformed next ends rest e = absurd (cc)
  take_entry-ne-unfinished dir entry matches match_unfinished next ends rest e = ends refl

  glob_entries-ne-unfinished :
      (dir file : Bytes) (entries matches : List Bytes)
      → glob_entries decode normalizes sort fs dir file entries matches ≢ glob_unfinished
  unfolding glob_entries
  glob_entries-ne-unfinished dir file [] matches e = absurd (cc)
  glob_entries-ne-unfinished dir file (entry ∷ entries) matches e =
      take_entry-ne-unfinished dir entry matches (match_name decode normalizes file entry) _
        (match_name-ne-unfinished decode has_width normalizes file entry)
        (λ matches'. glob_entries-ne-unfinished dir file entries matches') e

  glob_listed-ne-unfinished :
      (dir file : Bytes) (matches : List Bytes) (listed : Option (List Bytes))
      → glob_listed decode normalizes sort fs dir file matches listed ≢ glob_unfinished
  unfolding glob_listed
  glob_listed-ne-unfinished dir file matches none e = absurd (cc)
  glob_listed-ne-unfinished dir file matches (some entries) e =
      glob_entries-ne-unfinished dir file entries matches e

  glob_dir-ne-unfinished :
      (dir file : Bytes) (matches : List Bytes)
      → glob_dir decode normalizes sort fs dir file matches ≢ glob_unfinished
  unfolding glob_dir
  glob_dir-ne-unfinished dir file matches e = ground (
    arith,
    e,
    glob_listed-ne-unfinished [] file matches (fs.read_dir []),
    glob_listed-ne-unfinished dir file matches (fs.read_dir dir),
  )

  go_on-ne-unfinished :
      (r : GlobEnd) (next : List Bytes → GlobEnd)
      → r ≢ glob_unfinished
      → ((matches : List Bytes) → next matches ≢ glob_unfinished)
      → go_on r next ≢ glob_unfinished
  unfolding go_on
  go_on-ne-unfinished (globs matches) next ends rest e = rest matches e
  go_on-ne-unfinished (glob_malformed matches) next ends rest e = absurd (cc)
  go_on-ne-unfinished glob_unfinished next ends rest e = ends refl

  glob_dirs-ne-unfinished :
      (file : Bytes) (dirs matches : List Bytes)
      → glob_dirs decode normalizes sort fs file dirs matches ≢ glob_unfinished
  unfolding glob_dirs
  glob_dirs-ne-unfinished file [] matches e = absurd (cc)
  glob_dirs-ne-unfinished file (d ∷ ds) matches e =
      go_on-ne-unfinished (glob_dir decode normalizes sort fs d file matches) _
        (glob_dir-ne-unfinished d file matches)
        (λ matches'. glob_dirs-ne-unfinished file ds matches') e

  expand-ne-unfinished :
      (file : Bytes) (r : GlobEnd)
      → r ≢ glob_unfinished
      → expand decode normalizes sort fs file r ≢ glob_unfinished
  unfolding expand
  expand-ne-unfinished file (globs dirs) ends e = glob_dirs-ne-unfinished file dirs [] e
  expand-ne-unfinished file (glob_malformed matches) ends e = absurd (cc)
  expand-ne-unfinished file glob_unfinished ends e = ends refl

  glob_checked-ne-unfinished :
      (pattern : Bytes) (again : Bytes → GlobEnd)
      → ((dir : Bytes) → length dir < length pattern → again dir ≢ glob_unfinished)
      → glob_checked decode normalizes sort fs pattern again ≢ glob_unfinished
  unfolding glob_checked
  glob_checked-ne-unfinished pattern again ends e =
      elim (Bool-cases (has_glob_meta (clean_glob_dir (split_last_sep pattern).0))) [
        | inr plain ↦ ground (
          arith,
          e,
          plain,
          glob_dir-ne-unfinished (clean_glob_dir (split_last_sep pattern).0)
              (split_last_sep pattern).1 [],
        )
        | inl deep ↦
            let shorter : length (clean_glob_dir (split_last_sep pattern).0) < length pattern =
              omega (
                arith,
                clean_glob_dir-shorter (split_last_sep pattern).0 deep,
                length-split_last_sep pattern,
              ) in
            ground (
              arith,
              e,
              deep,
              expand-ne-unfinished (split_last_sep pattern).1
                  (again (clean_glob_dir (split_last_sep pattern).0))
                  (ends (clean_glob_dir (split_last_sep pattern).0) shorter),
            )
      ]

  -- A glob ends, within one call of itself more than the pattern has bytes.
  pub glob_with-ne-unfinished :
      (fuel : ℕ) (pattern : Bytes)
      → length pattern < fuel
      → glob_with decode normalizes sort fs fuel pattern ≢ glob_unfinished
  unfolding glob_with check_pattern
  glob_with-ne-unfinished zero pattern enough e = absurd (omega arith)
  glob_with-ne-unfinished (suc fuel) pattern enough e =
      check_pattern-ne-unfinished
        (match_name decode normalizes (norm_pattern normalizes pattern) [])
        (norm_pattern normalizes pattern) _
        (match_name-ne-unfinished decode has_width normalizes (norm_pattern normalizes pattern) [])
        (λ dir short.
          glob_with-ne-unfinished fuel dir (omega (arith, length-norm_pattern normalizes pattern)))
        e
    where
      check_pattern-ne-unfinished :
          (m : MatchEnd) (p : Bytes) (again : Bytes → GlobEnd)
          → m ≢ match_unfinished
          → ((dir : Bytes) → length dir < length p → again dir ≢ glob_unfinished)
          → check_pattern decode normalizes sort fs m p again ≢ glob_unfinished
      check_pattern-ne-unfinished (is_match b) p again ends rest e =
          glob_checked-ne-unfinished p again rest e
      check_pattern-ne-unfinished malformed p again ends rest e = absurd (cc)
      check_pattern-ne-unfinished match_unfinished p again ends rest e = ends refl
