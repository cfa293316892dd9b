-- ===== src/Tests/Shares.antt =====
-- Paths, patterns and globs of a small share.
use smb1client.Common.{
  ℕ, ◌≡◌, ◌≢◌, ◌↔◌, ◌<◌, refl, true, false, none, some, [], ◌∷◌, length, get_or, arith,
}
use smb1client.Wire.{Bytes}
use smb1client.Share.Paths.{
  path_separator, slash, contains, starts_with, components, validate_file_path, normalize_path,
  replace_slashes, validate_mount_path, split_first, validate_parts, walk_depth,
}
use smb1client.Share.Paths.Roots.{follow_path, validate_file_path_iff, normalize_path_lem}
use smb1client.Share.Paths.Mounts.{IsShareName, validate_mount_path_iff}
use smb1client.Share.Match.{
  is_match, match_unfinished, match_name, match_rounds, match_segment, match_chunk, chunk_rounds,
  split_chunk, skip_stars, cut_segment, norm_pattern, consume, try_star, retry_star, class_of,
  class_rounds, class_rune, rune_of, range_end,
}
use smb1client.Share.Match.Sound.{Fits, match_name-Fits}
use smb1client.Share.Match.Total.{match_name-ne-unfinished}
use smb1client.Share.Globs.{Lister, glob_with, glob_unfinished}
use smb1client.Share.Globs.Found.{AllFound, glob_with-AllFound}
use smb1client.Share.Globs.Total.{glob_with-ne-unfinished}

-- "a\..\b"
abbrev winding_path : Bytes
winding_path = b'a' ∷ 92 ∷ b'.' ∷ b'.' ∷ 92 ∷ b'b' ∷ []

winding_accepted : validate_file_path winding_path ≡ none
unfolding validate_file_path walk_depth
winding_accepted = refl

validate_file_path_iff_example :
    (validate_file_path winding_path ≡ none)
    ↔ (0 < length winding_path)
      × (starts_with path_separator winding_path ≡ false)
      × (contains 0 winding_path ≡ false)
      × (contains slash winding_path ≡ false)
      × (follow_path [] (components winding_path) ≢ none)
validate_file_path_iff_example = validate_file_path_iff winding_path

-- "a/b"
abbrev slashed_path : Bytes
slashed_path = b'a' ∷ 47 ∷ b'b' ∷ []

normalize_path_lem_example :
    (normalize_path (λ p. p) true slashed_path ≡ replace_slashes slashed_path)
    × (normalize_path (λ p. p) false slashed_path ≡ slashed_path)
    × (contains slash (normalize_path (λ p. p) true slashed_path) ≡ false)
normalize_path_lem_example = normalize_path_lem (λ p. p) slashed_path

-- "\\h\s"
abbrev share_path : Bytes
share_path = 92 ∷ 92 ∷ b'h' ∷ 92 ∷ b's' ∷ []

share_accepted : validate_mount_path share_path ≡ none
unfolding validate_mount_path split_first validate_parts
share_accepted = refl

validate_mount_path_iff_example :
    (validate_mount_path share_path ≡ none)
    ↔ ((parts : Bytes × Bytes) × IsShareName share_path parts)
validate_mount_path_iff_example = validate_mount_path_iff share_path

-- Every byte is a rune of its own.
abbrev ascii : Bytes → ℕ × ℕ
ascii s = (get_or s 0 0, 1)

-- "*[a-c]?" and "x-bz"
abbrev class_pattern : Bytes
class_pattern = b'*' ∷ b'[' ∷ b'a' ∷ b'-' ∷ b'c' ∷ b']' ∷ b'?' ∷ []

abbrev matching_name : Bytes
matching_name = b'x' ∷ b'-' ∷ b'b' ∷ b'z' ∷ []

class_matches : match_name ascii false class_pattern matching_name ≡ is_match true
unfolding match_name match_rounds match_segment match_chunk chunk_rounds split_chunk skip_stars
    cut_segment norm_pattern consume try_star retry_star class_of class_rounds class_rune rune_of
    range_end
class_matches = refl

match_name-Fits_example : Fits ascii (norm_pattern false class_pattern) matching_name
match_name-Fits_example = match_name-Fits ascii false class_pattern matching_name class_matches

match_name-ne-unfinished_example :
    match_name ascii false class_pattern matching_name ≢ match_unfinished
match_name-ne-unfinished_example =
    match_name-ne-unfinished ascii (λ x name. omega arith) false class_pattern matching_name

-- "*[^x]*c" and "a\c": the first star takes nothing, and the second may not pass the separator that the
-- class would have taken.
missed :
    match_name ascii false
      (b'*' ∷ b'[' ∷ b'^' ∷ b'x' ∷ b']' ∷ b'*' ∷ b'c' ∷ [])
      (b'a' ∷ 92 ∷ b'c' ∷ [])
    ≡ is_match false
unfolding match_name match_rounds match_segment match_chunk chunk_rounds split_chunk skip_stars
    cut_segment norm_pattern consume try_star retry_star class_of class_rounds class_rune rune_of
    range_end
missed = refl

-- A share whose root lists "ab" and "cd".
abbrev share : Lister
share = record {
  exists = λ path. true;
  is_dir = λ path. true;
  read_dir = λ path. some ((b'a' ∷ b'b' ∷ []) ∷ (b'c' ∷ b'd' ∷ []) ∷ []);
}

glob_with-AllFound_example :
    AllFound ascii false
      (λ l. l)
      share
      (norm_pattern false (b'a' ∷ b'*' ∷ []))
      (glob_with ascii false (λ l. l) share 9 (b'a' ∷ b'*' ∷ []))
glob_with-AllFound_example =
    glob_with-AllFound ascii false (λ l. l) share (λ P paths all. all) 9 (b'a' ∷ b'*' ∷ [])

glob_with-ne-unfinished_example :
    glob_with ascii false (λ l. l) share 9 (b'*' ∷ 92 ∷ b'*' ∷ []) ≢ glob_unfinished
glob_with-ne-unfinished_example =
    glob_with-ne-unfinished ascii (λ x name. omega arith) false (λ l. l) share 9
      (b'*' ∷ 92 ∷ b'*' ∷ []) (omega arith)
