-- ===== src/Share/Globs.antt =====
-- session.go: `globWith` and `globDir`, over any lister.
pub mod Found
pub mod Total
use smb1client.Common.{
  ℕ, zero, suc, ◌+◌, Bool, true, false, not, ◌&&◌, ◌||◌, Option, none, some, List, [], ◌∷◌, ◌++◌,
  length, ◌==◌, if◌then◌else◌,
}
use smb1client.Wire.{Bytes}
use smb1client.Share.Paths.{path_separator, dot, same_bytes}
use smb1client.Share.Match.{
  MatchEnd, is_match, malformed, match_unfinished, norm_pattern, has_glob_meta, is_empty,
  match_name,
}

-- `globLister`, as the traversal reads it: whether `Lstat` finds a path, whether `Stat` finds a
-- directory there, and the names that `ReadDir` lists, or nothing if it fails.
pub record Lister : Type 0 where
  pub exists : Bytes → Bool
  pub is_dir : Bytes → Bool
  pub read_dir : Bytes → Option (List Bytes)

-- `splitLastSep`: up to the last separator, with it, and what is behind.
unfoldable pub split_last_sep : Bytes → Bytes × Bytes
split_last_sep [] = ([], [])
split_last_sep (x ∷ xs) =
    let (dir, file) = split_last_sep xs in
    if is_empty dir && not (x == path_separator) then ([], x ∷ file) else (x ∷ dir, file)

-- Without the last byte.
unfoldable pub chop_last : Bytes → Bytes
chop_last [] = []
chop_last (x ∷ []) = []
chop_last (x ∷ y ∷ xs) = x ∷ chop_last (y ∷ xs)

unfoldable pub clean_glob_dir : Bytes → Bytes
clean_glob_dir dir =
    if is_empty dir
    then dot ∷ []
    else if same_bytes dir (path_separator ∷ [])
    then dir
    else chop_last dir

abbrev pub join_glob : Bytes → Bytes → Bytes
join_glob dir name = if is_empty dir then name else dir ++ (path_separator ∷ name)

-- The matches, and whether the error is `ErrBadPattern`. `unfinished` is no outcome of the source.
pub data GlobEnd : Type 0 where
  globs : List Bytes → GlobEnd
  glob_malformed : List Bytes → GlobEnd
  glob_unfinished : GlobEnd

-- The directories in turn; an error ends the loop.
unfoldable pub go_on : GlobEnd → (List Bytes → GlobEnd) → GlobEnd
go_on (globs matches) next = next matches
go_on (glob_malformed matches) next = glob_malformed matches
go_on glob_unfinished next = glob_unfinished

-- `sort` is `sort.Strings`.
module _ (decode : Bytes → ℕ × ℕ) (normalizes : Bool) (sort : List Bytes → List Bytes)
    (fs : Lister) where
  -- The entry's part in the loop of `globDir`.
  unfoldable pub take_entry :
      Bytes → Bytes → List Bytes → MatchEnd → (List Bytes → GlobEnd) → GlobEnd
  take_entry dir entry matches (is_match true) next = next (matches ++ (join_glob dir entry ∷ []))
  take_entry dir entry matches (is_match false) next = next matches
  take_entry dir entry matches malformed next = glob_malformed matches
  take_entry dir entry matches match_unfinished next = glob_unfinished

  unfoldable pub glob_entries : Bytes → Bytes → List Bytes → List Bytes → GlobEnd
  glob_entries dir pattern [] matches = globs (sort matches)
  glob_entries dir pattern (entry ∷ entries) matches =
      take_entry dir entry matches (match_name decode normalizes pattern entry)
        (λ matches'. glob_entries dir pattern entries matches')

  unfoldable pub glob_listed : Bytes → Bytes → List Bytes → Option (List Bytes) → GlobEnd
  glob_listed dir pattern matches none = globs matches
  glob_listed dir pattern matches (some entries) = glob_entries dir pattern entries matches

  -- "." is the share's root, which is listed as "".
  unfoldable pub glob_dir : Bytes → Bytes → List Bytes → GlobEnd
  glob_dir dir pattern matches =
      if same_bytes dir (dot ∷ [])
      then glob_listed [] pattern matches (fs.read_dir [])
      else if fs.is_dir dir
      then glob_listed dir pattern matches (fs.read_dir dir)
      else globs matches

  unfoldable pub glob_dirs : Bytes → List Bytes → List Bytes → GlobEnd
  glob_dirs file [] matches = globs matches
  glob_dirs file (d ∷ ds) matches =
      go_on (glob_dir d file matches) (λ matches'. glob_dirs file ds matches')

  -- An error of the directory's expansion gives no matches.
  unfoldable pub expand : Bytes → GlobEnd → GlobEnd
  expand file (globs dirs) = glob_dirs file dirs []
  expand file (glob_malformed matches) = glob_malformed []
  expand file glob_unfinished = glob_unfinished

  -- The pattern has been found well-formed; `again` is the call on the directory part.
  unfoldable pub glob_checked : Bytes → (Bytes → GlobEnd) → GlobEnd
  glob_checked pattern again =
      let dir = clean_glob_dir (split_last_sep pattern).0 in
      let file = (split_last_sep pattern).1 in
      if not (has_glob_meta pattern)
      then (if fs.exists pattern then globs (pattern ∷ []) else globs [])
      else if not (has_glob_meta dir)
      then glob_dir dir file []
      else if same_bytes dir pattern
      then glob_malformed []
      else expand file (again dir)

  unfoldable pub check_pattern : MatchEnd → Bytes → (Bytes → GlobEnd) → GlobEnd
  check_pattern (is_match b) pattern again = glob_checked pattern again
  check_pattern malformed pattern again = glob_malformed []
  check_pattern match_unfinished pattern again = glob_unfinished

  -- `globWith`, on fuel: the directory part is shorter than the pattern.
  unfoldable pub glob_with : ℕ → Bytes → GlobEnd
  glob_with zero pattern = glob_unfinished
  glob_with (suc fuel) pattern =
      check_pattern (match_name decode normalizes (norm_pattern normalizes pattern) [])
        (norm_pattern normalizes pattern) (λ dir. glob_with fuel dir)
