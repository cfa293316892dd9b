-- ===== src/Share/Paths.antt =====
-- session.go: `validateFilePath`, `normalizePath` and `validateMountPath`.
pub mod Roots
pub mod Mounts
use smb1client.Common.{
  ℕ, zero, suc, ◌+◌, ◌-◌, Bool, true, false, not, ◌&&◌, ◌||◌, Option, none, some, List, [], ◌∷◌,
  ◌++◌, map, length, ltb, ◌==◌, if◌then◌else◌, take, drop,
}
use smb1client.Wire.{Bytes}

-- `PathSeparator`
abbrev pub path_separator : ℕ
path_separator = 92

abbrev pub slash : ℕ
slash = 47

abbrev pub dot : ℕ
dot = 46

pub data PathError : Type 0 where
  empty_path absolute_path null_bytes forward_slashes above_root : PathError
  not_unc missing_share empty_server empty_share share_has_backslash : PathError

-- `strings.Contains(s, c)`, of a single byte.
abbrev pub contains : ℕ → Bytes → Bool
contains c [] = false
contains c (x ∷ xs) = x == c || contains c xs

abbrev pub starts_with : ℕ → Bytes → Bool
starts_with c [] = false
starts_with c (x ∷ xs) = x == c

-- `strings.Split(path, "\\")`: the components, of which there is always one.
abbrev pub split_on : ℕ → Bytes → Bytes → List Bytes
split_on c front [] = front ∷ []
split_on c front (x ∷ xs) =
    if x == c then front ∷ split_on c [] xs else split_on c (front ++ (x ∷ [])) xs

abbrev pub components : Bytes → List Bytes
components path = split_on path_separator [] path

-- `component == "."` and `component == ".."`
abbrev pub is_dot : Bytes → Bool
is_dot (a ∷ []) = a == dot
is_dot _ = false

abbrev pub is_dot_dot : Bytes → Bool
is_dot_dot (a ∷ b ∷ []) = a == dot && b == dot
is_dot_dot _ = false

-- The loop over the components: the depth at its end, or nothing once it would be negative.
unfoldable pub walk_depth : ℕ → List Bytes → Option ℕ
walk_depth depth [] = some depth
walk_depth depth (c ∷ cs) =
    if length c == 0
    then walk_depth depth cs
    else if is_dot c
    then walk_depth depth cs
    else if is_dot_dot c
    then (if depth == 0 then none else walk_depth (depth - 1) cs)
    else walk_depth (depth + 1) cs

-- The error, or none. The last check, of the depth after the loop, never fires on a depth that is not
-- negative.
unfoldable pub validate_file_path : Bytes → Option PathError
validate_file_path path =
    if length path == 0
    then some empty_path
    else if starts_with path_separator path
    then some absolute_path
    else if contains 0 path
    then some null_bytes
    else if contains slash path
    then some forward_slashes
    else elim (walk_depth 0 (components path)) [ none ↦ some above_root | some depth ↦ none ]

-- `strings.ReplaceAll(s, "/", "\\")`
abbrev pub replace_slashes : Bytes → Bytes
replace_slashes path = map (λ (x : ℕ). if x == slash then path_separator else x) path

abbrev pub same_bytes : Bytes → Bytes → Bool
same_bytes [] [] = true
same_bytes (x ∷ xs) (y ∷ ys) = x == y && same_bytes xs ys
same_bytes _ _ = false

-- `trim_space` is `strings.TrimSpace`, which knows the spaces of Unicode.
unfoldable pub normalize_path : (Bytes → Bytes) → Bool → Bytes → Bytes
normalize_path trim_space normalizes path =
    let trimmed = trim_space path in
    if not normalizes
    then trimmed
    else if same_bytes trimmed path && not (contains slash path)
    then path
    else if not (contains slash trimmed)
    then trimmed
    else replace_slashes trimmed

-- `strings.SplitN(path, "\\", 2)`: what stands before the first separator, and behind it.
unfoldable pub split_first : Bytes → Bytes → Option (Bytes × Bytes)
split_first front [] = none
split_first front (x ∷ xs) =
    if x == path_separator then some (front, xs) else split_first (front ++ (x ∷ [])) xs

unfoldable pub validate_parts : Option (Bytes × Bytes) → Option PathError
validate_parts none = some missing_share
validate_parts (some (server, share)) =
    if length server == 0
    then some empty_server
    else if length share == 0
    then some empty_share
    else if contains path_separator share
    then some share_has_backslash
    else none

unfoldable pub validate_mount_path : Bytes → Option PathError
validate_mount_path path =
    if starts_with path_separator path && starts_with path_separator (drop 1 path)
    then validate_parts (split_first [] (drop 2 path))
    else some not_unc
