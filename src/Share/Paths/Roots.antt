-- ===== src/Share/Paths/Roots.antt =====
-- Which paths `validateFilePath` accepts, and what `normalizePath` makes of them.
use smb1client.Common.{
  ℕ, ◌+◌, ◌-◌, ◌<◌, ◌≡◌, ◌≢◌, ◌↔◌, inl, inr, refl, sym, ap, ◌∙◌, true, false, not, ◌&&◌, ◌||◌,
  Option, none, some, List, [], ◌∷◌, length, ◌==◌, if◌then◌else◌, arith, Bool-cases, Option-cases,
}
use smb1client.Wire.{Bytes}
use smb1client.Share.Paths.{
  path_separator, slash, contains, starts_with, components, is_dot, is_dot_dot, walk_depth,
  validate_file_path, replace_slashes, same_bytes, normalize_path,
}

-- Following a path from the root: the directories that lead to where it ends, the last one first, or
-- nothing if it steps above the root.
abbrev pub follow_path : List Bytes → List Bytes → Option (List Bytes)
follow_path at [] = some at
follow_path at (c ∷ cs) =
    if length c == 0 || is_dot c
    then follow_path at cs
    else if is_dot_dot c
    then elim at [ [] ↦ none | d ∷ up ↦ follow_path up cs ]
    else follow_path (c ∷ at) cs

-- What is written by the loop is how deep the path leads.
abbrev depth_of : Option (List Bytes) → Option ℕ
depth_of none = none
depth_of (some at) = some (length at)

walk-follow :
    (cs at : List Bytes) (depth : ℕ)
    → depth ≡ length at
    → walk_depth depth cs ≡ depth_of (follow_path at cs)
unfolding walk_depth
walk-follow [] at depth e = ap some e
walk-follow (c ∷ cs) [] depth e = ground (
  arith,
  walk-follow cs [] depth (omega arith),
  walk-follow cs (c ∷ []) (depth + 1) (omega arith),
)
walk-follow (c ∷ cs) (d ∷ up) depth e = ground (
  arith,
  walk-follow cs (d ∷ up) depth (omega arith),
  walk-follow cs up (depth - 1) (omega arith),
  walk-follow cs (c ∷ d ∷ up) (depth + 1) (omega arith),
)

-- A path is accepted exactly if it is not empty, does not start with a separator, has no null byte and
-- no forward slash, and following it from the root never steps above the root.
pub validate_file_path_iff :
    (path : Bytes)
    → (validate_file_path path ≡ none)
      ↔ (0 < length path)
        × (starts_with path_separator path ≡ false)
        × (contains 0 path ≡ false)
        × (contains slash path ≡ false)
        × (follow_path [] (components path) ≢ none)
unfolding validate_file_path
validate_file_path_iff path = (
  λ e. (
    ground (arith, e),
    ground (arith, e),
    ground (arith, e),
    ground (arith, e),
    λ above. ground (arith, e, above, walk-follow (components path) [] 0 refl),
  ),
  λ h. elim (Option-cases (follow_path [] (components path))) [
    | inl above ↦ absurd (h.4 above)
    | inr (at, inside) ↦
        ground (arith, h.0, h.1, h.2, h.3, inside, walk-follow (components path) [] 0 refl)
  ],
)

-- `strings.ReplaceAll`: no slash is left, and without one nothing changes.
replace-contains : (path : Bytes) → contains slash (replace_slashes path) ≡ false
replace-contains [] = refl
replace-contains (x ∷ xs) = elim (Bool-cases (x == slash)) [
  | inl is ↦ rw is (replace-contains xs)
  | inr other ↦ rw (other, other) (replace-contains xs)
]

replace_nothing : (path : Bytes) → contains slash path ≡ false → replace_slashes path ≡ path
replace_nothing [] h = refl
replace_nothing (x ∷ xs) h = elim (Bool-cases (x == slash)) [
  | inl is ↦ absurd (ground (arith, h, is))
  | inr other ↦ rw other (ap (λ (l : Bytes). x ∷ l) (replace_nothing xs (ground (arith, h, other))))
]

pub same_bytes_iff : (xs ys : Bytes) → same_bytes xs ys ≡ true → xs ≡ ys
same_bytes_iff [] [] h = refl
same_bytes_iff [] (y ∷ ys) h = absurd (cc)
same_bytes_iff (x ∷ xs) [] h = absurd (cc)
same_bytes_iff (x ∷ xs) (y ∷ ys) h =
    let same : x ≡ y = ground (arith, h) in
    rw same (ap (λ (l : Bytes). y ∷ l) (same_bytes_iff xs ys (ground (arith, h))))

shortcuts :
    (trim_space : Bytes → Bytes) (path : Bytes)
    → normalize_path trim_space true path ≡ replace_slashes (trim_space path)
unfolding normalize_path
shortcuts trim_space path =
    elim (Bool-cases (same_bytes (trim_space path) path && not (contains slash path))) [
      | inl as_is ↦
          let same : trim_space path ≡ path = same_bytes_iff _ _ (ground (arith, as_is)) in
          rw as_is (rw same (sym (replace_nothing path (ground (arith, as_is)))))
      | inr other ↦ elim (Bool-cases (contains slash (trim_space path))) [
        | inl slashes ↦ rw (other, slashes) refl
        | inr none_there ↦
            rw (other, none_there) (sym (replace_nothing (trim_space path) none_there))
      ]
    ]

-- The shortcuts of `normalizePath` change nothing: it gives the trimmed path, with its slashes replaced
-- where that is enabled, and then the result has no slash.
pub normalize_path_lem :
    (trim_space : Bytes → Bytes) (path : Bytes)
    → (normalize_path trim_space true path ≡ replace_slashes (trim_space path))
      × (normalize_path trim_space false path ≡ trim_space path)
      × (contains slash (normalize_path trim_space true path) ≡ false)
unfolding normalize_path
normalize_path_lem trim_space path = (
  shortcuts trim_space path,
  refl,
  ap (λ (l : Bytes). contains slash l) (shortcuts trim_space path)
      ∙ replace-contains (trim_space path),
)
