-- ===== src/Share/Paths/Mounts.antt =====
-- Which names of a share `validateMountPath` accepts.
use smb1client.Common.{
  ◌<◌, ◌≡◌, ◌↔◌, inl, inr, refl, sym, ap, ◌∙◌, true, false, ◌&&◌, none, some, [], ◌∷◌, ◌++◌, length,
  ◌==◌, drop, arith, Bool-cases, Option-cases, ==_iff, append-nil, append_assoc,
}
use smb1client.Wire.{Bytes}
use smb1client.Share.Paths.{
  path_separator, contains, starts_with, split_first, validate_parts, validate_mount_path,
}

split_first-some :
    (front xs server share : Bytes)
    → split_first front xs ≡ some (server, share)
    → (mid : Bytes) × (server ≡ front ++ mid)
      × (xs ≡ mid ++ (path_separator ∷ share))
      × (contains path_separator mid ≡ false)
unfolding split_first
split_first-some front [] server share e = absurd (cc)
split_first-some front (x ∷ xs) server share e = elim (Bool-cases (x == path_separator)) [
  | inl is ↦
      let same_server : front ≡ server = ground (arith, e, is) in
      let same_share : xs ≡ share = ground (arith, e, is) in
      (
        [],
        sym same_server ∙ sym (append-nil front),
        rw ((==_iff x path_separator).0 is, same_share) refl,
        refl,
      )
  | inr other ↦
      let (mid, from, split, clean) =
        split_first-some (front ++ (x ∷ [])) xs server share (ground (arith, e, other)) in
      (
        x ∷ mid,
        from ∙ append_assoc front (x ∷ []) mid,
        ap (λ (l : Bytes). x ∷ l) split,
        ground (arith, other, clean),
      )
]

split_first-append :
    (front mid share : Bytes)
    → contains path_separator mid ≡ false
    → split_first front (mid ++ (path_separator ∷ share)) ≡ some (front ++ mid, share)
unfolding split_first
split_first-append front [] share clean =
    ap (λ (l : Bytes). some (l, share)) (sym (append-nil front))
split_first-append front (x ∷ mid) share clean =
    let other : (x == path_separator) ≡ false = ground (arith, clean) in
    rw other (
      split_first-append (front ++ (x ∷ [])) mid share (ground (arith, clean, other))
      ∙ ap (λ (l : Bytes). some (l, share)) (append_assoc front (x ∷ []) mid))

-- The parts of a name that is accepted.
abbrev pub IsShareName : Bytes → Bytes × Bytes → Type 0
IsShareName path (server, share) =
    (path ≡ path_separator ∷ path_separator ∷ server ++ (path_separator ∷ share))
    × (0 < length server)
    × (0 < length share)
    × (contains path_separator server ≡ false)
    × (contains path_separator share ≡ false)

validate_parts_iff :
    (server share : Bytes)
    → (validate_parts (some (server, share)) ≡ none)
      ↔ (0 < length server) × (0 < length share) × (contains path_separator share ≡ false)
unfolding validate_parts
validate_parts_iff server share = ground arith

unc_shape :
    (path : Bytes)
    → (starts_with path_separator path && starts_with path_separator (drop 1 path)) ≡ true
    → path ≡ path_separator ∷ path_separator ∷ drop 2 path
unc_shape [] h = absurd (cc)
unc_shape (x ∷ []) h = absurd (ground (arith, h))
unc_shape (x ∷ y ∷ path) h =
    let first : x ≡ path_separator = ground (arith, h) in
    let second : y ≡ path_separator = ground (arith, h) in rw (first, second) refl

accepted-IsShareName :
    (path : Bytes)
    → validate_mount_path path ≡ none
    → (parts : Bytes × Bytes) × IsShareName path parts
unfolding validate_mount_path validate_parts
accepted-IsShareName path e =
    elim (Bool-cases
      (starts_with path_separator path && starts_with path_separator (drop 1 path))) [
        | inr other ↦ absurd (ground (arith, e, other))
        | inl unc ↦ elim (Option-cases (split_first [] (drop 2 path))) [
          | inl missing ↦ absurd (ground (arith, e, unc, missing))
          | inr ((server, share), found) ↦
              let (mid, from, split, clean) =
                split_first-some [] (drop 2 path) server share found in
              let valid = (validate_parts_iff server share).0 (ground (arith, e, unc, found)) in
              let whole : path
                  ≡ path_separator ∷ path_separator ∷ server ++ (path_separator ∷ share) =
                unc_shape path unc
                ∙ ap (λ (l : Bytes). path_separator ∷ path_separator ∷ l)
                    (split ∙ ap (λ (l : Bytes). l ++ (path_separator ∷ share)) (sym from)) in
              ((server, share), (whole, valid.0, valid.1, rw from clean, valid.2))
        ]
      ]

-- A share's name is accepted exactly if it is two separators, a server, a separator and a share, where
-- the server and the share are not empty and have no separator.
pub validate_mount_path_iff :
    (path : Bytes)
    → (validate_mount_path path ≡ none) ↔ ((parts : Bytes × Bytes) × IsShareName path parts)
unfolding validate_mount_path
validate_mount_path_iff path = (
  accepted-IsShareName path,
  λ ((server, share), (is, some_server, some_share, clean, clean')).
      rw (is, split_first-append [] server share clean)
        ((validate_parts_iff server share).1 (some_server, some_share, clean')),
)
