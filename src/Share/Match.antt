-- ===== src/Share/Match.antt =====
-- match.go: matching a name against a pattern.
pub mod Sound
pub mod Total
use smb1client.Common.{
  ℕ, zero, suc, ◌+◌, Bool, true, false, not, ◌&&◌, ◌||◌, Option, none, some, List, [], ◌∷◌, ◌++◌,
  length, ltb, leb, ◌==◌, if◌then◌else◌, drop,
}
use smb1client.Wire.{Bytes}
use smb1client.Share.Paths.{path_separator, contains, dot, replace_slashes}

abbrev pub star : ℕ
star = 42

abbrev pub question : ℕ
question = 63

abbrev pub open_bracket : ℕ
open_bracket = 91

abbrev pub close_bracket : ℕ
close_bracket = 93

abbrev pub caret : ℕ
caret = 94

abbrev pub hyphen : ℕ
hyphen = 45

-- `utf8.RuneError`
abbrev pub rune_error : ℕ
rune_error = 0xFFFD

abbrev pub is_empty : Bytes → Bool
is_empty [] = true
is_empty (x ∷ xs) = false

-- Without the stars at the front, and whether there were any.
unfoldable pub skip_stars : Bool → Bytes → Bool × Bytes
skip_stars seen [] = (seen, [])
skip_stars seen (x ∷ xs) = if x == star then skip_stars true xs else (seen, x ∷ xs)

-- Up to the next star outside of a class, and from there on.
unfoldable pub cut_segment : Bool → Bytes → Bytes × Bytes
cut_segment in_class [] = ([], [])
cut_segment in_class (x ∷ xs) =
    if x == star && not in_class
    then ([], x ∷ xs)
    else let (chunk, rest) =
        cut_segment (x == open_bracket || in_class && not (x == close_bracket)) xs in
      (x ∷ chunk, rest)

pub record Split : Type 0 where
  pub has_star : Bool
  pub chunk : Bytes
  pub rest : Bytes

abbrev pub split_of : Bool × Bytes → Split
split_of (has_star, pattern) = record {
  has_star = has_star;
  chunk = (cut_segment false pattern).0;
  rest = (cut_segment false pattern).1;
}

unfoldable pub split_chunk : Bytes → Split
split_chunk pattern = split_of (skip_stars false pattern)

-- `normPattern`
unfoldable pub drop_dots : Bytes → Bytes
drop_dots (a ∷ b ∷ rest) =
    let shorter = drop_dots rest in
    if a == dot && b == path_separator then shorter else a ∷ b ∷ rest
drop_dots short = short

unfoldable pub norm_pattern : Bool → Bytes → Bytes
norm_pattern normalizes pattern =
    if not normalizes then pattern else drop_dots (replace_slashes pattern)

-- `hasGlobMeta`
abbrev pub has_glob_meta : Bytes → Bool
has_glob_meta path = contains star path || contains question path || contains open_bracket path

-- What is left of the chunk and of the name, a mismatch, or a malformed pattern. `unfinished` is no
-- outcome of the source.
pub data ClassEnd : Type 0 where
  class_end : Bool → Bytes → ClassEnd
  bad_class : ClassEnd
  class_unfinished : ClassEnd

pub data ChunkEnd : Type 0 where
  leaves : Bytes → ChunkEnd
  mismatch : ChunkEnd
  bad_pattern : ChunkEnd
  chunk_unfinished : ChunkEnd

pub data MatchEnd : Type 0 where
  is_match : Bool → MatchEnd
  malformed : MatchEnd
  match_unfinished : MatchEnd

abbrev pub ends_class : ℕ → Bytes → Bool
ends_class ranges [] = false
ends_class ranges (c ∷ cs) = c == close_bracket && ltb 0 ranges

abbrev pub is_negated : Bytes → Bool
is_negated [] = false
is_negated (c ∷ cs) = c == caret

abbrev pub after_negation : Bytes → Bytes
after_negation chunk = if is_negated chunk then drop 1 chunk else chunk

abbrev pub same_bool : Bool → Bool → Bool
same_bool true b = b
same_bool false b = not b

abbrev pub after_class : ClassEnd → (Bool → Bytes → ChunkEnd) → ChunkEnd
after_class (class_end found rest) next = next found rest
after_class bad_class next = bad_pattern
after_class class_unfinished next = chunk_unfinished

abbrev pub begins_with : ℕ → Bytes → Bool
begins_with c [] = false
begins_with c (x ∷ xs) = x == c

-- A chunk counts as consumed if something may still match the rest.
abbrev pub is_consumed : Bool → Bytes → Bool
is_consumed is_last rest = is_empty rest || not is_last

-- What becomes of the chunk's end: `next` is the loop, on what is left of the name, and `otherwise`
-- stands where the chunk does not count as consumed.
unfoldable pub consume : ChunkEnd → Bool → (Bytes → MatchEnd) → MatchEnd → MatchEnd
consume (leaves rest) is_last next otherwise =
    if is_consumed is_last rest then next rest else otherwise
consume mismatch is_last next otherwise = otherwise
consume bad_pattern is_last next otherwise = malformed
consume chunk_unfinished is_last next otherwise = match_unfinished

-- `decode` is `utf8.DecodeRuneInString`: the rune at the front, and its width.
module _ (decode : Bytes → ℕ × ℕ) where
  unfoldable pub rune_of : Bytes → Option (ℕ × Bytes)
  rune_of chunk =
      if (decode chunk).0 == rune_error && (decode chunk).1 == 1
      then none
      else if is_empty (drop (decode chunk).1 chunk)
      then none
      else some ((decode chunk).0, drop (decode chunk).1 chunk)

  -- `classRune`; no result is `ErrBadPattern`.
  unfoldable pub class_rune : Bytes → Option (ℕ × Bytes)
  class_rune [] = none
  class_rune (c ∷ cs) = if c == hyphen || c == close_bracket then none else rune_of (c ∷ cs)

  -- The upper end of a range that begins with `lo`.
  unfoldable pub range_end : ℕ → Bytes → Option (ℕ × Bytes)
  range_end lo [] = none
  range_end lo (c ∷ cs) = if c == hyphen then class_rune cs else some (lo, c ∷ cs)

  abbrev pub range_of : Option (ℕ × Bytes) → Option ((ℕ × ℕ) × Bytes)
  range_of none = none
  range_of (some (lo, chunk)) = elim (range_end lo chunk) [
    | none ↦ none
    | some (hi, rest) ↦ some ((lo, hi), rest)
  ]

  abbrev pub class_range : Bytes → Option ((ℕ × ℕ) × Bytes)
  class_range chunk = range_of (class_rune chunk)

  -- The ranges of a class, on fuel: whether the rune is in any of them.
  unfoldable pub class_rounds : ℕ → ℕ → Bool → ℕ → Bytes → ClassEnd
  class_rounds zero rune found ranges chunk = class_unfinished
  class_rounds (suc fuel) rune found ranges chunk =
      if ends_class ranges chunk then class_end found (drop 1 chunk) else elim (class_range chunk) [
        | none ↦ bad_class
        | some ((lo, hi), rest) ↦
            class_rounds fuel rune (found || (leb lo rune && leb rune hi)) (ranges + 1) rest
      ]

  -- The class behind an opening bracket; a name that has failed already is read as the rune 0.
  unfoldable pub class_of : Bool → Bytes → Bytes → ClassEnd
  class_of failed chunk name =
      class_rounds (length chunk + 1) (if failed then 0 else (decode name).0) false 0
        (after_negation chunk)

  -- The loop of `matchChunk`, on fuel.
  unfoldable pub chunk_rounds : ℕ → Bool → Bytes → Bytes → ChunkEnd
  chunk_rounds fuel failed [] name = if failed then mismatch else leaves name
  chunk_rounds zero failed (c ∷ chunk) name = chunk_unfinished
  chunk_rounds (suc fuel) failed (c ∷ chunk) name =
      let lost = failed || is_empty name in
      let rest = if lost then name else drop (decode name).1 name in
      let by_question = chunk_rounds fuel (lost || begins_with path_separator name) chunk rest in
      let by_byte =
        chunk_rounds fuel (lost || not (begins_with c name)) chunk
          (if lost then name else drop 1 name) in
      if c == open_bracket
      then after_class (class_of lost chunk name) (λ found chunk'.
        chunk_rounds fuel (lost || same_bool found (is_negated chunk)) chunk' rest)
      else if c == question
      then by_question
      else by_byte

  unfoldable pub match_chunk : Bytes → Bytes → ChunkEnd
  match_chunk chunk name = chunk_rounds (length chunk) false chunk name

  -- A star tries the chunk at each later position of the path's element.
  unfoldable pub retry_star : Bytes → Bool → Bytes → (Bytes → MatchEnd) → MatchEnd
  retry_star chunk is_last [] next = is_match false
  retry_star chunk is_last (x ∷ name) next =
      let later = retry_star chunk is_last name next in
      if x == path_separator
      then is_match false
      else consume (match_chunk chunk name) is_last next later

  unfoldable pub try_star : Bool → Bytes → Bool → Bytes → (Bytes → MatchEnd) → MatchEnd
  try_star has_star chunk is_last name next =
      if has_star then retry_star chunk is_last name next else is_match false

  unfoldable pub match_segment : Split → Bytes → (Bytes → MatchEnd) → MatchEnd
  match_segment s name next =
      if s.has_star && is_empty s.chunk
      then is_match (not (contains path_separator name))
      else consume (match_chunk s.chunk name) (is_empty s.rest) next
          (try_star s.has_star s.chunk (is_empty s.rest) name next)

  -- The loop of `Match`, on fuel.
  unfoldable pub match_rounds : ℕ → Bytes → Bytes → MatchEnd
  match_rounds fuel [] name = is_match (is_empty name)
  match_rounds zero (c ∷ pattern) name = match_unfinished
  match_rounds (suc fuel) (c ∷ pattern) name =
      match_segment (split_chunk (c ∷ pattern)) name
        (λ rest. match_rounds fuel (split_chunk (c ∷ pattern)).rest rest)

  unfoldable pub match_name : Bool → Bytes → Bytes → MatchEnd
  match_name normalizes pattern name =
      match_rounds (length (norm_pattern normalizes pattern)) (norm_pattern normalizes pattern) name
