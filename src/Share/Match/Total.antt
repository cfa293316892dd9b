-- ===== src/Share/Match/Total.antt =====
-- Matching ends, on any pattern and name.
use smb1client.Common.{
  ℕ, zero, suc, ◌+◌, ◌≤◌, ◌<◌, ◌≡◌, ◌≢◌, inl, inr, refl, Bool, true, false, not, ◌&&◌, ◌||◌, some,
  [], ◌∷◌, length, ◌==◌, if◌then◌else◌, drop, arith, Bool-cases, Option-cases, length-drop,
}
use smb1client.Wire.{Bytes}
use smb1client.Share.Paths.{path_separator}
use smb1client.Share.Match.{
  star, hyphen, open_bracket, close_bracket, question, is_empty, Split, skip_stars, cut_segment,
  split_chunk, norm_pattern, ClassEnd, class_end, bad_class, class_unfinished, ChunkEnd, leaves,
  mismatch, bad_pattern, chunk_unfinished, MatchEnd, match_unfinished, rune_of, class_rune,
  range_end, class_range, ends_class, class_rounds, class_of, same_bool, after_class, is_negated,
  after_negation, begins_with, chunk_rounds, match_chunk, consume, retry_star, try_star,
  match_segment, match_rounds, match_name,
}

length-after_negation : (chunk : Bytes) → length (after_negation chunk) ≤ length chunk
length-after_negation [] = omega arith
length-after_negation (c ∷ chunk) = ground arith

length-skip_stars :
    (seen : Bool) (pattern : Bytes) → length (skip_stars seen pattern).1 ≤ length pattern
unfolding skip_stars
length-skip_stars seen [] = omega arith
length-skip_stars seen (c ∷ pattern) = ground (arith, length-skip_stars true pattern)

length-cut_segment :
    (in_class : Bool) (pattern : Bytes) → length (cut_segment in_class pattern).1 ≤ length pattern
unfolding cut_segment
length-cut_segment in_class [] = omega arith
length-cut_segment in_class (c ∷ pattern) =
    ground (
      arith,
      length-cut_segment (c == open_bracket || in_class && not (c == close_bracket)) pattern,
    )

-- A round of `Match` takes at least a byte off the pattern.
split_chunk-lt :
    (c : ℕ) (pattern : Bytes) → length (split_chunk (c ∷ pattern)).rest < length (c ∷ pattern)
unfolding split_chunk skip_stars cut_segment
split_chunk-lt c pattern = elim (Bool-cases (c == star)) [
  | inl seen ↦ rw seen (
      omega (
        arith,
        length-cut_segment false (skip_stars true pattern).1,
        length-skip_stars true pattern,
      ))
  | inr other ↦
      rw (other, other) (omega (arith, length-cut_segment (c == open_bracket || false) pattern))
]

consume-ne-unfinished :
    (r : ChunkEnd) (is_last : Bool) (next : Bytes → MatchEnd) (otherwise : MatchEnd)
    → r ≢ chunk_unfinished
    → ((left : Bytes) → next left ≢ match_unfinished)
    → otherwise ≢ match_unfinished
    → consume r is_last next otherwise ≢ match_unfinished
unfolding consume
consume-ne-unfinished (leaves left) is_last next otherwise finished h k e =
    ground (arith, h left, k, e)
consume-ne-unfinished mismatch is_last next otherwise finished h k e = k e
consume-ne-unfinished bad_pattern is_last next otherwise finished h k e = absurd (cc)
consume-ne-unfinished chunk_unfinished is_last next otherwise finished h k e = finished refl

-- Every rune has a width, as `utf8.DecodeRuneInString` documents of a string that is not empty.
module _ (decode : Bytes → ℕ × ℕ)
    (has_width : (x : ℕ) (name : Bytes) → 0 < (decode (x ∷ name)).1) where
  class_rune-shorter :
      (chunk : Bytes) (rune : ℕ) (rest : Bytes)
      → class_rune decode chunk ≡ some (rune, rest)
      → length rest < length chunk
  unfolding class_rune rune_of
  class_rune-shorter [] rune rest e = absurd (cc)
  class_rune-shorter (c ∷ chunk) rune rest e =
      ground (arith, e, has_width c chunk, length-drop (decode (c ∷ chunk)).1 (c ∷ chunk))

  class_range-shorter :
      (chunk : Bytes) (range : ℕ × ℕ) (rest : Bytes)
      → class_range decode chunk ≡ some (range, rest)
      → length rest < length chunk
  unfolding range_end
  class_range-shorter chunk range rest e = elim (Option-cases (class_rune decode chunk)) [
    | inl bad ↦ absurd (ground (arith, e, bad))
    | inr ((lo, []), is) ↦ absurd (ground (arith, e, is))
    | inr ((lo, c ∷ behind), is) ↦ elim (Bool-cases (c == hyphen)) [
      | inr single ↦ ground (arith, e, is, single, class_rune-shorter chunk lo (c ∷ behind) is)
      | inl ranges ↦ elim (Option-cases (class_rune decode behind)) [
        | inl bad ↦ absurd (ground (arith, e, is, ranges, bad))
        | inr ((hi, last), is_high) ↦ ground (
          arith,
          e,
          is,
          ranges,
          is_high,
          class_rune-shorter chunk lo (c ∷ behind) is,
          class_rune-shorter behind hi last is_high,
        )
      ]
    ]
  ]

  -- A class ends, and the chunk behind it is no longer than before.
  IsFinished : ℕ → ClassEnd → Type 0
  IsFinished limit (class_end found rest) = length rest ≤ limit
  IsFinished limit bad_class = Unit
  IsFinished limit class_unfinished = ⊥

  class_rounds-IsFinished :
      (fuel rune : ℕ) (found : Bool) (ranges : ℕ) (chunk : Bytes) (limit : ℕ)
      → length chunk < fuel
      → length chunk ≤ limit
      → IsFinished limit (class_rounds decode fuel rune found ranges chunk)
  unfolding class_rounds IsFinished
  class_rounds-IsFinished zero rune found ranges chunk limit enough within = absurd (omega arith)
  class_rounds-IsFinished (suc fuel) rune found ranges chunk limit enough within =
      elim (Bool-cases (ends_class ranges chunk)) [
        | inl ends ↦ rw ends (omega (arith, length-drop 1 chunk))
        | inr more ↦ elim (Option-cases (class_range decode chunk)) [
          | inl bad ↦ rw (more, bad) tt
          | inr (((lo, hi), rest), is) ↦
              let shorter : length rest < length chunk =
                class_range-shorter chunk (lo, hi) rest is in
              rw (more, is)
                (class_rounds-IsFinished fuel rune _ (ranges + 1) rest limit (omega arith)
                  (omega arith))
        ]
      ]

  class_of-IsFinished :
      (failed : Bool) (chunk name : Bytes)
      → IsFinished (length chunk) (class_of decode failed chunk name)
  unfolding class_of
  class_of-IsFinished failed chunk name =
      class_rounds-IsFinished (length chunk + 1) _ false 0 (after_negation chunk) (length chunk)
        (omega (arith, length-after_negation chunk)) (length-after_negation chunk)

  after_class-ne-unfinished :
      (limit : ℕ) (r : ClassEnd) (next : Bool → Bytes → ChunkEnd)
      → IsFinished limit r
      → ((found : Bool) (chunk : Bytes)
          → length chunk ≤ limit
          → next found chunk ≢ chunk_unfinished)
      → after_class r next ≢ chunk_unfinished
  unfolding IsFinished
  after_class-ne-unfinished limit (class_end found rest) next finished h e = h found rest finished e
  after_class-ne-unfinished limit bad_class next finished h e = absurd (cc)
  after_class-ne-unfinished limit class_unfinished next finished h e = finished

  chunk_rounds-ne-unfinished :
      (fuel : ℕ) (failed : Bool) (chunk name : Bytes)
      → length chunk ≤ fuel
      → chunk_rounds decode fuel failed chunk name ≢ chunk_unfinished
  unfolding chunk_rounds
  chunk_rounds-ne-unfinished fuel failed [] name enough e = ground (arith, e)
  chunk_rounds-ne-unfinished zero failed (c ∷ chunk) name enough e = absurd (omega arith)
  chunk_rounds-ne-unfinished (suc fuel) failed (c ∷ chunk) name enough e =
      elim (Bool-cases (c == open_bracket)) [
        | inl opens ↦
            after_class-ne-unfinished (length chunk)
              (class_of decode (failed || is_empty name) chunk name) _
              (class_of-IsFinished (failed || is_empty name) chunk name)
              (λ found chunk' short.
                chunk_rounds-ne-unfinished fuel
                  (failed || is_empty name || same_bool found (is_negated chunk)) chunk'
                  (if failed || is_empty name then name else drop (decode name).1 name)
                  (omega arith))
              (ground (arith, e, opens))
        | inr other ↦ elim (Bool-cases (c == question)) [
          | inl any ↦
              chunk_rounds-ne-unfinished fuel
                (failed || is_empty name || begins_with path_separator name) chunk
                (if failed || is_empty name then name else drop (decode name).1 name) (omega arith)
                (ground (arith, e, other, any))
          | inr byte ↦
              chunk_rounds-ne-unfinished fuel (failed || is_empty name || not (begins_with c name))
                chunk (if failed || is_empty name then name else drop 1 name) (omega arith)
                (ground (arith, e, other, byte))
        ]
      ]

  retry_star-ne-unfinished :
      (chunk : Bytes) (is_last : Bool) (name : Bytes) (next : Bytes → MatchEnd)
      → ((left : Bytes) → next left ≢ match_unfinished)
      → retry_star decode chunk is_last name next ≢ match_unfinished
  unfolding retry_star match_chunk
  retry_star-ne-unfinished chunk is_last [] next h e = absurd (cc)
  retry_star-ne-unfinished chunk is_last (x ∷ name) next h e =
      elim (Bool-cases (x == path_separator)) [
        | inl separates ↦ absurd (ground (arith, e, separates))
        | inr inside ↦
            consume-ne-unfinished (match_chunk decode chunk name) is_last next _
              (chunk_rounds-ne-unfinished (length chunk) false chunk name (omega arith)) h
              (retry_star-ne-unfinished chunk is_last name next h) (ground (arith, e, inside))
      ]

  segment-ne-unfinished :
      (s : Split) (name : Bytes) (next : Bytes → MatchEnd)
      → ((left : Bytes) → next left ≢ match_unfinished)
      → match_segment decode s name next ≢ match_unfinished
  unfolding match_segment match_chunk try_star
  segment-ne-unfinished s name next h e = elim (Bool-cases (s.has_star && is_empty s.chunk)) [
    | inl last ↦ absurd (ground (arith, e, last))
    | inr more ↦
        consume-ne-unfinished (match_chunk decode s.chunk name) (is_empty s.rest) next
          (try_star decode s.has_star s.chunk (is_empty s.rest) name next)
          (chunk_rounds-ne-unfinished (length s.chunk) false s.chunk name (omega arith)) h
          (λ by_star.
            ground (arith, by_star, retry_star-ne-unfinished s.chunk (is_empty s.rest) name next h))
          (ground (arith, e, more))
  ]

  match_rounds-ne-unfinished :
      (fuel : ℕ) (pattern name : Bytes)
      → length pattern ≤ fuel
      → match_rounds decode fuel pattern name ≢ match_unfinished
  unfolding match_rounds
  match_rounds-ne-unfinished fuel [] name enough e = absurd (cc)
  match_rounds-ne-unfinished zero (c ∷ pattern) name enough e = absurd (omega arith)
  match_rounds-ne-unfinished (suc fuel) (c ∷ pattern) name enough e =
      segment-ne-unfinished (split_chunk (c ∷ pattern)) name _
        (λ left.
          match_rounds-ne-unfinished fuel (split_chunk (c ∷ pattern)).rest left
            (omega (arith, split_chunk-lt c pattern)))
        e

  -- `Match` ends on every pattern and every name: with an answer, or with `ErrBadPattern`.
  pub match_name-ne-unfinished :
      (normalizes : Bool) (pattern name : Bytes)
      → match_name decode normalizes pattern name ≢ match_unfinished
  unfolding match_name
  match_name-ne-unfinished normalizes pattern name =
      match_rounds-ne-unfinished _ (norm_pattern normalizes pattern) name (omega arith)
