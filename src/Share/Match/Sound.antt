-- ===== src/Share/Match/Sound.antt =====
-- A name that matches is made up of pieces that fit the pattern's segments.
use smb1client.Common.{
  All, not, ◌||◌, append-nil, ℕ, zero, suc, ◌≡◌, ◌≢◌, ◌⊎◌, inl, inr, refl, sym, ap, ◌∙◌, Bool, true,
  false, ◌&&◌, [], ◌∷◌, ◌++◌, length, ◌==◌, if◌then◌else◌, drop, arith, Bool-cases, ==_iff,
}
use smb1client.Wire.{Bytes}
use smb1client.Share.Paths.{path_separator, contains}
use smb1client.Share.Match.{
  star, close_bracket, Split, skip_stars, cut_segment, open_bracket, question, is_empty,
  split_chunk, norm_pattern, ClassEnd, class_end, bad_class, class_unfinished, ChunkEnd, leaves,
  mismatch, bad_pattern, chunk_unfinished, MatchEnd, is_match, class_of, same_bool, after_class,
  is_negated, begins_with, chunk_rounds, match_chunk, is_consumed, consume, retry_star, try_star,
  match_segment, match_rounds, match_name,
}

abbrev pub AreStars : Bytes → Type 0
AreStars = All (λ (x : ℕ). x ≡ star)

-- No star but between brackets.
abbrev pub IsSegment : Bool → Bytes → Type 0
IsSegment in_class [] = Unit {0}
IsSegment in_class (x ∷ xs) =
    ((x ≢ star) ⊎ (in_class ≡ true))
    × IsSegment (x == open_bracket || in_class && not (x == close_bracket)) xs

-- What `splitChunk` does to a pattern.
record IsCut (pattern : Bytes) (s : Split) (stars : Bytes) : Type 0 where
  whole : stars ++ (s.chunk ++ s.rest) ≡ pattern
  are_stars : AreStars stars
  is_segment : IsSegment false s.chunk
  starred : (s.has_star ≡ true) → stars ≢ []
  ends : (s.chunk ≡ []) → s.rest ≡ []

-- The run of stars that `skip_stars` passes, and what it leaves.
record IsSkipped (seen : Bool) (pattern : Bytes) (r : Bool × Bytes) (stars : Bytes) : Type 0 where
  whole : stars ++ (r.1) ≡ pattern
  are_stars : AreStars stars
  starred : (r.0 ≡ true) → (seen ≡ true) ⊎ (stars ≢ [])
  bare : begins_with star (r.1) ≡ false

skip_stars-IsSkipped :
    (seen : Bool) (pattern : Bytes)
    → (stars : Bytes) × IsSkipped seen pattern (skip_stars seen pattern) stars
unfolding skip_stars
skip_stars-IsSkipped seen [] =
    ([], record { whole = refl; are_stars = tt; starred = λ h. inl h; bare = refl })
skip_stars-IsSkipped seen (x ∷ xs) = elim (Bool-cases (x == star)) [
  | inl is ↦
      let (stars, skipped) = skip_stars-IsSkipped true xs in
      rw is (
        x ∷ stars,
        record {
          whole = ap (λ (l : Bytes). x ∷ l) skipped.whole;
          are_stars = ((==_iff x star).0 is, skipped.are_stars);
          starred = λ h. inr (λ e. cc);
          bare = skipped.bare;
        },
      )
  | inr other ↦
      rw other ([], record { whole = refl; are_stars = tt; starred = λ h. inl h; bare = other })
]

cut_segment-whole :
    (in_class : Bool) (pattern : Bytes)
    → (cut_segment in_class pattern).0 ++ (cut_segment in_class pattern).1 ≡ pattern
unfolding cut_segment
cut_segment-whole in_class [] = refl
cut_segment-whole in_class (x ∷ xs) = elim (Bool-cases (x == star && not in_class)) [
  | inl stops ↦ rw stops refl
  | inr goes_on ↦ rw goes_on (
      ap (λ (l : Bytes). x ∷ l)
        (cut_segment-whole (x == open_bracket || in_class && not (x == close_bracket)) xs))
]

cut_segment-IsSegment :
    (in_class : Bool) (pattern : Bytes) → IsSegment in_class (cut_segment in_class pattern).0
unfolding cut_segment
cut_segment-IsSegment in_class [] = tt
cut_segment-IsSegment in_class (x ∷ xs) = elim (Bool-cases (x == star && not in_class)) [
  | inl stops ↦ rw stops tt
  | inr goes_on ↦ rw goes_on (
    inside in_class goes_on,
    cut_segment-IsSegment (x == open_bracket || in_class && not (x == close_bracket)) xs,
  )
]
  where
    inside : (c : Bool) → (x == star && not c) ≡ false → (x ≢ star) ⊎ (c ≡ true)
    inside true e = inr refl
    inside false e = inl (λ is. ground (arith, e, is))

cut_segment-ends :
    (pattern : Bytes)
    → begins_with star pattern ≡ false
    → (cut_segment false pattern).0 ≡ []
    → (cut_segment false pattern).1 ≡ []
unfolding cut_segment
cut_segment-ends [] bare e = refl
cut_segment-ends (x ∷ xs) bare e = absurd (ground (arith, bare, e))

split_chunk-IsCut : (pattern : Bytes) → (stars : Bytes) × IsCut pattern (split_chunk pattern) stars
unfolding split_chunk
split_chunk-IsCut pattern =
    let (stars, skipped) = skip_stars-IsSkipped false pattern in
    let left = (skip_stars false pattern).1 in
    (
      stars,
      record {
        whole = ap (λ (l : Bytes). stars ++ l) (cut_segment-whole false left) ∙ skipped.whole;
        are_stars = skipped.are_stars;
        is_segment = cut_segment-IsSegment false left;
        starred =
            λ h. elim (skipped.starred h) [ inl never ↦ absurd (cc) | inr some_star ↦ some_star ];
        ends = λ h. cut_segment-ends left skipped.bare h;
      },
    )

after_class-leaves :
    (r : ClassEnd) (next : Bool → Bytes → ChunkEnd) (left : Bytes)
    → after_class r next ≡ leaves left
    → (found : Bool) × (chunk : Bytes) × (r ≡ class_end found chunk)
      × (next found chunk ≡ leaves left)
after_class-leaves (class_end found chunk) next left e = (found, chunk, refl, e)
after_class-leaves bad_class next left e = absurd (cc)
after_class-leaves class_unfinished next left e = absurd (cc)

consume-true :
    (r : ChunkEnd) (is_last : Bool) (next : Bytes → MatchEnd) (otherwise : MatchEnd)
    → consume r is_last next otherwise ≡ is_match true
    → ((left : Bytes) × (r ≡ leaves left) × (next left ≡ is_match true))
      ⊎ (otherwise ≡ is_match true)
unfolding consume
consume-true (leaves left) is_last next otherwise e = elim (Bool-cases (is_consumed is_last left)) [
  | inl consumed ↦
      inl (left, refl, ap (λ (b : Bool). if b then next left else otherwise) (sym consumed) ∙ e)
  | inr spare ↦ inr (ap (λ (b : Bool). if b then next left else otherwise) (sym spare) ∙ e)
]
consume-true mismatch is_last next otherwise e = inr e
consume-true bad_pattern is_last next otherwise e = absurd (cc)
consume-true chunk_unfinished is_last next otherwise e = absurd (cc)

module _ (decode : Bytes → ℕ × ℕ) where
  -- A chunk takes the front of a name: a class takes a rune that is in it, or not if it is negated; a
  -- question mark takes a rune other than the separator; any other byte takes itself.
  pub data Takes : Bytes → Bytes → Bytes → Type 0 where
    takes_nothing : {name : Bytes} → Takes [] name name
    takes_class :
        {chunk chunk' name left : Bytes} {found : Bool}
        → is_empty name ≡ false
        → class_of decode false chunk name ≡ class_end found chunk'
        → same_bool found (is_negated chunk) ≡ false
        → Takes chunk' (drop (decode name).1 name) left
        → Takes (open_bracket ∷ chunk) name left
    takes_rune :
        {chunk name left : Bytes}
        → is_empty name ≡ false
        → begins_with path_separator name ≡ false
        → Takes chunk (drop (decode name).1 name) left
        → Takes (question ∷ chunk) name left
    takes_byte :
        {c : ℕ} {chunk name left : Bytes}
        → c ≢ open_bracket
        → c ≢ question
        → Takes chunk name left
        → Takes (c ∷ chunk) (c ∷ name) left

  -- A pattern is a run of stars, a segment and the rest of the pattern. The name has what the stars
  -- skip, which is nothing if there are none and no separator in any case, then what the segment takes.
  pub data Fits : Bytes → Bytes → Type 0 where
    fits_nothing : Fits [] []
    fits_last_star :
        {stars name : Bytes}
        → AreStars stars
        → stars ≢ []
        → contains path_separator name ≡ false
        → Fits stars name
    fits_segment :
        {stars chunk rest skipped name left : Bytes}
        → AreStars stars
        → IsSegment false chunk
        → (stars ≢ []) ⊎ (skipped ≡ [])
        → contains path_separator skipped ≡ false
        → Takes chunk name left
        → Fits rest left
        → Fits (stars ++ (chunk ++ rest)) (skipped ++ name)

  -- After a failure nothing is left.
  chunk_rounds-lost :
      (fuel : ℕ) (chunk name left : Bytes) → chunk_rounds decode fuel true chunk name ≢ leaves left
  unfolding chunk_rounds
  chunk_rounds-lost fuel [] name left e = absurd (cc)
  chunk_rounds-lost zero (c ∷ chunk) name left e = absurd (cc)
  chunk_rounds-lost (suc fuel) (c ∷ chunk) name left e = elim (Bool-cases (c == open_bracket)) [
    | inl opens ↦
        let (found, chunk', is, left_by) =
          after_class-leaves (class_of decode true chunk name)
            (λ found chunk'. chunk_rounds decode fuel true chunk' name) left
            (ground (arith, e, opens)) in
        chunk_rounds-lost fuel chunk' name left left_by
    | inr other ↦ elim (Bool-cases (c == question)) [
      | inl any ↦ chunk_rounds-lost fuel chunk name left (ground (arith, e, other, any))
      | inr byte ↦ chunk_rounds-lost fuel chunk name left (ground (arith, e, other, byte))
    ]
  ]

  chunk_rounds-Takes :
      (fuel : ℕ) (chunk name left : Bytes)
      → chunk_rounds decode fuel false chunk name ≡ leaves left
      → Takes chunk name left
  unfolding chunk_rounds
  chunk_rounds-Takes fuel [] name left e =
      let same : name ≡ left = ground (arith, e) in rw same takes_nothing
  chunk_rounds-Takes zero (c ∷ chunk) name left e = absurd (cc)
  chunk_rounds-Takes (suc fuel) (c ∷ chunk) [] left e =
      absurd (chunk_rounds-lost (suc fuel) (c ∷ chunk) [] left e)
  chunk_rounds-Takes (suc fuel) (c ∷ chunk) (x ∷ name) left e =
      elim (Bool-cases (c == open_bracket)) [
        | inl opens ↦
            let (found, chunk', is, left_by) =
              after_class-leaves (class_of decode false chunk (x ∷ name))
                (λ found chunk'.
                  chunk_rounds decode fuel (same_bool found (is_negated chunk)) chunk'
                    (drop (decode (x ∷ name)).1 (x ∷ name)))
                left (ground (arith, e, opens)) in
            elim (Bool-cases (same_bool found (is_negated chunk))) [
              | inl lost ↦ absurd (
                  chunk_rounds-lost fuel chunk' _ left (
                    ap
                      (λ (b : Bool).
                        chunk_rounds decode fuel b chunk' (drop (decode (x ∷ name)).1 (x ∷ name)))
                      (sym lost)
                    ∙ left_by))
              | inr fine ↦ rw ((==_iff c open_bracket).0 opens) (
                  takes_class refl is fine (
                    chunk_rounds-Takes fuel chunk' _ left (
                      ap
                        (λ (b : Bool).
                          chunk_rounds decode fuel b chunk' (drop (decode (x ∷ name)).1 (x ∷ name)))
                        (sym fine)
                      ∙ left_by)))
            ]
        | inr other ↦ elim (Bool-cases (c == question)) [
          | inl any ↦ elim (Bool-cases (x == path_separator)) [
            | inl separates ↦ absurd (
                chunk_rounds-lost fuel chunk (drop (decode (x ∷ name)).1 (x ∷ name)) left
                  (ground (arith, e, other, any, separates)))
            | inr fine ↦ rw ((==_iff c question).0 any) (
                takes_rune refl fine
                  (chunk_rounds-Takes fuel chunk _ left (ground (arith, e, other, any, fine))))
          ]
          | inr byte ↦ elim (Bool-cases (x == c)) [
            | inl same ↦ rw ((==_iff x c).0 same) (
                takes_byte (ground (arith, other)) (ground (arith, byte))
                  (chunk_rounds-Takes fuel chunk name left (ground (arith, e, other, byte, same))))
            | inr differs ↦
                absurd
                  (chunk_rounds-lost fuel chunk name left (ground (arith, e, other, byte, differs)))
          ]
        ]
      ]

  -- Where a chunk was taken, behind what a star has skipped.
  abbrev IsTaken : Bytes → Bytes → Bytes → Bytes → Bytes → Type 0
  IsTaken chunk name skipped rest left =
      (skipped ++ rest ≡ name) × (contains path_separator skipped ≡ false) × Takes chunk rest left

  retry_star-true :
      (chunk : Bytes) (is_last : Bool) (name : Bytes) (next : Bytes → MatchEnd)
      → retry_star decode chunk is_last name next ≡ is_match true
      → (skipped : Bytes) × (rest : Bytes) × (left : Bytes) × IsTaken chunk name skipped rest left
        × (next left ≡ is_match true)
  unfolding retry_star match_chunk
  retry_star-true chunk is_last [] next e = absurd (cc)
  retry_star-true chunk is_last (x ∷ name) next e = elim (Bool-cases (x == path_separator)) [
    | inl separates ↦ absurd (ground (arith, e, separates))
    | inr inside ↦
        elim (consume-true (match_chunk decode chunk name) is_last next
          (retry_star decode chunk is_last name next)
          (ap
              (λ (b : Bool).
                if b
                then is_match false
                else consume (match_chunk decode chunk name) is_last next
                    (retry_star decode chunk is_last name next))
              (sym inside)
            ∙ e)) [
              | inl (left, taken, matches) ↦ (
                x ∷ [],
                name,
                left,
                (refl, rw inside refl, chunk_rounds-Takes (length chunk) chunk name left taken),
                matches,
              )
              | inr later ↦
                  let (skipped, rest, left, (whole, clean, takes), matches) =
                    retry_star-true chunk is_last name next later in
                  (
                    x ∷ skipped,
                    rest,
                    left,
                    (ap (λ (l : Bytes). x ∷ l) whole, rw inside clean, takes),
                    matches,
                  )
            ]
  ]

  -- What the rounds do with a segment that has been cut.
  segment-Fits :
      (pattern name stars : Bytes) (s : Split) (next : Bytes → MatchEnd)
      → IsCut pattern s stars
      → match_segment decode s name next ≡ is_match true
      → ((left : Bytes) → next left ≡ is_match true → Fits s.rest left)
      → Fits pattern name
  unfolding match_segment match_chunk try_star
  segment-Fits pattern name stars s next c e rest =
      elim (Bool-cases (s.has_star && is_empty s.chunk)) [
        | inl last ↦
            let none_left : s.chunk ≡ [] = no_chunk s.chunk (ground (arith, last)) in
            rw (all_stars none_left (c.ends none_left)) at (
              fits_last_star {name = name} c.are_stars (c.starred (ground (arith, last)))
                (ground (arith, e, last)))
        | inr more ↦ rw (c.whole) at (
            by_taking (
              consume-true (match_chunk decode s.chunk name) (is_empty s.rest) next
                (try_star decode s.has_star s.chunk (is_empty s.rest) name next)
                (ground (arith, e, more))))
      ]
    where
      no_chunk : (chunk : Bytes) → is_empty chunk ≡ true → chunk ≡ []
      no_chunk [] h = refl
      no_chunk (x ∷ chunk) h = absurd (cc)

      by_taking :
          ((left : Bytes) × (match_chunk decode s.chunk name ≡ leaves left)
              × (next left ≡ is_match true))
            ⊎ (try_star decode s.has_star s.chunk (is_empty s.rest) name next ≡ is_match true)
          → Fits (stars ++ (s.chunk ++ s.rest)) name
      by_taking (inl (left, taken, matches)) =
          fits_segment {skipped = []} c.are_stars c.is_segment (inr refl) refl
            (chunk_rounds-Takes _ _ name left taken) (rest left matches)
      by_taking (inr by_star) = elim (Bool-cases s.has_star) [
        | inr none_seen ↦ absurd (ground (arith, by_star, none_seen))
        | inl seen ↦
            let (skipped, behind, left, (whole, clean, takes), matches) =
              retry_star-true s.chunk (is_empty s.rest) name next (ground (arith, by_star, seen)) in
            rw whole at (
              fits_segment {skipped = skipped} c.are_stars c.is_segment (inl (c.starred seen)) clean
                takes (rest left matches))
      ]

      all_stars : s.chunk ≡ [] → s.rest ≡ [] → stars ≡ pattern
      all_stars a b =
          sym (append-nil stars)
          ∙ ap (λ (l : Bytes). stars ++ l) (sym (ap (λ (l : Bytes). l ++ s.rest) a ∙ b))
          ∙ c.whole

  match_rounds-Fits :
      (fuel : ℕ) (pattern name : Bytes)
      → match_rounds decode fuel pattern name ≡ is_match true
      → Fits pattern name
  unfolding match_rounds
  match_rounds-Fits fuel [] [] e = fits_nothing
  match_rounds-Fits fuel [] (x ∷ name) e = absurd (cc)
  match_rounds-Fits zero (c ∷ pattern) name e = absurd (cc)
  match_rounds-Fits (suc fuel) (c ∷ pattern) name e =
      segment-Fits (c ∷ pattern) name (split_chunk-IsCut (c ∷ pattern)).0
        (split_chunk (c ∷ pattern)) _ (split_chunk-IsCut (c ∷ pattern)).1 e
        (λ left matches. match_rounds-Fits fuel (split_chunk (c ∷ pattern)).rest left matches)

  -- A name that matches fits the normalized pattern: the pattern is segments without a star but between
  -- brackets, each behind a run of stars; the name is made up of pieces that the segments take in order,
  -- with nothing left over, and only where there is a star has it bytes ahead of a piece, and never a
  -- separator.
  pub match_name-Fits :
      (normalizes : Bool) (pattern name : Bytes)
      → match_name decode normalizes pattern name ≡ is_match true
      → Fits (norm_pattern normalizes pattern) name
  unfolding match_name
  match_name-Fits normalizes pattern name e =
      match_rounds-Fits _ (norm_pattern normalizes pattern) name e
