-- ===== src/Smb1/Values/ReadBack.antt =====
-- What `EncodeParameters` builds, and what the readers find in it.
use smb1client.Common.{
  ℕ, ◌+◌, ◌%◌, ◌^◌, ◌≡◌, ◌≤◌, ◌<◌, refl, sym, ◌∙◌, ap, false, List, [], ◌∷◌, ◌++◌, length, ltb, leb,
  ◌==◌, Outcome, ok, err, panic, ◌>>=◌, arith, length-append, Bool-cases, inl, inr, ◌⊎◌,
  append_assoc, append-nil, le→ltb, lt→leb, ltb→lt, ltb_false→le,
}
use smb1client.Common.Int.{pos}
use smb1client.Wire.{Bytes, put_u16, put_u32, put_u64, slice}
use smb1client.Wire.Codec.{u16_of-put, u32_of-put, u64_of-put}
use smb1client.Wire.Cuts.{cut-append, index-append, cut-slice}
use smb1client.Smb1.Values.{
  ValueError, out_of_range, Value, uint8, uint16, uint32, uint64, bytes, unsupported, value_bytes,
  append_values, pad_even, encode_parameters, decode_uint8, field_at, decode_uint16, decode_uint32,
  decode_uint64, decode_bytes, IsValue,
}

append_values-prefix :
    (buf : Bytes) (vs : List Value) {raw : Bytes}
    → append_values buf vs ≡ ok raw
    → (rest : Bytes) × (raw ≡ buf ++ rest)
unfolding append_values
append_values-prefix buf [] {raw} e =
    ([], let same : buf ≡ raw = cc in sym same ∙ sym (append-nil buf))
append_values-prefix buf (v ∷ vs) {raw} e =
    onward (value_bytes v) e (λ b. append_values-prefix (buf ++ b) vs)
  where
    onward :
        (o : Outcome ValueError Bytes)
        → (o >>= λ b. append_values (buf ++ b) vs) ≡ ok raw
        → ((b : Bytes)
            → append_values (buf ++ b) vs ≡ ok raw
            → (rest : Bytes) × (raw ≡ buf ++ b ++ rest))
        → (rest : Bytes) × (raw ≡ buf ++ rest)
    onward (ok b) h later =
        let (rest, same) = later b h in (b ++ rest, same ∙ append_assoc buf b rest)
    onward (err x) h later = absurd (cc)
    onward panic h later = absurd (cc)

-- Where a value's bytes stand in the buffer.
record Placed (buf : Bytes) (vs : List Value) (v : Value) (raw : Bytes) : Type 0 where
  front : Bytes
  mid : Bytes
  back : Bytes
  before : append_values buf vs ≡ ok front
  here : value_bytes v ≡ ok mid
  whole : raw ≡ front ++ (mid ++ back)

place_here :
    (buf : Bytes) (v : Value) (ws : List Value) (o : Outcome ValueError Bytes) {raw : Bytes}
    → value_bytes v ≡ o
    → (o >>= λ b. append_values (buf ++ b) ws) ≡ ok raw
    → Placed buf [] v raw
unfolding append_values
place_here buf v ws (ok b) at_v e =
    let (rest, same) = append_values-prefix (buf ++ b) ws e in
    record {
      front = buf;
      mid = b;
      back = rest;
      before = refl;
      here = at_v;
      whole = same ∙ append_assoc buf b rest;
    }
place_here buf v ws (err x) at_v e = absurd (cc)
place_here buf v ws panic at_v e = absurd (cc)

append_values-Placed :
    (buf : Bytes) (vs : List Value) (v : Value) (ws : List Value) {raw : Bytes}
    → append_values buf (vs ++ (v ∷ ws)) ≡ ok raw
    → Placed buf vs v raw
unfolding append_values
append_values-Placed buf [] v ws e = place_here buf v ws (value_bytes v) refl e
append_values-Placed buf (u ∷ vs) v ws {raw} e =
    later (value_bytes u) refl e (λ b h. append_values-Placed (buf ++ b) vs v ws h)
  where
    later :
        (o : Outcome ValueError Bytes)
        → value_bytes u ≡ o
        → (o >>= λ b. append_values (buf ++ b) (vs ++ (v ∷ ws))) ≡ ok raw
        → ((b : Bytes)
            → append_values (buf ++ b) (vs ++ (v ∷ ws)) ≡ ok raw
            → Placed (buf ++ b) vs v raw)
        → Placed buf (u ∷ vs) v raw
    later (ok b) at_u h k =
        let p : Placed (buf ++ b) vs v raw = k b h in
        record {
          front = p.front;
          mid = p.mid;
          back = p.back;
          before = rw at_u p.before;
          here = p.here;
          whole = p.whole;
        }
    later (err x) at_u h k = absurd (cc)
    later panic at_u h k = absurd (cc)

-- A value read at an offset by the reader of its width.
abbrev pub IsRead : Value → Bytes → ℕ → Type 0
IsRead (uint8 v) raw i = decode_uint8 raw (pos i) ≡ ok v
IsRead (uint16 v) raw i = decode_uint16 raw (pos i) ≡ ok v
IsRead (uint32 v) raw i = decode_uint32 raw (pos i) ≡ ok v
IsRead (uint64 v) raw i = decode_uint64 raw (pos i) ≡ ok v
IsRead (bytes b) raw i = decode_bytes raw (pos i) (pos (length b)) ≡ ok b
IsRead unsupported raw i = ⊥

field_at-append :
    (raw front mid back : Bytes)
    → raw ≡ front ++ (mid ++ back)
    → length raw < 2 ^ 63
    → field_at raw (pos (length front)) (length mid) ≡ ok mid
unfolding field_at
field_at-append raw front mid back e h =
    let within : length front + length mid ≤ length raw =
      omega (arith, ap length e, length-append front (mid ++ back), length-append mid back) in
    let sound : leb (2 ^ 63) (length front + length mid) ≡ false =
      lt→leb (2 ^ 63) (length front + length mid) (omega arith) in
    let short : ltb (length raw) (length front + length mid) ≡ false =
      le→ltb (length raw) (length front + length mid) within in
    rw (
      sound,
      short,
      cut-append {E = ValueError} raw front mid back (length front) (length front + length mid) e
          refl refl,
    )

-- What `EncodeParameters` builds is always a whole number of words, as `EncodePacket` wants it.
pub encode_parameters_even :
    (vs : List Value) {raw : Bytes} → encode_parameters vs ≡ ok raw → length raw % 2 ≡ 0
unfolding encode_parameters pad_even
encode_parameters_even vs {raw} e = even (append_values [] vs) e
  where
    even :
        (o : Outcome ValueError Bytes)
        → (o >>= λ buf. ok (pad_even buf)) ≡ ok raw
        → length raw % 2 ≡ 0
    even (ok buf) e = ground (arith, length-append buf (0 ∷ []))
    even (err x) e = ground arith
    even panic e = ground arith

value_bytes-IsRead :
    (v : Value) (raw front mid back : Bytes)
    → IsValue v
    → value_bytes v ≡ ok mid
    → raw ≡ front ++ (mid ++ back)
    → length raw < 2 ^ 63
    → IsRead v raw (length front)
unfolding value_bytes decode_uint8 decode_uint16 decode_uint32 decode_uint64 decode_bytes
value_bytes-IsRead (uint8 v) raw front mid back r e w h =
    let same : v ∷ [] ≡ mid = cc in
    let placed : raw ≡ front ++ (v ∷ back) =
      w ∙ ap (λ (m : Bytes). front ++ (m ++ back)) (sym same) in
    let inside : leb (length raw) (length front) ≡ false =
      lt→leb (length raw) (length front)
        (omega (arith, ap length placed, length-append front (v ∷ back))) in
    rw (inside, index-append {E = ValueError} raw front back v (length front) placed refl)
value_bytes-IsRead (uint16 v) raw front mid back r e w h =
    let same : put_u16 v ≡ mid = cc in
    rw (
      field_at-append raw front (put_u16 v) back
          (w ∙ ap (λ (m : Bytes). front ++ (m ++ back)) (sym same)) h,
      u16_of-put v [] r,
    )
value_bytes-IsRead (uint32 v) raw front mid back r e w h =
    let same : put_u32 v ≡ mid = cc in
    rw (
      field_at-append raw front (put_u32 v) back
          (w ∙ ap (λ (m : Bytes). front ++ (m ++ back)) (sym same)) h,
      u32_of-put v [] r,
    )
value_bytes-IsRead (uint64 v) raw front mid back r e w h =
    let same : put_u64 v ≡ mid = cc in
    rw (
      field_at-append raw front (put_u64 v) back
          (w ∙ ap (λ (m : Bytes). front ++ (m ++ back)) (sym same)) h,
      u64_of-put v [] r,
    )
value_bytes-IsRead (bytes b) raw front mid back r e w h =
    let same : b ≡ mid = cc in
    field_at-append raw front b back (w ∙ ap (λ (m : Bytes). front ++ (m ++ back)) (sym same)) h
value_bytes-IsRead unsupported raw front mid back r e w h = absurd (cc)

pad_even-prefix : (buf : Bytes) → (rest : Bytes) × (pad_even buf ≡ buf ++ rest)
unfolding pad_even
pad_even-prefix buf = elim (Bool-cases (length buf % 2 == 0)) [
  | inl even ↦ ([], rw even (sym (append-nil buf)))
  | inr odd ↦ (0 ∷ [], rw odd)
]

-- Every value, within the range of its type, that `EncodeParameters` was given is read back from
-- what it built, by the reader of its width, at the place where the values before it end; for less
-- than 2^63 bytes.
pub encode_parameters-IsRead :
    (vs : List Value) (v : Value) (ws : List Value) {raw : Bytes}
    → IsValue v
    → encode_parameters (vs ++ (v ∷ ws)) ≡ ok raw
    → length raw < 2 ^ 63
    → (front : Bytes) × (append_values [] vs ≡ ok front) × IsRead v raw (length front)
unfolding encode_parameters
encode_parameters-IsRead vs v ws {raw} r e h = found (append_values [] (vs ++ (v ∷ ws))) refl e
  where
    found :
        (o : Outcome ValueError Bytes)
        → append_values [] (vs ++ (v ∷ ws)) ≡ o
        → (o >>= λ buf. ok (pad_even buf)) ≡ ok raw
        → (front : Bytes) × (append_values [] vs ≡ ok front) × IsRead v raw (length front)
    found (ok buf) built h' =
        let p : Placed [] vs v buf = append_values-Placed [] vs v ws built in
        let (rest, padded) = pad_even-prefix buf in
        let same : pad_even buf ≡ raw = cc in
        (
          p.front,
          p.before,
          value_bytes-IsRead v raw p.front p.mid (p.back ++ rest) r p.here
              (sym same
                ∙ padded
                ∙ ap (λ (b : Bytes). b ++ rest) p.whole
                ∙ append_assoc p.front (p.mid ++ p.back) rest
                ∙ ap (λ (b : Bytes). p.front ++ b) (append_assoc p.mid p.back rest))
              h,
        )
    found (err x) built h' = absurd (cc)
    found panic built h' = absurd (cc)

-- A reader never panics at an offset, not negative, that leaves room for its width below 2^63; it
-- gives the bytes there if they are all within the buffer, and refuses the offset if not.
pub read_at_cases :
    (buf : Bytes) (i n : ℕ)
    → i + n < 2 ^ 63
    → (i + n ≤ length buf) × (field_at buf (pos i) n ≡ ok (slice buf i n))
      ⊎ (length buf < i + n) × (field_at buf (pos i) n ≡ err out_of_range)
unfolding field_at
read_at_cases buf i n h =
    let sound : leb (2 ^ 63) (i + n) ≡ false = lt→leb (2 ^ 63) (i + n) h in
    elim (Bool-cases (ltb (length buf) (i + n))) [
      | inl beyond ↦ inr (ltb→lt _ _ beyond, rw (sound, beyond))
      | inr within ↦ inl (
        ltb_false→le _ _ within,
        rw (
          sound,
          within,
          cut-slice {E = ValueError} buf i n (i + n) refl (ltb_false→le _ _ within),
        ),
      )
    ]
