-- ===== src/Smb1/Trans2/Decode.antt =====
-- The response decoder's reads and the sections that it finds.
use smb1client.Common.{
  ℕ, zero, suc, ◌+◌, ◌-◌, ◌*◌, ◌≤◌, ◌<◌, ◌≡◌, ◌≢◌, ◌⊎◌, inl, inr, refl, sym, ◌∙◌, true, false, List,
  [], ◌∷◌, length, ltb, leb, ◌==◌, Outcome, ok, err, panic, ◌>>=◌, arith, Bool-cases, ltb_false→le,
  ◌&&◌,
}
use smb1client.Wire.{Bytes, byte_at, u16_of, slice}
use smb1client.Wire.Cuts.{cut-slice, index_in_range}
use smb1client.Smb1.Header.{header_size}
use smb1client.Smb1.Trans2.{
  empty_response, Trans2Response, Trans2Error, read_u16, read_setup, section_at, decode_setup,
  decode_trans2_response, parameters_too_short,
}

read_u16_lem : (b : Bytes) (i : ℕ) → i + 2 ≤ length b → read_u16 b i ≡ ok (u16_of (slice b i 2))
read_u16_lem b i h = rw (cut-slice {E = Trans2Error} b i 2 (i + 2) refl h)

read_setup_ok :
    (n : ℕ) (b : Bytes) (i : ℕ) → i + n * 2 ≤ length b → (ws : List ℕ) × (read_setup n b i ≡ ok ws)
unfolding read_setup
read_setup_ok zero b i h = ([], refl)
read_setup_ok (suc n) b i h =
    let (ws, e) = read_setup_ok n b (i + 2) (omega arith) in
    (u16_of (slice b i 2) ∷ ws, rw (read_u16_lem b i (omega arith), e))

decode_setup-ne-panic : (n : ℕ) (b : Bytes) → decode_setup n b ≢ panic
unfolding decode_setup
decode_setup-ne-panic n b e = elim (Bool-cases (ltb (length b) (20 + n * 2))) [
  | inl short ↦ ground (arith, short)
  | inr long ↦ let (ws, r) = read_setup_ok n b 20 (ltb_false→le _ _ long) in ground (arith, long, r)
]

-- Nothing is stated, or what is stated lies outside of the data section.
abbrev pub IsOutside : ℕ → ℕ → ℕ → Bytes → Type 0
IsOutside count offset data_start bytes =
    (count ≡ 0)
    ⊎ (offset ≡ 0)
    ⊎ (offset < data_start)
    ⊎ (length bytes < offset - data_start + count)

-- Parameters and data are the message's bytes at the stated offset and as many as stated, or, where
-- that lies outside of the data section, none.
abbrev pub IsSection : ℕ → ℕ → ℕ → Bytes → Bytes → Type 0
IsSection count offset data_start bytes found =
    (found ≡ []) × IsOutside count offset data_start bytes
    ⊎ (found ≡ slice bytes (offset - data_start) count)
      × (data_start ≤ offset)
      × (offset - data_start + count ≤ length bytes)

section_at-IsOutside :
    (count offset data_start : ℕ) (bytes : Bytes)
    → (ltb 0 count
        && (ltb 0 offset
            && (leb data_start offset && leb (offset - data_start + count) (length bytes))))
      ≡ false
    → IsOutside count offset data_start bytes
section_at-IsOutside count offset data_start bytes e = ground arith

section_at-IsSection :
    (count offset data_start : ℕ) (bytes : Bytes)
    → (found : Bytes) × (section_at count offset data_start bytes ≡ ok found)
      × IsSection count offset data_start bytes found
unfolding section_at
section_at-IsSection count offset data_start bytes =
    elim (Bool-cases (
      ltb 0 count
      && (ltb 0 offset
          && (leb data_start offset && leb (offset - data_start + count) (length bytes))))) [
            | inr outside ↦ (
              [],
              rw outside,
              inl (refl, section_at-IsOutside count offset data_start bytes outside),
            )
            | inl inside ↦ (
              slice bytes (offset - data_start) count,
              rw (
                inside,
                cut-slice {E = Trans2Error} bytes (offset - data_start) count
                    (offset - data_start + count) refl (ground arith),
              ),
              inr (refl, ground arith, ground arith),
            )
          ]

-- The fields at their offsets, with no check of a slice's range.
abbrev fields : Bytes → List ℕ → Bytes → Bytes → Trans2Response
fields b setup parameters content = record {
  total_parameter_count = u16_of (slice b 0 2);
  total_data_count = u16_of (slice b 2 2);
  reserved = u16_of (slice b 4 2);
  parameter_count = u16_of (slice b 6 2);
  parameter_offset = u16_of (slice b 8 2);
  parameter_displacement = u16_of (slice b 10 2);
  data_count = u16_of (slice b 12 2);
  data_offset = u16_of (slice b 14 2);
  data_displacement = u16_of (slice b 16 2);
  setup_count = byte_at b 18;
  reserved2 = byte_at b 19;
  setup = setup;
  parameters = parameters;
  content = content;
}

abbrev SectionAt : ℕ → ℕ → ℕ → Bytes → Type 0
SectionAt count offset data_start bytes =
    (found : Bytes) × (section_at count offset data_start bytes ≡ ok found)
    × IsSection count offset data_start bytes found

module _ (params bytes : Bytes) (long : ltb (length params) 20 ≡ false) where
  abbrev data_start : ℕ
  data_start = header_size + 1 + length params + 2

  with_sections :
      (setup : Outcome Trans2Error (List ℕ))
      (p : SectionAt (u16_of (slice params 6 2)) (u16_of (slice params 8 2)) data_start bytes)
      (c : SectionAt (u16_of (slice params 12 2)) (u16_of (slice params 14 2)) data_start bytes)
      → (setup >>= λ ws.
          section_at (u16_of (slice params 6 2)) (u16_of (slice params 8 2)) data_start bytes
          >>= λ ps.
              section_at (u16_of (slice params 12 2)) (u16_of (slice params 14 2)) data_start bytes
              >>= λ cs. ok (fields params ws ps cs))
        ≡ (setup >>= λ ws. ok (fields params ws p.0 c.0))
  with_sections (ok ws) (ps, p, _) (cs, c, _) = rw (p, c)
  with_sections (err e) p c = refl
  with_sections panic p c = refl

  nonempty : (length params == 0) ≡ false
  nonempty = ground arith

  enough : (i : ℕ) → i + 2 ≤ 20 → i + 2 ≤ length params
  enough i h = omega (arith, ltb_false→le _ _ long)

  decode_trans2_long :
      (p : SectionAt (u16_of (slice params 6 2)) (u16_of (slice params 8 2)) data_start bytes)
      (c : SectionAt (u16_of (slice params 12 2)) (u16_of (slice params 14 2)) data_start bytes)
      → decode_trans2_response params bytes
        ≡ (decode_setup (byte_at params 18) params >>= λ ws. ok (fields params ws p.0 c.0))
  unfolding decode_trans2_response
  decode_trans2_long p c =
      rw
        (
          nonempty,
          long,
          read_u16_lem params 0 (enough 0 (omega arith)),
          read_u16_lem params 2 (enough 2 (omega arith)),
          read_u16_lem params 4 (enough 4 (omega arith)),
          read_u16_lem params 6 (enough 6 (omega arith)),
          read_u16_lem params 8 (enough 8 (omega arith)),
          read_u16_lem params 10 (enough 10 (omega arith)),
          read_u16_lem params 12 (enough 12 (omega arith)),
          read_u16_lem params 14 (enough 14 (omega arith)),
          read_u16_lem params 16 (enough 16 (omega arith)),
          index_in_range {E = Trans2Error} params 18 (enough 17 (omega arith)),
          index_in_range {E = Trans2Error} params 19 (enough 18 (omega arith)),
        )
        (with_sections (decode_setup (byte_at params 18) params) p c)

-- What a successful decoding says of the two sections.
abbrev pub AreSections : Bytes → Bytes → Trans2Response → Type 0
AreSections params bytes r =
    IsSection r.parameter_count r.parameter_offset (header_size + 1 + length params + 2) bytes
      r.parameters
    × IsSection r.data_count r.data_offset (header_size + 1 + length params + 2) bytes r.content

bind_setup :
    (params bytes ps cs : Bytes) (setup : Outcome Trans2Error (List ℕ)) {r : Trans2Response}
    → AreSections params bytes (fields params [] ps cs)
    → (setup >>= λ ws. ok (fields params ws ps cs)) ≡ ok r
    → AreSections params bytes r
bind_setup params bytes ps cs (ok ws) {r} h e =
    let same : fields params ws ps cs ≡ r = ground arith in rw (← same) h
bind_setup params bytes ps cs (err x) h e = cc
bind_setup params bytes ps cs panic h e = cc

decode_trans2_short :
    (params bytes : Bytes)
    → ltb (length params) 20 ≡ true
    → (decode_trans2_response params bytes ≡ ok empty_response)
      ⊎ (decode_trans2_response params bytes ≡ err parameters_too_short)
unfolding decode_trans2_response
decode_trans2_short [] bytes h = inl refl
decode_trans2_short (x ∷ params) bytes h = inr (ground arith)

parameters_section :
    (params bytes : Bytes)
    → SectionAt
        (u16_of (slice params 6 2))
        (u16_of (slice params 8 2))
        (header_size + 1 + length params + 2)
        bytes
parameters_section params bytes = section_at-IsSection _ _ _ bytes

data_section :
    (params bytes : Bytes)
    → SectionAt
        (u16_of (slice params 12 2))
        (u16_of (slice params 14 2))
        (header_size + 1 + length params + 2)
        bytes
data_section params bytes = section_at-IsSection _ _ _ bytes

-- `DecodeTrans2Response` never panics, on any message.
pub decode_trans2-ne-panic : (params bytes : Bytes) → decode_trans2_response params bytes ≢ panic
decode_trans2-ne-panic params bytes e = elim (Bool-cases (ltb (length params) 20)) [
  | inl short ↦ ground (arith, decode_trans2_short params bytes short)
  | inr long ↦ ground (
    arith,
    sym (
          decode_trans2_long params bytes long (parameters_section params bytes)
            (data_section params bytes))
        ∙ e,
    decode_setup-ne-panic (byte_at params 18) params,
  )
]

-- The parameters and the data of a decoded response are each the bytes that the response states, at
-- the offset from the packet's start that it states; they are empty just where it states none or
-- where those bytes lie outside of the data section.
pub decode_trans2_sound :
    (params bytes : Bytes) {r : Trans2Response}
    → decode_trans2_response params bytes ≡ ok r
    → AreSections params bytes r
decode_trans2_sound params bytes {r} e = elim (Bool-cases (ltb (length params) 20)) [
  | inl short ↦ empty_case (decode_trans2_short params bytes short)
  | inr long ↦
      let ps = parameters_section params bytes in
      let cs = data_section params bytes in
      bind_setup params bytes ps.0 cs.0 (decode_setup (byte_at params 18) params) (ps.2, cs.2)
        (sym (decode_trans2_long params bytes long ps cs) ∙ e)
]
  where
    empty_case :
        (decode_trans2_response params bytes ≡ ok empty_response)
          ⊎ (decode_trans2_response params bytes ≡ err parameters_too_short)
        → AreSections params bytes r
    empty_case (inl h) =
        let same : empty_response ≡ r = cc in
        rw (← same) (inl (refl, inl refl), inl (refl, inl refl))
    empty_case (inr h) = cc
