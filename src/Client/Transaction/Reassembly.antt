-- ===== src/Client/Transaction/Reassembly.antt =====
-- Replies that are cut into messages, and their reassembly.
use smb1client.Common.{
  ℕ, suc, ◌+◌, ◌-◌, ◌%◌, ◌^◌, ◌≤◌, ◌<◌, ◌≡◌, refl, true, false, ◌&&◌, Option, none, some, List, [],
  ◌∷◌, ◌++◌, length, leb, ◌==◌, Outcome, ok, arith, le→ltb, length-append, append_assoc, append-nil,
  ◌⊎◌,
}
use smb1client.Wire.{Bytes}
use smb1client.Smb1.Header.{is_error}
use smb1client.Smb1.Packet.{Packet}
use smb1client.Smb1.Trans2.{Trans2Response, decode_trans2_response}
use smb1client.Client.Conn.{ConnError}
use smb1client.Client.Transaction.{
  Assembly, first_assembly, again, finished, reassemble, add_fragment, assembly_of,
  place_parameters, place_data, check_complete, guard_progress, max_trans2_fragments,
  place_fragment, parameter_overflow, data_overflow,
}
use smb1client.Client.Transaction.Place.{filled, place_fragment-filled}

-- A message of the reply, with what it decodes to.
abbrev pub Message : Type 0
Message = Packet × Trans2Response

-- A message that carries its share of a reply of `np` parameter bytes and `nd` data bytes, from the
-- places `i` and `j` on: some byte, and none past the end.
pub record IsShare (np nd i j : ℕ) (m : Message) : Type 0 where
  pub decodes : decode_trans2_response (m.0).parameters (m.0).content ≡ ok m.1
  pub succeeds : is_error (m.0).header ≡ false
  pub total_parameters : (m.1).total_parameter_count ≡ np
  pub total_data : (m.1).total_data_count ≡ nd
  pub parameters_at : (m.1).parameter_displacement ≡ i
  pub data_at : (m.1).data_displacement ≡ j
  pub parameters_fit : i + length (m.1).parameters ≤ np
  pub data_fit : j + length (m.1).content ≤ nd
  pub some_byte : 0 < length (m.1).parameters + length (m.1).content

-- The messages carry the reply from the places `i` and `j` to its end, each where the last ended.
abbrev pub Carry : ℕ → ℕ → ℕ → ℕ → List Message → Type 0
Carry np nd i j [] = (i ≡ np) × (j ≡ nd)
Carry np nd i j (m ∷ ms) =
    IsShare np nd i j m × Carry np nd (i + length (m.1).parameters) (j + length (m.1).content) ms

abbrev pub all_parameters : List Message → Bytes
all_parameters [] = []
all_parameters (m ∷ ms) = (m.1).parameters ++ all_parameters ms

abbrev pub all_data : List Message → Bytes
all_data [] = []
all_data (m ∷ ms) = (m.1).content ++ all_data ms

-- What the loop is given.
abbrev pub arrivals : List Message → List (Outcome ConnError Packet)
arrivals [] = []
arrivals (m ∷ ms) = ok m.0 ∷ arrivals ms

-- The loop's state when `fp` and `fd` have arrived in `r` messages before the last one.
abbrev so_far : Packet → Trans2Response → ℕ → ℕ → Bytes → Bytes → ℕ → Assembly
so_far first assembled np nd fp fd r = record {
  first = first;
  assembled = assembled;
  param_buf = filled fp (np - length fp);
  data_buf = filled fd (nd - length fd);
  got_params = length fp;
  got_data = length fd;
  want_params = np;
  want_data = nd;
  fragments_read = r;
  empty_fragments = 0;
}

grow : (n : ℕ) (front frag : Bytes) → n - length front - length frag ≡ n - length (front ++ frag)
grow n front frag = omega (arith, length-append front frag)

all_filled : (buf : Bytes) (n : ℕ) → length buf ≡ n → filled buf (n - length buf) ≡ buf
all_filled buf n e = let none_left : n - length buf ≡ 0 = omega arith in rw (none_left, append-nil)

both : (np nd a b : ℕ) → np ≤ a → nd ≤ b → (leb np a && leb nd b) ≡ true
both np nd a b h k = ground arith

one_short : (np nd a b : ℕ) → (a < np) ⊎ (b < nd) → (leb np a && leb nd b) ≡ false
one_short np nd a b h = ground arith

not_empty : (a b : ℕ) → 0 < a + b → (a == 0 && b == 0) ≡ false
not_empty a b h = ground arith

module _ (first : Packet) (assembled : Trans2Response) (np nd : ℕ) where
  abbrev reply : Bytes → Bytes → Trans2Response
  reply params content = record assembled {
    parameters = params;
    content = content;
    parameter_count = np % 2 ^ 16;
    data_count = nd % 2 ^ 16;
  }

  -- A share is placed behind what has arrived.
  place_share :
      (fp fd : Bytes) (r : ℕ) (m : Message)
      → IsShare np nd (length fp) (length fd) m
      → place_parameters m.1 (so_far first assembled np nd fp fd r) (
          place_fragment parameter_overflow
            (filled fp (np - length fp))
            (m.1).parameters
            (m.1).parameter_displacement)
        ≡ check_complete m.1
            (so_far first assembled np nd (fp ++ (m.1).parameters) (fd ++ (m.1).content) r)
  unfolding place_parameters place_data
  place_share fp fd r (p, f) h = rw (
    h.parameters_at,
    place_fragment-filled parameter_overflow fp f.parameters (np - length fp) (omega arith),
    h.data_at,
    place_fragment-filled data_overflow fd f.content (nd - length fd) (omega arith),
    grow np fp f.parameters,
    grow nd fd f.content,
    length-append fp f.parameters,
    length-append fd f.content,
  )

  -- The last message ends the loop.
  check_done :
      (f : Trans2Response) (fp fd : Bytes) (r : ℕ)
      → length fp ≡ np
      → length fd ≡ nd
      → check_complete f (so_far first assembled np nd fp fd r) ≡ finished first (reply fp fd)
  unfolding check_complete
  check_done f fp fd r ep ed = rw (
    both np nd (length fp) (length fd) (omega arith) (omega arith),
    all_filled fp np ep,
    all_filled fd nd ed,
  )

  -- An earlier one, if it brought something, does not.
  check_more :
      (f : Trans2Response) (fp fd : Bytes) (r : ℕ)
      → (length fp < np) ⊎ (length fd < nd)
      → 0 < length f.parameters + length f.content
      → r < max_trans2_fragments
      → check_complete f (so_far first assembled np nd fp fd r)
        ≡ again (so_far first assembled np nd fp fd (suc r))
  unfolding check_complete guard_progress
  check_more f fp fd r less brought hr =
      let one_more : r + 1 ≡ suc r = omega arith in
      rw (
        one_short np nd (length fp) (length fd) less,
        not_empty (length f.parameters) (length f.content) brought,
        one_more,
        le→ltb max_trans2_fragments (suc r) (omega arith),
      )

  not_yet :
      (fp fd : Bytes) (m n : Message)
      → IsShare np nd (length fp + length (m.1).parameters) (length fd + length (m.1).content) n
      → (length (fp ++ (m.1).parameters) < np) ⊎ (length (fd ++ (m.1).content) < nd)
  not_yet fp fd (p, f) (q, g) h = ground (
    arith,
    length-append fp f.parameters,
    length-append fd f.content,
    h.parameters_fit,
    h.data_fit,
    h.some_byte,
  )

  Carry-append :
      (fp fd : Bytes) (m : Message) (ms : List Message)
      → Carry np nd (length fp + length (m.1).parameters) (length fd + length (m.1).content) ms
      → Carry np nd (length (fp ++ (m.1).parameters)) (length (fd ++ (m.1).content)) ms
  Carry-append fp fd (p, f) ms c = rw (length-append fp f.parameters, length-append fd f.content) c

  -- A round of the loop on such a message, from the state that it finds or makes.
  add_share :
      (state : Option Assembly) (fp fd : Bytes) (r : ℕ) (m : Message)
      → assembly_of state m.0 m.1 ≡ so_far first assembled np nd fp fd r
      → IsShare np nd (length fp) (length fd) m
      → add_fragment state m.0 (decode_trans2_response (m.0).parameters (m.0).content)
        ≡ check_complete m.1
            (so_far first assembled np nd (fp ++ (m.1).parameters) (fd ++ (m.1).content) r)
  unfolding add_fragment
  add_share state fp fd r (p, f) e h = rw (h.decodes, h.succeeds, e) (place_share fp fd r (p, f) h)

  -- A state that has taken part of the reply, or none yet, completes it with the rest.
  reassemble_rest :
      (ms : List Message) (m : Message) (state : Option Assembly) (fp fd : Bytes) (r : ℕ)
      → assembly_of state m.0 m.1 ≡ so_far first assembled np nd fp fd r
      → Carry np nd (length fp) (length fd) (m ∷ ms)
      → r + length ms ≤ max_trans2_fragments
      → reassemble state (arrivals (m ∷ ms))
        ≡ finished first (reply (fp ++ all_parameters (m ∷ ms)) (fd ++ all_data (m ∷ ms)))
  unfolding reassemble
  reassemble_rest [] (p, f) state fp fd r e (h, c) hr = rw (
    add_share state fp fd r (p, f) e h,
    check_done f (fp ++ f.parameters) (fd ++ f.content) r
        (omega (arith, length-append fp f.parameters)) (omega (arith, length-append fd f.content)),
    reassemble,
    append-nil,
    append-nil,
  )
  reassemble_rest ((q, g) ∷ ms) (p, f) state fp fd r e (h, c) hr =
      rw
        (
          add_share state fp fd r (p, f) e h,
          check_more f (fp ++ f.parameters) (fd ++ f.content) r (not_yet fp fd (p, f) (q, g) c.0)
              h.some_byte (omega arith),
          reassemble,
          ← append_assoc fp f.parameters (all_parameters ((q, g) ∷ ms)),
          ← append_assoc fd f.content (all_data ((q, g) ∷ ms)),
        )
        (reassemble_rest ms (q, g)
          (some (so_far first assembled np nd (fp ++ f.parameters) (fd ++ f.content) (suc r)))
          (fp ++ f.parameters) (fd ++ f.content) (suc r) refl
          (Carry-append fp fd (p, f) ((q, g) ∷ ms) c) (omega arith))

first_state :
    (p : Packet) (f : Trans2Response) (np nd : ℕ)
    → IsShare np nd 0 0 (p, f)
    → first_assembly p f ≡ so_far p f np nd [] [] 0
first_state p f np nd h =
    let ep : np - 0 ≡ np = omega arith in
    let ed : nd - 0 ≡ nd = omega arith in rw (h.total_parameters, h.total_data, ep, ed)

-- A transaction's reply that is cut into at most 65 messages, each with some byte of it and each
-- placed where the last one ended, is returned whole: all parameter bytes and all data bytes in
-- order, under the first message's header.
pub reassemble_whole :
    (m : Message) (ms : List Message) (np nd : ℕ)
    → Carry np nd 0 0 (m ∷ ms)
    → length ms ≤ max_trans2_fragments
    → reassemble none (arrivals (m ∷ ms))
      ≡ finished m.0 (record (m.1) {
        parameters = all_parameters (m ∷ ms);
        content = all_data (m ∷ ms);
        parameter_count = np % 2 ^ 16;
        data_count = nd % 2 ^ 16;
      })
reassemble_whole (p, f) ms np nd c h =
    reassemble_rest p f np nd ms (p, f) none [] [] 0 (first_state p f np nd c.0) c (omega arith)
