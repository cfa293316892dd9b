-- ===== src/Client/File/Pouring/Rounds.antt =====
-- The rounds of a pipelined write, and what they leave.
use smb1client.Common.{
  All, All-append, ℕ, zero, suc, ◌+◌, ◌≤◌, ◌<◌, ◌≡◌, ◌⊎◌, inl, inr, refl, sym, ap, ◌∙◌, Bool, true,
  false, Option, none, some, List, [], ◌∷◌, ◌++◌, length, ltb, Outcome, ok, err, panic, arith,
  append-nil, append_assoc, Bool-cases, length-append,
}
use smb1client.Wire.{Bytes}
use smb1client.Client.File.{File, FileError}
use smb1client.Client.File.Pouring.Sends.{
  IsOnWire, AreOnWire, append-AreOnWire, send_write_request-IsOnWire,
}
use smb1client.Client.File.Pouring.{
  WriteChunk, Flight, Feed, Poured, stop, chunks_of, Sent, is_sent, not_sent, send_write_request,
  deferred, Waited, response_came, wait_fails, await_chunk, brought, feed, take_count, take_waited,
  pouring_rounds,
}

-- The bytes of some chunks together.
abbrev pub bytes_of : List WriteChunk → ℕ
bytes_of [] = 0
bytes_of (c ∷ cs) = length c.content + bytes_of cs

-- Every chunk was taken, is left in flight, or was not sent, in the order of the chunks; the connection
-- has accepted the requests of those taken or left; and there is an error, or all were taken and counted whole.
pub record IsPoured (t : Feed) (f : File) (chunks : List WriteChunk) (depth : ℕ) (p : Poured)
    : Type 0 where
  pub in_order : p.taken ++ (p.left ++ p.unsent) ≡ chunks
  pub within_depth : length p.left ≤ depth
  pub on_wire : All (IsOnWire t f) (p.taken ++ p.left)
  pub complete :
      ((e : FileError) × (p.error ≡ some e)) ⊎ (p.taken ≡ chunks) × (bytes_of chunks ≤ p.total)

-- The state of the loop, with so many rounds to go.
pub record IsPouring (t : Feed) (f : File) (chunks : List WriteChunk) (depth rounds : ℕ)
    (taken : List WriteChunk) (total : ℕ) (draining : Option FileError) (flight : Flight)
    (unsent : List WriteChunk) : Type 0 where
  pub in_order : taken ++ (chunks_of flight ++ unsent) ≡ chunks
  pub few : length flight ≤ depth
  pub wire : AreOnWire t f taken flight
  pub counted : bytes_of taken ≤ total
  pub enough : length flight + length unsent ≤ rounds
  pub busy : ((e : FileError) × (draining ≡ some e)) ⊎ ((0 < length flight) ⊎ (unsent ≡ []))

chunks_of-append :
    (flight : Flight) (c : WriteChunk) (params : Bytes) (rest : List WriteChunk)
    → chunks_of (flight ++ ((c, params) ∷ [])) ++ rest ≡ chunks_of flight ++ (c ∷ rest)
chunks_of-append [] c params rest = refl
chunks_of-append ((d, q) ∷ flight) c params rest =
    ap (λ (l : List WriteChunk). d ∷ l) (chunks_of-append flight c params rest)

length-chunks_of : (flight : Flight) → length (chunks_of flight) ≡ length flight
length-chunks_of [] = refl
length-chunks_of (d ∷ flight) = ap suc (length-chunks_of flight)

bytes_of-append :
    (cs : List WriteChunk) (c : WriteChunk)
    → bytes_of (cs ++ (c ∷ [])) ≡ bytes_of cs + length c.content
bytes_of-append [] c = omega arith
bytes_of-append (d ∷ cs) c = omega (arith, bytes_of-append cs c)

stop-IsPoured :
    (t : Feed) (f : File) (total : ℕ) (e : FileError) (taken : List WriteChunk) (flight : Flight)
    (collected : Bool) (unsent chunks : List WriteChunk) (depth : ℕ)
    → taken ++ (chunks_of flight ++ unsent) ≡ chunks
    → length flight ≤ depth
    → AreOnWire t f taken flight
    → IsPoured t f chunks depth (stop total (some e) taken (chunks_of flight) collected unsent)
stop-IsPoured t f total e taken flight collected unsent chunks depth order few wire = record {
  in_order = order;
  on_wire = All-append _ taken (chunks_of flight) wire.taken_sent wire.flight_sent;
  within_depth = omega (arith, length-chunks_of flight);
  complete = inl (e, refl);
}

feed-IsPoured :
    (t : Feed) (f : File) (rounds total : ℕ) (taken : List WriteChunk) (draining : Option FileError)
    (flight : Flight) (unsent chunks : List WriteChunk) (depth : ℕ)
    (next : Option FileError → Flight → List WriteChunk → Poured)
    → taken ++ (chunks_of flight ++ unsent) ≡ chunks
    → length flight < depth
    → AreOnWire t f taken flight
    → bytes_of taken ≤ total
    → length flight + length unsent ≤ rounds
    → ((draining' : Option FileError) (flight' : Flight) (unsent' : List WriteChunk)
        → IsPouring t f chunks depth rounds taken total draining' flight' unsent'
        → IsPoured t f chunks depth (next draining' flight' unsent'))
    → IsPoured t f chunks depth (feed t f rounds draining flight unsent next)
unfolding feed
feed-IsPoured t f rounds total taken (some cause) flight unsent chunks depth next order few wire
      counted enough rest =
    rest (some cause) flight unsent (record {
      in_order = order;
      few = omega arith;
      wire = wire;
      counted = counted;
      enough = enough;
      busy = inl (cause, refl);
    })
feed-IsPoured t f rounds total taken none flight [] chunks depth next order few wire counted enough
      rest =
    elim (Bool-cases (t.context_done rounds)) [
      | inl done ↦ rw done (
          rest _ flight [] (record {
            in_order = order;
            few = omega arith;
            wire = wire;
            counted = counted;
            enough = enough;
            busy = inr (inr refl);
          }))
      | inr live ↦ rw live (
          rest none flight [] (record {
            in_order = order;
            few = omega arith;
            wire = wire;
            counted = counted;
            enough = enough;
            busy = inr (inr refl);
          }))
    ]
feed-IsPoured t f rounds total taken none flight (c ∷ cs) chunks depth next order few wire counted
      enough rest =
    elim (Bool-cases (t.context_done rounds)) [
      | inl done ↦ rw done (
          rest _ flight (c ∷ cs) (record {
            in_order = order;
            few = omega arith;
            wire = wire;
            counted = counted;
            enough = enough;
            busy = inl (_, refl);
          }))
      | inr live ↦ rw live (by_sending (send_write_request t f c) refl)
    ]
  where
    by_sending :
        (s : Sent)
        → send_write_request t f c ≡ s
        → IsPoured t f chunks depth (elim s [
          | not_sent e ↦ next (some (deferred (t.send_cancelled rounds) e)) flight (c ∷ cs)
          | is_sent params ↦ next none (flight ++ ((c, params) ∷ [])) cs
        ])
    by_sending (not_sent e) h = rest _ flight (c ∷ cs) (record {
      in_order = order;
      few = omega arith;
      wire = wire;
      counted = counted;
      enough = enough;
      busy = inl (_, refl);
    })
    by_sending (is_sent params) h = rest none _ cs (record {
      in_order =
          ap (λ (l : List WriteChunk). taken ++ l) (chunks_of-append flight c params cs) ∙ order;
      few = omega (arith, length-append flight ((c, params) ∷ []));
      wire = append-AreOnWire t f taken flight c params wire (send_write_request-IsOnWire t f c h);
      counted = counted;
      enough = omega (arith, length-append flight ((c, params) ∷ []));
      busy = inr (inl (omega (arith, length-append flight ((c, params) ∷ []))));
    })

take_count-IsPoured :
    (t : Feed) (f : File) (total : ℕ) (taken : List WriteChunk) (c : WriteChunk) (flight : Flight)
    (unsent : List WriteChunk) (o : Outcome FileError ℕ) (chunks : List WriteChunk) (depth : ℕ)
    (next : ℕ → Poured)
    → taken ++ (chunks_of flight ++ unsent) ≡ chunks
    → length flight ≤ depth
    → AreOnWire t f taken flight
    → ((total' : ℕ) → total + length c.content ≤ total' → IsPoured t f chunks depth (next total'))
    → IsPoured t f chunks depth (take_count total taken c flight unsent o next)
unfolding take_count
take_count-IsPoured t f total taken c flight unsent (err e) chunks depth next order few wire rest =
    stop-IsPoured t f total e taken flight true unsent chunks depth order few wire
take_count-IsPoured t f total taken c flight unsent panic chunks depth next order few wire rest =
    stop-IsPoured t f total _ taken flight true unsent chunks depth order few wire
take_count-IsPoured t f total taken c flight unsent (ok n) chunks depth next order few wire rest =
    elim (Bool-cases (ltb n (length c.content))) [
      | inl short ↦
          rw short (stop-IsPoured t f _ _ taken flight true unsent chunks depth order few wire)
      | inr full ↦ rw full (rest (total + n) (ground (arith, full)))
    ]

take_waited-IsPoured :
    (t : Feed) (f : File) (rounds total : ℕ) (taken : List WriteChunk) (c : WriteChunk)
    (params : Bytes) (flight : Flight) (unsent : List WriteChunk) (wait : Waited)
    (chunks : List WriteChunk) (depth : ℕ)
    (next : ℕ → Option FileError → Flight → List WriteChunk → Poured)
    → taken ++ (c ∷ chunks_of flight ++ unsent) ≡ chunks
    → length flight < depth
    → AreOnWire t f taken ((c, params) ∷ flight)
    → bytes_of taken ≤ total
    → length flight + length unsent ≤ rounds
    → ((total' : ℕ) (draining' : Option FileError) (flight' : Flight) (unsent' : List WriteChunk)
        → IsPouring t f chunks depth rounds (taken ++ (c ∷ [])) total' draining' flight' unsent'
        → IsPoured t f chunks depth (next total' draining' flight' unsent'))
    → IsPoured t f chunks depth (take_waited t f rounds total taken c flight unsent wait next)
unfolding take_waited
take_waited-IsPoured t f rounds total taken c params flight unsent (wait_fails e) chunks depth next
      order few wire counted enough rest =
    stop-IsPoured t f total e taken ((c, params) ∷ flight) false unsent chunks depth order
      (omega arith) wire
take_waited-IsPoured t f rounds total taken c params flight unsent (response_came r draining) chunks
      depth next order few wire counted enough rest =
    let order' : (taken ++ (c ∷ [])) ++ (chunks_of flight ++ unsent) ≡ chunks =
      append_assoc taken (c ∷ []) (chunks_of flight ++ unsent) ∙ order in
    let wire' : AreOnWire t f (taken ++ (c ∷ [])) flight = record {
      taken_sent = All-append _ taken (c ∷ []) wire.taken_sent (wire.flight_sent.0, tt);
      flight_sent = wire.flight_sent.1;
    } in
    take_count-IsPoured t f total (taken ++ (c ∷ [])) c flight unsent (brought r) chunks depth _
      order' (omega arith) wire'
      (λ total' whole.
        feed-IsPoured t f rounds total' (taken ++ (c ∷ [])) draining flight unsent chunks depth
          (next total') order' few wire' (omega (arith, bytes_of-append taken c)) enough
          (rest total'))

taken_whole-IsPoured :
    (t : Feed) (f : File) (taken : List WriteChunk) (total : ℕ) (chunks : List WriteChunk)
    (depth : ℕ)
    → taken ++ [] ≡ chunks
    → bytes_of taken ≤ total
    → All (IsOnWire t f) taken
    → IsPoured t f chunks depth (stop total none taken [] false [])
taken_whole-IsPoured t f taken total chunks depth order counted sent =
    let same : taken ≡ chunks = sym (append-nil taken) ∙ order in
    record {
      in_order = order;
      within_depth = omega arith;
      on_wire = All-append _ taken [] sent tt;
      complete = inr (same, rw same at counted);
    }

pub pouring_rounds-IsPoured :
    (t : Feed) (f : File) (rounds : ℕ) (taken : List WriteChunk) (total : ℕ)
    (draining : Option FileError) (flight : Flight) (unsent chunks : List WriteChunk) (depth : ℕ)
    → IsPouring t f chunks depth rounds taken total draining flight unsent
    → IsPoured t f chunks depth (pouring_rounds t f rounds taken total draining flight unsent)
unfolding pouring_rounds take_waited
pouring_rounds-IsPoured t f zero taken total (some e) flight unsent chunks depth run =
    stop-IsPoured t f total e taken flight false unsent chunks depth run.in_order run.few run.wire
pouring_rounds-IsPoured t f zero taken total none [] [] chunks depth run =
    taken_whole-IsPoured t f taken total chunks depth run.in_order run.counted run.wire.taken_sent
pouring_rounds-IsPoured t f zero taken total none [] (c ∷ cs) chunks depth run =
    absurd (omega (arith, run.enough))
pouring_rounds-IsPoured t f zero taken total none (d ∷ flight) unsent chunks depth run =
    absurd (omega (arith, run.enough))
pouring_rounds-IsPoured t f (suc rounds) taken total (some e) [] unsent chunks depth run =
    stop-IsPoured t f total e taken [] false unsent chunks depth run.in_order run.few run.wire
pouring_rounds-IsPoured t f (suc rounds) taken total none [] [] chunks depth run =
    taken_whole-IsPoured t f taken total chunks depth run.in_order run.counted run.wire.taken_sent
pouring_rounds-IsPoured t f (suc rounds) taken total none [] (c ∷ cs) chunks depth run =
    absurd (ground (arith, run.busy))
pouring_rounds-IsPoured t f (suc rounds) taken total draining ((c, params) ∷ flight) unsent chunks
      depth run =
    take_waited-IsPoured t f rounds total taken c params flight unsent
      (await_chunk t params draining) chunks depth _ run.in_order (omega (arith, run.few)) run.wire
      run.counted (omega (arith, run.enough))
      (λ total' draining' flight' unsent' next.
        pouring_rounds-IsPoured t f rounds (taken ++ (c ∷ [])) total' draining' flight' unsent'
          chunks depth next)
