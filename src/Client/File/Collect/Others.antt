-- ===== src/Client/File/Collect/Others.antt =====
-- What the other goroutines' work keeps of the requests in flight.
use smb1client.Common.{
  ℕ, zero, suc, ◌+◌, ◌%◌, ◌≤◌, ◌<◌, ◌≡◌, refl, Bool, true, false, Bool-cases, Option, none, some,
  List, [], ◌∷◌, inl, inr, ◌==◌, if◌then◌else◌, Outcome, ok, err, panic, arith,
}
use smb1client.Common.Dict.{lookup, lookup-delete, lookup-insert, lookup-nil}
use smb1client.Wire.{Bytes}
use smb1client.Smb1.Packet.{Packet, PacketError, decode_packet, encode_packet}
use smb1client.Netbios.{Sink, WriteResult, sent, write_error, not_sent, write_packet}
use smb1client.Client.Conn.{
  Conn, ConnError, read_failed, mids_exhausted, mid_count, is_free, send_failed, refused,
  PendingRequest, Allocation, allocated, exhausted, out_of_fuel, allocate_loop, allocate_mid,
  register, reserve, set_error, close, close_next, close_found, poison, netbios_error, Pending,
  settle_write, write_encoded, transmit, cleanup, deliver, dispatch, receive, release, release_on,
  release_found,
}
use smb1client.Client.File.Collect.{
  Other, begins, writes, receives, finishes, closes, closes_on, breaks, poisons, conn_of, act,
  act_all,
}
use smb1client.Client.File.Collect.Waits.{is_waited_on, is_waited}

-- What any piece of the other goroutines' work keeps: channels are only made, and a request on a
-- channel that was made before is not waited on again.
pub record Follows (m k : ℕ) (c c' : Conn) : Type 0 where
  pub grown : c.next_channel ≤ c'.next_channel
  pub kept : k < c.next_channel → is_waited m k c ≡ false → is_waited m k c' ≡ false

module _ (m k : ℕ) where
  Follows-trans : {a b c : Conn} → Follows m k a b → Follows m k b c → Follows m k a c
  Follows-trans f g = record {
    grown = omega (arith, f.grown, g.grown);
    kept = λ lt h. g.kept (omega (arith, lt, f.grown)) (f.kept lt h);
  }

  Follows-refl : (c : Conn) → Follows m k c c
  Follows-refl c = record { grown = omega arith; kept = λ lt h. h }

  choose-Follows :
      {c x y : Conn} (b : Bool)
      → Follows m k c x
      → Follows m k c y
      → Follows m k c (if b then x else y)
  choose-Follows true f g = f
  choose-Follows false f g = g

  counter-Follows : (n : ℕ) (c : Conn) → Follows m k c (record c { next_mid = n })
  counter-Follows n c = record { grown = omega arith; kept = λ lt h. h }

  socket-Follows : (s : Sink) (c : Conn) → Follows m k c (record c { socket = s })
  socket-Follows s c = record { grown = omega arith; kept = λ lt h. h }

  set_error-Follows : (e : ConnError) (c : Conn) → Follows m k c (set_error e c)
  unfolding set_error is_waited_on
  set_error-Follows e c = record {
    grown = ground arith;
    kept = λ lt h. ground (arith, h, lookup-nil {V = PendingRequest} m);
  }

  close-Follows : (c : Conn) → Follows m k c (close c)
  unfolding close is_waited_on
  close-Follows c = record {
    grown = ground arith;
    kept = λ lt h. ground (arith, h, lookup-nil {V = PendingRequest} m);
  }

  close_found-Follows :
      (closing : Option Pending) (c : Conn) → Follows m k c (close_found closing c)
  unfolding close_found
  close_found-Follows none c = Follows-refl c
  close_found-Follows (some []) c = record { grown = omega arith; kept = λ lt h. h }
  close_found-Follows (some (r ∷ rest)) c = record { grown = omega arith; kept = λ lt h. h }

  poison-Follows : (e : Option ConnError) (c : Conn) → Follows m k c (poison e c)
  unfolding poison
  poison-Follows none c = Follows-refl c
  poison-Follows (some (netbios_error not_sent)) c = Follows-refl c
  poison-Follows (some (netbios_error e)) c = set_error-Follows (send_failed e) c
  poison-Follows (some e) c = Follows-refl c

  cleanup-Follows : (mid : ℕ) (c : Conn) → Follows m k c (cleanup mid c)
  unfolding cleanup is_waited_on
  cleanup-Follows mid c = record {
    grown = ground arith;
    kept = λ lt h. ground (arith, h, lookup-delete mid m c.pending);
  }

  release_found-Follows :
      (mid : ℕ) (r : PendingRequest) (abandoned : Bool) (c : Conn)
      → lookup mid c.pending ≡ some r
      → Follows m k c (release_found mid r abandoned c)
  unfolding release_found is_waited_on
  release_found-Follows mid r abandoned c here = record {
    grown = ground arith;
    kept = λ lt h. ground (
      arith,
      here,
      h,
      lookup-delete mid m c.pending,
      lookup-insert mid m (record r { cancelled = true }) c.pending,
    );
  }

  release_on-Follows :
      (mid ch : ℕ) (abandoned : Bool) (r : Option PendingRequest) (c : Conn)
      → lookup mid c.pending ≡ r
      → Follows m k c (release_on mid ch abandoned r c)
  unfolding release_on
  release_on-Follows mid ch abandoned none c here = Follows-refl c
  release_on-Follows mid ch abandoned (some r) c here = elim (Bool-cases (r.resp_ch == ch)) [
    | inl e ↦ rw e (release_found-Follows mid r abandoned c here)
    | inr e ↦ rw e (Follows-refl c)
  ]

  release-Follows :
      (mid ch : ℕ) (abandoned : Bool) (c : Conn) → Follows m k c (release mid ch abandoned c)
  unfolding release
  release-Follows mid ch abandoned c =
      release_on-Follows mid ch abandoned (lookup mid c.pending) c refl

  deliver-Follows :
      (p : Packet) (r : Option PendingRequest) (c : Conn) → Follows m k c (deliver p r c)
  unfolding deliver is_waited_on
  deliver-Follows p none c = record { grown = omega arith; kept = λ lt h. h }
  deliver-Follows p (some r) c = record {
    grown = ground arith;
    kept = λ lt h. ground (arith, h, lookup-delete p.header.mid m c.pending);
  }

  received-Follows :
      (p : Outcome PacketError Packet) (c : Conn)
      → Follows m k c (elim p [ ok p' ↦ dispatch p' c | _ ↦ c ])
  unfolding dispatch
  received-Follows (ok p) c = deliver-Follows p (lookup p.header.mid c.pending) c
  received-Follows (err e) c = record { grown = omega arith; kept = λ lt h. h }
  received-Follows panic c = record { grown = omega arith; kept = λ lt h. h }

  receive-Follows : (read : Option Bytes) (c : Conn) → Follows m k c (receive read c)
  unfolding receive
  receive-Follows read c = choose-Follows c.done (close-Follows c) (going_on read)
    where
      going_on :
          (read : Option Bytes)
          → Follows m k c (elim read [
            | none ↦ close (set_error read_failed c)
            | some raw ↦ elim (decode_packet raw) [ ok p ↦ dispatch p c | _ ↦ c ]
          ])
      going_on none =
          Follows-trans (set_error-Follows read_failed c) (close-Follows (set_error read_failed c))
      going_on (some raw) = received-Follows (decode_packet raw) c

  -- An ID is handed out without a change to the map; without one, the connection stops.
  IsAllocated : Conn → Allocation → Type 0
  IsAllocated c (allocated mid c') = (c'.pending ≡ c.pending) × (c'.next_channel ≡ c.next_channel)
  IsAllocated c (exhausted c') = Follows m k c c'
  IsAllocated c out_of_fuel = Unit {0}

  IsAllocated-counter :
      (n : ℕ) (c : Conn) (a : Allocation)
      → IsAllocated (record c { next_mid = n }) a
      → IsAllocated c a
  unfolding IsAllocated
  IsAllocated-counter n c (allocated mid c') h = h
  IsAllocated-counter n c (exhausted c') h = Follows-trans (counter-Follows n c) h
  IsAllocated-counter n c out_of_fuel h = h

  allocate_loop-IsAllocated :
      (fuel start : ℕ) (c : Conn) → IsAllocated c (allocate_loop fuel start c)
  unfolding allocate_loop IsAllocated
  allocate_loop-IsAllocated zero start c = tt
  allocate_loop-IsAllocated (suc fuel) start c =
      let n = (c.next_mid + 1) % mid_count in
      elim (Bool-cases (is_free c.next_mid c.pending)) [
        | inl e ↦ rw e (refl, refl)
        | inr e ↦ rw e (elim (Bool-cases (n == start)) [
          | inl w ↦ rw w (stop_Follows (record c { next_mid = n }) (counter-Follows n c))
          | inr w ↦ rw w (
              IsAllocated-counter n c (allocate_loop fuel start (record c { next_mid = n }))
                (allocate_loop-IsAllocated fuel start (record c { next_mid = n })))
        ])
      ]
    where
      stop_Follows :
          (c' : Conn)
          → Follows m k c c'
          → Follows m k c (record (set_error mids_exhausted c') { socket_closed = true })
      stop_Follows c' f =
          let g = Follows-trans f (set_error-Follows mids_exhausted c') in
          record { grown = g.grown; kept = g.kept }

  register-Follows :
      (transaction : Bool) (a : Allocation) (c : Conn)
      → IsAllocated c a
      → Follows m k c (conn_of (register transaction a) c)
  unfolding register is_waited_on IsAllocated
  register-Follows transaction (allocated mid c') c (p, n) = record {
    grown = omega (arith, n);
    kept = λ lt h. ground (
      arith,
      p,
      n,
      lt,
      h,
      lookup-insert mid m
          (record { resp_ch = c'.next_channel; cancelled = false; transaction = transaction })
          c'.pending,
    );
  }
  register-Follows transaction (exhausted c') c f = f
  register-Follows transaction out_of_fuel c f = Follows-refl c

  reserve-Follows :
      (transaction : Bool) (c : Conn) → Follows m k c (conn_of (reserve transaction c) c)
  unfolding reserve allocate_mid
  reserve-Follows transaction c = choose c.done
    where
      registered : Follows m k c (conn_of (register transaction (allocate_mid c)) c)
      registered =
          register-Follows transaction (allocate_mid c) c
            (allocate_loop-IsAllocated mid_count c.next_mid c)

      choose :
          (b : Bool)
          → Follows m k c
              (conn_of (if b then refused c.error c else register transaction (allocate_mid c)) c)
      choose true = Follows-refl c
      choose false = registered

  settle_write-Follows :
      (mid : ℕ) (r : WriteResult) (c : Conn) → Follows m k c (settle_write mid r c).1
  unfolding settle_write
  settle_write-Follows mid (sent s) c = socket-Follows s c
  settle_write-Follows mid (write_error e s) c =
      Follows-trans (socket-Follows s c) (cleanup-Follows mid (record c { socket = s }))

  write_encoded-Follows :
      (context_is_done : Bool) (mid : ℕ) (p : Outcome PacketError Bytes) (c : Conn)
      → Follows m k c (write_encoded context_is_done mid p c).1
  unfolding write_encoded
  write_encoded-Follows context_is_done mid (err e) c = cleanup-Follows mid c
  write_encoded-Follows context_is_done mid panic c = cleanup-Follows mid c
  write_encoded-Follows context_is_done mid (ok packet) c =
      settle_write-Follows mid (write_packet context_is_done packet c.socket) c

  act-Follows : (o : Other) (c : Conn) → Follows m k c (act o c)
  unfolding act transmit close_next
  act-Follows (begins transaction) c = reserve-Follows transaction c
  act-Follows (writes context_is_done mid h params content) c =
      write_encoded-Follows context_is_done mid
        (encode_packet (some (record h { mid = mid })) params content) c
  act-Follows (receives read) c = receive-Follows read c
  act-Follows (finishes mid ch abandoned) c = release-Follows mid ch abandoned c
  act-Follows closes c = close-Follows c
  act-Follows closes_on c = close_found-Follows c.closing c
  act-Follows (breaks e) c = set_error-Follows e c
  act-Follows (poisons e) c = poison-Follows e c

  pub act_all-Follows : (os : List Other) (c : Conn) → Follows m k c (act_all os c)
  unfolding act_all
  act_all-Follows [] c = Follows-refl c
  act_all-Follows (o ∷ os) c = Follows-trans (act-Follows o c) (act_all-Follows os (act o c))
