-- ===== src/Client/Conn/Routing/Keep.antt =====
-- Every operation keeps the invariant.
use smb1client.Common.{ℕ, ◌+◌, ◌<◌, ◌≡◌, Bool, true, false, Option, none, some, [], arith}
use smb1client.Common.Dict.{lookup, insert, delete, lookup-delete, lookup-insert}
use smb1client.Client.Conn.{Conn, Response, PendingRequest, update_channel, reserved_mid, offer}
use smb1client.Client.Conn.Routing.{Ticket, Tickets, put_ticket, take_message, Live}

abbrev pub TakesMore : Option Ticket → Type 0
TakesMore none = Unit {0}
TakesMore (some t) = t.transaction ≡ true

abbrev pub new_request : ℕ → Bool → PendingRequest
new_request ch transaction = record { resp_ch = ch; cancelled = false; transaction = transaction }

abbrev pub cancel : PendingRequest → PendingRequest
cancel r = record r { cancelled = true }

module _ (c : Conn) (tickets : Tickets) (v : Live c tickets) where
  pub Live-counter : (n : ℕ) → Live (record c { next_mid = n }) tickets
  Live-counter n = record {
    owned = v.owned;
    quiet = v.quiet;
    made = v.made;
    apart = v.apart;
    unreserved = v.unreserved;
  }

  -- A request with a fresh ID and a fresh channel joins.
  pub Live-register :
      (mid : ℕ) (transaction : Bool)
      → mid < reserved_mid
      → lookup mid c.pending ≡ none
      → Live
          (record c {
            channels =
                update_channel c.next_channel
                  (λ _. record { queue = []; closed = false })
                  c.channels;
            next_channel = c.next_channel + 1;
            pending = insert mid (new_request c.next_channel transaction) c.pending;
          })
          (put_ticket mid
            (some (record { resp_ch = c.next_channel; transaction = transaction }))
            tickets)
  Live-register mid transaction lt free = record {
    owned = λ m.
        ground (
          arith,
          lookup-insert mid m (new_request c.next_channel transaction) c.pending,
          v.owned m,
        );
    quiet = λ m. ground (arith, v.quiet m, v.made m, v.owned m);
    made = λ m.
        ground
          (arith, lookup-insert mid m (new_request c.next_channel transaction) c.pending, v.made m);
    apart = λ m n. ground (
      arith,
      lookup-insert mid m (new_request c.next_channel transaction) c.pending,
      lookup-insert mid n (new_request c.next_channel transaction) c.pending,
      v.made m,
      v.made n,
      v.apart m n,
    );
    unreserved = ground (
      arith,
      lookup-insert mid reserved_mid (new_request c.next_channel transaction) c.pending,
      v.unreserved,
    );
  }

  -- An entry goes whose ticket is gone.
  pub Live-delete :
      (mid : ℕ) → tickets mid ≡ none → Live (record c { pending = delete mid c.pending }) tickets
  Live-delete mid none_left = record {
    owned = λ m. ground (arith, lookup-delete mid m c.pending, v.owned m);
    quiet = v.quiet;
    made = λ m. ground (arith, lookup-delete mid m c.pending, v.made m);
    apart = λ m n.
        ground (arith, lookup-delete mid m c.pending, lookup-delete mid n c.pending, v.apart m n);
    unreserved = ground (arith, lookup-delete mid reserved_mid c.pending, v.unreserved);
  }

  -- An entry is marked as cancelled.
  pub Live-cancel :
      (mid : ℕ) (r : PendingRequest)
      → lookup mid c.pending ≡ some r
      → Live (record c { pending = insert mid (cancel r) c.pending }) tickets
  Live-cancel mid r e = record {
    owned = λ m. ground (arith, lookup-insert mid m (cancel r) c.pending, v.owned m);
    quiet = v.quiet;
    made = λ m. ground (arith, lookup-insert mid m (cancel r) c.pending, v.made m);
    apart = λ m n. ground (
      arith,
      lookup-insert mid m (cancel r) c.pending,
      lookup-insert mid n (cancel r) c.pending,
      v.apart m n,
    );
    unreserved = ground (arith, lookup-insert mid reserved_mid (cancel r) c.pending, v.unreserved);
  }

  -- A ticket ends.
  pub Live-end : (mid : ℕ) → Live c (put_ticket mid none tickets)
  Live-end mid = record {
    owned = λ m. ground (arith, v.owned m);
    quiet = λ m. ground (arith, v.quiet m);
    made = v.made;
    apart = v.apart;
    unreserved = v.unreserved;
  }

  -- A message is put into the channel of a request whose ticket has ended or allows for more.
  pub Live-offer :
      (mid : ℕ) (r : PendingRequest) (resp : Response)
      → lookup mid c.pending ≡ some r
      → TakesMore (tickets mid)
      → Live (record c { channels = update_channel r.resp_ch (offer resp) c.channels }) tickets
  Live-offer mid r resp e more = record {
    owned = v.owned;
    quiet = λ m. ground (arith, v.quiet m, v.owned m, v.apart mid m, more);
    made = λ m. ground (arith, v.made m);
    apart = v.apart;
    unreserved = v.unreserved;
  }

  pub Live-take :
      (ch : ℕ) → Live (record c { channels = update_channel ch take_message c.channels }) tickets
  Live-take ch = record {
    owned = v.owned;
    quiet = λ m. ground (arith, v.quiet m);
    made = λ m. ground (arith, v.made m);
    apart = v.apart;
    unreserved = v.unreserved;
  }
