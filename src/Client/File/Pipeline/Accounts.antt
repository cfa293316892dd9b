-- ===== src/Client/File/Pipeline/Accounts.antt =====
-- What becomes of the requests of a pipelined read, whatever the connection does.
use smb1client.Common.{
  All, ℕ, suc, ◌≤◌, ◌≡◌, refl, sym, ap, ◌∙◌, Option, none, some, List, [], ◌∷◌, ◌++◌, length, take,
  drop, arith, append-nil, take-append-drop, drop_all,
}
use smb1client.Wire.{Bytes}
use smb1client.Client.File.{File, FileError, Transport}
use smb1client.Client.File.Pipeline.Sends.{IsOnWire}
use smb1client.Client.File.Pipeline.{
  ReadChunk, Flight, Piped, chunks_of, Sent, is_sent, not_sent, send_read_request, send_batch,
}

-- Every chunk was taken, is left in flight, or was not sent, in the order of the chunks; and the
-- connection has accepted the requests of all but the last.
pub record IsAccounted (t : Transport) (calls : ℕ) (f : File) (chunks : List ReadChunk) (depth : ℕ)
    (p : Piped) : Type 0 where
  pub in_order : p.taken ++ (p.left ++ p.unsent) ≡ chunks
  pub within_depth : length p.left ≤ depth
  pub on_wire : All (IsOnWire t calls f) (p.taken ++ p.left)

pub chunks_of-append :
    (flight : Flight) (c : ReadChunk) (params : Bytes) (rest : List ReadChunk)
    → chunks_of (flight ++ ((c, params) ∷ [])) ++ rest ≡ chunks_of flight ++ (c ∷ rest)
chunks_of-append [] c params rest = refl
chunks_of-append ((d, q) ∷ flight) c params rest =
    ap (λ (l : List ReadChunk). d ∷ l) (chunks_of-append flight c params rest)

-- The initial batch is sent in order, up to the request that fails.
pub record IsBatch (chunks : List ReadChunk) (b : Flight × Option FileError) : Type 0 where
  pub in_order : chunks_of (b.0) ++ drop (length (b.0)) chunks ≡ chunks
  pub few : length (b.0) ≤ length chunks
  pub whole : (b.1 ≡ none) → length (b.0) ≡ length chunks

pub send_batch-IsBatch :
    (t : Transport) (calls : ℕ) (f : File) (chunks : List ReadChunk)
    → IsBatch chunks (send_batch t calls f chunks)
unfolding send_batch
send_batch-IsBatch t calls f [] = record { in_order = refl; few = omega arith; whole = λ e. refl }
send_batch-IsBatch t calls f (c ∷ cs) =
    by_sending (send_read_request t calls f c) (send_batch-IsBatch t calls f cs)
  where
    by_sending :
        (s : Sent)
        → IsBatch cs (send_batch t calls f cs)
        → IsBatch (c ∷ cs) (elim s [
          | not_sent e ↦ ([], some e)
          | is_sent params ↦ let (flight, e) = send_batch t calls f cs in ((c, params) ∷ flight, e)
        ])
    by_sending (not_sent e) rest = record {
      in_order = refl;
      few = omega arith;
      whole = λ h. absurd (cc);
    }
    by_sending (is_sent params) rest = record {
      in_order = ap (λ (l : List ReadChunk). c ∷ l) rest.in_order;
      few = omega (arith, rest.few);
      whole = λ h. ap suc (rest.whole h);
    }

-- A batch that was not broken off, and what follows it.
pub batch_order :
    (chunks : List ReadChunk) (depth : ℕ) (flight : Flight)
    → IsBatch (take depth chunks) (flight, none)
    → chunks_of flight ++ drop depth chunks ≡ chunks
batch_order chunks depth flight batch =
    ap (λ (l : List ReadChunk). l ++ drop depth chunks)
      (sym (append-nil (chunks_of flight))
        ∙ ap (λ (l : List ReadChunk). chunks_of flight ++ l)
            (sym (drop_all (length flight) (take depth chunks) (omega (arith, batch.whole refl))))
        ∙ batch.in_order)
    ∙ take-append-drop depth chunks
