-- ===== src/Client/File/Collect/Waits.antt =====
-- Which requests are still waited on after some of them are abandoned.
use smb1client.Common.{
  ℕ, ◌≡◌, refl, Bool, true, false, not, ◌&&◌, ◌||◌, Option, none, some, List, [], ◌∷◌, ◌==◌, arith,
}
use smb1client.Common.Dict.{lookup, lookup-delete, lookup-insert}
use smb1client.Client.Conn.{Conn, PendingRequest, release, release_on, release_found}
use smb1client.Client.File.Collect.{WireChunk, abandon_chunks, collect_reply}

-- Whether a request is in the map, on this channel, with its caller still waiting.
unfoldable pub is_waited_on : ℕ → Option PendingRequest → Bool
is_waited_on ch none = false
is_waited_on ch (some r) = r.resp_ch == ch && not r.cancelled

abbrev pub is_waited : ℕ → ℕ → Conn → Bool
is_waited m ch c = is_waited_on ch (lookup m c.pending)

unfoldable pub names_request : ℕ → ℕ → List WireChunk → Bool
names_request m ch [] = false
names_request m ch (w ∷ ws) = (w.mid == m && w.resp_ch == ch) || names_request m ch ws

release_found_waited :
    (mid m k : ℕ) (r : PendingRequest) (c : Conn)
    → lookup mid c.pending ≡ some r
    → is_waited m k (release_found mid r true c)
      ≡ (is_waited m k c && not (mid == m && r.resp_ch == k))
unfolding release_found is_waited_on
release_found_waited mid m k r c here = ground (
  arith,
  here,
  lookup-delete mid m c.pending,
  lookup-insert mid m (record r { cancelled = true }) c.pending,
)

release_on_waited :
    (mid ch m k : ℕ) (found : Option PendingRequest) (c : Conn)
    → lookup mid c.pending ≡ found
    → is_waited m k (release_on mid ch true found c)
      ≡ (is_waited m k c && not (mid == m && ch == k))
unfolding release_on is_waited_on
release_on_waited mid ch m k none c here = ground (arith, here)
release_on_waited mid ch m k (some r) c here =
    ground (arith, here, release_found_waited mid m k r c here)

pub release_waited :
    (mid ch m k : ℕ) (c : Conn)
    → is_waited m k (release mid ch true c) ≡ (is_waited m k c && not (mid == m && ch == k))
unfolding release
release_waited mid ch m k c = release_on_waited mid ch m k (lookup mid c.pending) c refl

-- Abandoning requests takes the waiting callers of exactly those requests away: every other request
-- in the map, on the same ID with another channel too, is waited on as before.
pub abandon_chunks_waited :
    (ws : List WireChunk) (m k : ℕ) (c : Conn)
    → is_waited m k (abandon_chunks ws c) ≡ (is_waited m k c && not (names_request m k ws))
unfolding abandon_chunks names_request
abandon_chunks_waited [] m k c = ground arith
abandon_chunks_waited (w ∷ ws) m k c = ground (
  arith,
  abandon_chunks_waited ws m k (release w.mid w.resp_ch true c),
  release_waited w.mid w.resp_ch m k c,
)

pub collect_reply_waited :
    (w : WireChunk) (m k : ℕ) (c : Conn)
    → is_waited m k (collect_reply w c) ≡ (is_waited m k c && not (w.mid == m))
unfolding is_waited_on
collect_reply_waited w m k c = ground (arith, lookup-delete w.mid m c.pending)
