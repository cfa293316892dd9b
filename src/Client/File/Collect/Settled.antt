-- ===== src/Client/File/Collect/Settled.antt =====
-- What is left of a transfer's requests when `collectReplies` returns.
use smb1client.Common.{
  ℕ, ◌+◌, ◌<◌, ◌≡◌, ◌≢◌, refl, false, Bool-cases, not, ◌&&◌, List, [], ◌∷◌, inl, inr, arith,
}
use smb1client.Client.Conn.{Conn}
use smb1client.Client.File.Collect.{
  WireChunk, abandon_chunks, Found, reply_found, deadline_passed, connection_done, collect_reply,
  collect_replies, Other, act_all,
}
use smb1client.Client.File.Collect.Waits.{
  is_waited, names_request, collect_reply_waited, abandon_chunks_waited,
}
use smb1client.Client.File.Collect.Others.{Follows, act_all-Follows}

-- However the other goroutines use the connection meanwhile, a request on a channel made before that
-- is among the collected ones, or was not waited on before, is not waited on when
-- `collectReplies` returns with the connection still up: its ID is free, another's, or kept as a
-- cancelled request's.
pub collect_replies_unwaited :
    (others : ℕ → List Other) (found : ℕ → Found) (i : ℕ) (ws : List WireChunk) (m k : ℕ) (c : Conn)
    → ((j : ℕ) → found j ≢ connection_done)
    → k < c.next_channel
    → (is_waited m k c && not (names_request m k ws)) ≡ false
    → is_waited m k (collect_replies others found i ws c) ≡ false
unfolding collect_replies names_request
collect_replies_unwaited others found i [] m k c up made h = ground (arith, h)
collect_replies_unwaited others found i (w ∷ ws) m k c up made h = settle (found i) refl (
    collect_replies_unwaited others found (i + 1) ws m k (collect_reply w before) up
      (omega (arith, made, follows.grown))
      (ground (arith, named, collect_reply_waited w m k before)))
  where
    before : Conn
    before = act_all (others i) c

    follows : Follows m k c before
    follows = act_all-Follows m k (others i) c

    named : (is_waited m k before && not (names_request m k (w ∷ ws))) ≡ false
    named = elim (Bool-cases (is_waited m k c)) [
      | inl e ↦ ground (arith, e, h)
      | inr e ↦ ground (arith, follows.kept made e)
    ]

    settle :
        (at_once : Found)
        → found i ≡ at_once
        → is_waited m k (collect_replies others found (i + 1) ws (collect_reply w before)) ≡ false
        → is_waited m k (elim at_once [
          | reply_found ↦ collect_replies others found (i + 1) ws (collect_reply w before)
          | deadline_passed ↦ abandon_chunks (w ∷ ws) before
          | connection_done ↦ before
        ])
          ≡ false
    settle reply_found e rest = rest
    settle deadline_passed e rest = ground (arith, named, abandon_chunks_waited (w ∷ ws) m k before)
    settle connection_done e rest = absurd (up i e)
