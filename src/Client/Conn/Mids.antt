-- ===== src/Client/Conn/Mids.antt =====
-- `allocateMID`, against a description of what it allocates.
use smb1client.Common.{
  ℕ, zero, suc, ◌+◌, ◌-◌, ◌%◌, ◌<◌, ◌≡◌, ◌≢◌, ◌⊎◌, inl, inr, refl, ap, true, false, none, ◌==◌,
  arith, Bool-cases,
}
use native.Mathlib.Decide.{dec_lt}
use smb1client.Common.Dict.{lookup}
use smb1client.Client.Conn.{
  ConnError, Conn, Pending, Allocation, allocated, exhausted, out_of_fuel, is_free, allocate_loop,
  allocate_mid, reserved_mid, mid_count, set_error, mids_exhausted,
}

-- An ID that may not be handed out: the reserved one, or one that a pending request holds.
abbrev pub Held : ℕ → Pending → Type 0
Held m pending = is_free m pending ≡ false

-- The ID `k` places after `start`.
abbrev pub nth_mid : ℕ → ℕ → ℕ
nth_mid start k = (start + k) % mid_count

-- What the loop promises: the free ID that it returns is the first from `start` on, and only the
-- counter has moved; or every ID is held, and the connection has been torn down.
pub data Allocates (start : ℕ) (c : Conn) : Allocation → Type 0 where
  first_free :
      {c' : Conn} {mid : ℕ} (k : ℕ)
      → mid ≡ nth_mid start k
      → is_free mid c.pending ≡ true
      → ((j : ℕ) → j < k → Held (nth_mid start j) c.pending)
      → c' ≡ record c { next_mid = (mid + 1) % mid_count }
      → Allocates start c (allocated mid c')
  all_held :
      {c' : Conn}
      → ((m : ℕ) → m < mid_count → Held m c.pending)
      → c'
        ≡ record (set_error mids_exhausted (record c { next_mid = start })) { socket_closed = true }
      → Allocates start c (exhausted c')

extend-Held :
    (start k : ℕ) (pending : Pending)
    → ((j : ℕ) → j < k → Held (nth_mid start j) pending)
    → Held (nth_mid start k) pending
    → (j : ℕ) → j < suc k
    → Held (nth_mid start j) pending
extend-Held start k pending before here j h = elim (dec_lt j k) [
  | yes earlier ↦ before j earlier
  | no other ↦ let same : k ≡ j = omega arith in rw same at here
]

-- After a whole pass, every ID has been seen.
whole_pass :
    (start : ℕ) (pending : Pending)
    → start < mid_count
    → ((j : ℕ) → j < mid_count → Held (nth_mid start j) pending)
    → (m : ℕ) → m < mid_count
    → Held m pending
whole_pass start pending hs seen m hm =
    let place : nth_mid start ((m + mid_count - start) % mid_count) ≡ m = omega arith in
    rw place at (seen ((m + mid_count - start) % mid_count) (omega arith))

allocate_loop-Allocates :
    (fuel start k : ℕ) (c : Conn)
    → start < mid_count
    → k < mid_count
    → fuel + k ≡ mid_count
    → ((j : ℕ) → j < k → Held (nth_mid start j) c.pending)
    → Allocates start c (allocate_loop fuel start (record c { next_mid = nth_mid start k }))
unfolding allocate_loop
allocate_loop-Allocates zero start k c hs hk hf seen = absurd (omega arith)
allocate_loop-Allocates (suc fuel) start k c hs hk hf seen =
    elim (Bool-cases (is_free (nth_mid start k) c.pending)) [
      | inl free ↦ rw free (first_free k refl free seen refl)
      | inr held ↦ elim (Bool-cases ((nth_mid start k + 1) % mid_count == start)) [
        | inl wrapped ↦
            rw (held, wrapped)
              (all_held (whole_pass start c.pending hs (seen_all held wrapped))
                (ap torn_down (ground arith)))
        | inr more ↦
            rw (held, more)
              (rw next (
                allocate_loop-Allocates fuel start (suc k) c hs (ground arith) (omega arith)
                  (extend-Held start k c.pending seen held)))
      ]
    ]
  where
    torn_down : ℕ → Conn
    torn_down t = record (set_error mids_exhausted (record c { next_mid = t })) {
      socket_closed = true;
    }

    next : (nth_mid start k + 1) % mid_count ≡ nth_mid start (suc k)
    next = omega arith

    seen_all :
        Held (nth_mid start k) c.pending
        → ((nth_mid start k + 1) % mid_count == start) ≡ true
        → (j : ℕ) → j < mid_count
        → Held (nth_mid start j) c.pending
    seen_all held wrapped j h = extend-Held start k c.pending seen held j (ground arith)

-- `allocateMID` never runs out of rounds, and does what it promises.
pub allocate_mid-Allocates :
    (c : Conn) → c.next_mid < mid_count → Allocates c.next_mid c (allocate_mid c)
unfolding allocate_mid
allocate_mid-Allocates c h =
    let at_start : nth_mid c.next_mid 0 ≡ c.next_mid = omega arith in
    rw at_start at (
      allocate_loop-Allocates mid_count c.next_mid 0 c h (omega arith) refl
        (λ j absent. absurd (omega arith)))

pub set_error-done : (e : ConnError) (c : Conn) → (set_error e c).done ≡ true
unfolding set_error
set_error-done e c = ground arith

-- With a counter below 2^16, the ID that is handed out is below the reserved one and held by no
-- pending request, it is the first such ID from the counter on, and nothing but the counter has
-- changed.
pub allocate_mid_fresh :
    (c : Conn) {c' : Conn} {mid : ℕ}
    → c.next_mid < mid_count
    → allocate_mid c ≡ allocated mid c'
    → (mid < reserved_mid)
      × (lookup mid c.pending ≡ none)
      × (c' ≡ record c { next_mid = (mid + 1) % mid_count })
      × ((k : ℕ) × (mid ≡ nth_mid c.next_mid k)
          × ((j : ℕ) → j < k → Held (nth_mid c.next_mid j) c.pending))
allocate_mid_fresh c h e = from (rw e at (allocate_mid-Allocates c h))
  where
    from :
        {c' : Conn} {mid : ℕ}
        → Allocates c.next_mid c (allocated mid c')
        → (mid < reserved_mid)
          × (lookup mid c.pending ≡ none)
          × (c' ≡ record c { next_mid = (mid + 1) % mid_count })
          × ((k : ℕ) × (mid ≡ nth_mid c.next_mid k)
              × ((j : ℕ) → j < k → Held (nth_mid c.next_mid j) c.pending))
    from (first_free k at_k free before moved) =
        (ground arith, ground arith, moved, (k, at_k, before))

-- With a counter below 2^16, allocation ends: with an ID, or, if every ID below the reserved one is
-- held by a pending request, with the connection torn down.
pub allocate_mid_total :
    (c : Conn)
    → c.next_mid < mid_count
    → ((mid : ℕ) × (c' : Conn) × (allocate_mid c ≡ allocated mid c'))
      ⊎ ((c' : Conn) × (allocate_mid c ≡ exhausted c')
          × ((m : ℕ) → m < reserved_mid → lookup m c.pending ≢ none)
          × (c'.done ≡ true)
          × (c'.socket_closed ≡ true))
allocate_mid_total c h = cases (allocate_mid c) (allocate_mid-Allocates c h)
  where
    cases :
        (a : Allocation)
        → Allocates c.next_mid c a
        → ((mid : ℕ) × (c' : Conn) × (a ≡ allocated mid c'))
          ⊎ ((c' : Conn) × (a ≡ exhausted c')
              × ((m : ℕ) → m < reserved_mid → lookup m c.pending ≢ none)
              × (c'.done ≡ true)
              × (c'.socket_closed ≡ true))
    cases (allocated mid c') _ = inl (mid, c', refl)
    cases (exhausted c') (all_held held torn) = inr (
      c',
      refl,
      λ m hm free. ground (arith, held m (omega arith)),
      rw torn (set_error-done mids_exhausted _),
      rw torn,
    )
    cases out_of_fuel a = elim a [ ]
