-- ===== src/Substream/Count.antt =====
-- src/substream.rs, `poll_read` as a whole: the bytes that it moves, and the count that it returns.
use rust_libp2p_nym.Prelude.{
  ℕ, ◌+◌, ◌-◌, ◌≤◌, ◌<◌, min, ◌≡◌, ◌≢◌, refl, ap, ◌∙◌, false, List, [], ◌++◌, Option, none, some,
  ◌⊎◌, arith, length, take, drop, length-append, ok, inl, inr, ltb_lt,
}
use rust_libp2p_nym.Foreign.{Foreign}
use rust_libp2p_nym.Channel.{Channels, Poll, ready, pending}
use rust_libp2p_nym.Substream.{Substream, poll_read, check_closed}
use rust_libp2p_nym.Substream.Reading.{arrived, returned, read_result, read_unread_lem}

no_bytes : (xs ys : List ℕ) → ys ≡ [] → length (xs ++ ys) ≡ length xs
no_bytes xs ys e = omega (arith, length-append xs ys, ap length e)

module _ ⦃f : Foreign⦄ ⦃c : Channels⦄ where
  returned_exact :
      (u : List ℕ) (n : ℕ) (inbound : Poll (Option (List ℕ)))
      → (u ≡ []) ⊎ (((b : List ℕ) → inbound ≢ ready (some b)) ⊎ (n ≤ length u))
      → 0 < min (length (u ++ arrived inbound)) n
      → returned (length u) n inbound ≡ ready (min (length (u ++ arrived inbound)) n)
  returned_exact u n (ready (some bytes)) (inl e) put =
      ground (arith, length-append u bytes, ap length e)
  returned_exact u n (ready (some bytes)) (inr (inl nothing)) put = absurd (nothing bytes refl)
  returned_exact u n (ready (some bytes)) (inr (inr full)) put =
      ground (arith, length-append u bytes)
  returned_exact u n (ready none) h put = ground (arith, no_bytes u [] refl)
  returned_exact u n pending h put = ground (arith, no_bytes u [] refl)

  -- What the channel gives to a read of `s`.
  abbrev pub inbound_of : Substream → Poll (Option (List ℕ))
  inbound_of s = (c.poll_recv s.inbound_rx).0

  -- A substream that is not closed: its flag is not set, and no close has been signalled.
  pub record IsOpen (s : Substream) : Type 0 where
    pub not_closed : s.closed ≡ false
    pub no_signal : (c.try_recv s.close_rx).0 ≡ none

  check_closed_open :
      (s : Substream)
      → IsOpen s
      → check_closed s ≡ (none, record s { close_rx = (c.try_recv s.close_rx).1 })
  unfolding check_closed
  check_closed_open s o = ground arith

  -- The substream with both channels looked at.
  abbrev polled : Substream → Substream
  polled s = record s {
    close_rx = (c.try_recv s.close_rx).1;
    inbound_rx = (c.poll_recv s.inbound_rx).1;
  }

  poll_read_open :
      (s : Substream) (buf : List ℕ)
      → IsOpen s
      → poll_read s buf ≡ read_result (polled s) s.unread_data buf (inbound_of s)
  unfolding poll_read
  poll_read_open s buf o =
      let checked = check_closed_open s o in
      rw (poll_read, checked)
        (rw checked (read_unread_lem (polled s) s.unread_data buf (inbound_of s)))

  -- A read of an open substream, with any buffer, does not panic and loses no byte: the unread data
  -- and then the bytes that arrived are one sequence, of which as much as the buffer holds stands at
  -- its front, the buffer is unchanged behind that, and the rest of the sequence is the new unread
  -- data.
  pub poll_read-bytes :
      (s : Substream) (buf : List ℕ)
      → IsOpen s
      → let all = s.unread_data ++ arrived (inbound_of s) in
        ((poll_read s buf).buf ≡ take (length buf) all ++ drop (length all) buf)
        × ((poll_read s buf).stream.unread_data ≡ drop (length buf) all)
        × ((poll_read s buf).result
            ≡ ok (returned (length s.unread_data) (length buf) (inbound_of s)))
  poll_read-bytes s buf o =
      let e = poll_read_open s buf o in
      (ap (λ r. r.buf) e, ap (λ r. r.stream.unread_data) e, ap (λ r. r.result) e)

  -- The count that an open read returns is the number of bytes that it put into the buffer when no
  -- unread data was left, when the channel gave nothing, or when the unread data alone fills the
  -- buffer, as long as something was put there.
  poll_read-count :
      (s : Substream) (buf : List ℕ)
      → IsOpen s
      → let all = s.unread_data ++ arrived (inbound_of s) in
        (s.unread_data ≡ [])
          ⊎ (((b : List ℕ) → inbound_of s ≢ ready (some b)) ⊎ (length buf ≤ length s.unread_data))
        → 0 < min (length all) (length buf)
        → (poll_read s buf).result ≡ ok (ready (min (length all) (length buf)))
  poll_read-count s buf o h put =
      (poll_read-bytes s buf o).2
      ∙ ap ok (returned_exact s.unread_data (length buf) (inbound_of s) h put)

  -- The count is too small whenever unread data is left, does not fill the buffer, and more bytes
  -- arrive with the same read: it leaves out the unread bytes, which are in the buffer and no longer
  -- in the substream.
  pub poll_read-undercounts :
      (s : Substream) (buf bytes : List ℕ)
      → IsOpen s
      → inbound_of s ≡ ready (some bytes)
      → 0 < length s.unread_data
      → length s.unread_data < length buf
      → (n : ℕ) × ((poll_read s buf).result ≡ ok (ready n))
        × (n + length s.unread_data ≡ min (length (s.unread_data ++ bytes)) (length buf))
        × ((poll_read s buf).stream.unread_data ≡ drop (length buf) (s.unread_data ++ bytes))
  poll_read-undercounts s buf bytes o e left room =
      let (moved, kept, result) = poll_read-bytes s buf o in
      let count = min (length buf - length s.unread_data) (length bytes) in
      (
        count,
        rw (e, ltb_lt (length s.unread_data) (length buf) room) at result,
        omega (arith, length-append s.unread_data bytes),
        rw e at kept,
      )
