-- ===== src/Substream/Nonce.antt =====
-- src/substream.rs: which operations take a nonce from the connection's counter, and which of them
-- send a message with it.
use rust_libp2p_nym.Prelude.{
  ℕ, ◌≡◌, refl, ap, true, false, List, [], ◌∷◌, ◌++◌, none, some, arith, length, ok,
}
use rust_libp2p_nym.Foreign.{Foreign}
use rust_libp2p_nym.Channel.{Channels, ChannelLaws, ready}
use rust_libp2p_nym.Message.SubstreamMessage.{new_with_data, new_close}
use rust_libp2p_nym.Message.Wire.{OutboundMessage}
use rust_libp2p_nym.Substream.{
  Substream, Link, Call, poll_write, poll_close, check_closed, framed, fetch_add,
}

module _ ⦃f : Foreign⦄ ⦃c : Channels⦄ where
  -- The nonce was taken and the message was put behind the others in the mixnet's channel.
  pub record Sent (l l' : Link) (m : OutboundMessage) : Type 0 where
    pub nonce : l'.message_nonce ≡ fetch_add l.message_nonce
    pub outbound : c.contents l'.outbound_tx ≡ c.contents l.outbound_tx ++ m ∷ []
    pub still_open : c.is_open l'.outbound_tx ≡ true

  -- The flag of the substream is set.
  abbrev pub IsClosed : Substream → Type 0
  IsClosed s = s.closed ≡ true

  check_closed_ok :
      (s : Substream)
      → (check_closed s).0 ≡ none
      → (check_closed s).1 ≡ record s { close_rx = (c.try_recv s.close_rx).1 }
  unfolding check_closed
  check_closed_ok s h = ground arith

  poll_write_sends :
      (s : Substream) (l : Link) (buf : List ℕ) (ch : c.Chan OutboundMessage)
      → (check_closed s).0 ≡ none
      → c.send
          (framed (check_closed s).1 (new_with_data s.substream_id buf) l.message_nonce)
          l.outbound_tx
        ≡ some ch
      → poll_write s buf l ≡ record {
        result = ok (ready (length buf));
        stream = (check_closed s).1;
        link = record { message_nonce = fetch_add l.message_nonce; outbound_tx = ch };
      }
  unfolding poll_write
  poll_write_sends s l buf ch h e = ground arith

  poll_close_sends :
      (s : Substream) (l : Link) (ch : c.Chan OutboundMessage)
      → s.closed ≡ false
      → c.send (framed s (new_close s.substream_id) l.message_nonce) l.outbound_tx ≡ some ch
      → poll_close s l ≡ record {
        result = ok (ready tt);
        stream = record s { closed = true };
        link = record { message_nonce = fetch_add l.message_nonce; outbound_tx = ch };
      }
  unfolding poll_close
  poll_close_sends s l ch h e = ground arith

  module _ (laws : ChannelLaws) where
    -- Writing to a substream that is not closed, while the mixnet's channel is open, sends one data
    -- message with the bytes of the whole buffer under the next nonce, and returns the buffer's
    -- length.
    pub poll_write-Sent :
        (s : Substream) (l : Link) (buf : List ℕ)
        → (check_closed s).0 ≡ none
        → c.is_open l.outbound_tx ≡ true
        → ((poll_write s buf l).result ≡ ok (ready (length buf)))
          × Sent l
              (poll_write s buf l).link
              (framed s (new_with_data s.substream_id buf) l.message_nonce)
    poll_write-Sent s l buf h o =
        let s' = (check_closed s).1 in
        let m = framed s' (new_with_data s.substream_id buf) l.message_nonce in
        let (ch, e, k, still) = laws.send_open m l.outbound_tx o in
        let same =
          ap (λ x. framed x (new_with_data s.substream_id buf) l.message_nonce)
            (check_closed_ok s h) in
        let whole = poll_write_sends s l buf ch h e in
        (
          ap (λ (r : Call ℕ). r.result) whole,
          rw (whole, ← same) (record { nonce = refl; outbound = k; still_open = still }),
        )

    -- Closing an open substream, while the mixnet's channel is open, sets its flag and sends one close
    -- message under the next nonce.
    pub poll_close-Sent :
        (s : Substream) (l : Link)
        → s.closed ≡ false
        → c.is_open l.outbound_tx ≡ true
        → ((poll_close s l).result ≡ ok (ready tt))
          × IsClosed (poll_close s l).stream
          × Sent l (poll_close s l).link (framed s (new_close s.substream_id) l.message_nonce)
    poll_close-Sent s l h o =
        let m = framed s (new_close s.substream_id) l.message_nonce in
        let (ch, e, k, still) = laws.send_open m l.outbound_tx o in
        let whole = poll_close_sends s l ch h e in
        (
          ap (λ (r : Call (Unit {0})). r.result) whole,
          ap (λ (r : Call (Unit {0})). r.stream.closed) whole,
          rw whole (record { nonce = refl; outbound = k; still_open = still }),
        )
