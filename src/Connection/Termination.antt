-- ===== src/Connection/Termination.antt =====
-- src/connection.rs, `Connection::poll`: the loop ends.
use rust_libp2p_nym.Prelude.{
  ℕ, zero, suc, ◌<◌, ◌≡◌, ◌≢◌, refl, ap, List, some, arith, inl, inr, Outcome, stuck, length,
}
use rust_libp2p_nym.Prelude.Steps.{Steps, continue-Steps, continue_ends}
use rust_libp2p_nym.Foreign.{Foreign}
use rust_libp2p_nym.Channel.{Channels, ChannelLaws, Poll-cases, ready}
use rust_libp2p_nym.Error.{Error}
use rust_libp2p_nym.Message.SubstreamId.{SubstreamId}
use rust_libp2p_nym.Message.SubstreamMessage.{
  SubstreamMessage, SubstreamMessageType, open_request, open_response, close, payload,
}
use rust_libp2p_nym.Connection.{
  Muxer, fetch_nonce, send_outbound, new_substream, signal_close, notify_closed, handle_close,
  offer_inbound, handle_open_request, handle_data, handle_message, poll_loop, poll, update,
}

module _ ⦃f : Foreign⦄ ⦃c : Channels⦄ where
  -- No step touches the channel into the connection.
  abbrev inbound_rx : Muxer → c.Chan SubstreamMessage
  inbound_rx m = m.connection.inbound_rx

  new_substream-Steps : (id : SubstreamId) (m : Muxer) → Steps inbound_rx (new_substream id m) m
  unfolding new_substream
  new_substream-Steps id m = record { ends = ground arith; same = ground arith }

  send_outbound-Steps :
      (message : SubstreamMessage) (n : ℕ) (m : Muxer)
      → Steps inbound_rx (send_outbound message n m) m
  unfolding send_outbound
  send_outbound-Steps message n m = record { ends = ground arith; same = ground arith }

  handle_open_request-Steps :
      (id : SubstreamId) (m : Muxer) → Steps inbound_rx (handle_open_request id m) m
  unfolding handle_open_request fetch_nonce offer_inbound
  handle_open_request-Steps id m =
      continue-Steps inbound_rx m (new_substream id m) _ (new_substream-Steps id m) λ s.
        let m' = (fetch_nonce (new_substream id m).1).1 in
        continue-Steps inbound_rx _ (send_outbound _ _ m') _ (sent (send_outbound-Steps _ _ m'))
          λ _. record { ends = ground arith; same = ground arith }
    where
      sent :
          {r : Outcome Error (Unit {0}) × Muxer}
          → Steps inbound_rx r (fetch_nonce (new_substream id m).1).1
          → Steps inbound_rx r (new_substream id m).1
      sent h = record { ends = h.ends; same = h.same }

  handle_close-Steps : (id : SubstreamId) (m : Muxer) → Steps inbound_rx (handle_close id m) m
  unfolding handle_close signal_close notify_closed
  handle_close-Steps id m = record { ends = ground arith; same = ground arith }

  handle_data-Steps :
      (id : SubstreamId) (bytes : List ℕ) (m : Muxer) → Steps inbound_rx (handle_data id bytes m) m
  unfolding handle_data
  handle_data-Steps id bytes m = record { ends = ground arith; same = ground arith }

  handle_message-Steps :
      (id : SubstreamId) (type : SubstreamMessageType) (m : Muxer)
      → Steps inbound_rx (handle_message id type m) m
  unfolding handle_message
  handle_message-Steps id open_request m = handle_open_request-Steps id m
  handle_message-Steps id open_response m = record { ends = λ x. absurd (cc x); same = refl }
  handle_message-Steps id close m = handle_close-Steps id m
  handle_message-Steps id (payload bytes) m = handle_data-Steps id bytes m

  module _ (laws : ChannelLaws) where
    polled_shorter :
        (m : Muxer) (msg : SubstreamMessage)
        → (c.poll_recv m.connection.inbound_rx).0 ≡ ready (some msg)
        → length (c.contents m.connection.inbound_rx)
          ≡ suc (length (c.contents (c.poll_recv m.connection.inbound_rx).1))
    polled_shorter m msg e = ap length (
        laws.received msg m.connection.inbound_rx (c.poll_recv m.connection.inbound_rx).1
          (ap (λ p. (p, (c.poll_recv m.connection.inbound_rx).1)) e))

    poll_loop_ends :
        (fuel : ℕ) (cx : f.Waker) (m : Muxer)
        → length (c.contents m.connection.inbound_rx) < fuel
        → (poll_loop fuel cx m).0 ≢ stuck
    unfolding poll_loop
    poll_loop_ends zero cx m le = absurd (omega arith)
    poll_loop_ends (suc fuel) cx m le = elim (Poll-cases (c.poll_recv m.connection.inbound_rx).0) [
      | inl (msg, e) ↦
          let m' =
            update (λ conn. record conn { inbound_rx = (c.poll_recv conn.inbound_rx).1 }) m in
          let h = handle_message-Steps msg.substream_id msg.message_type m' in
          let shorter = polled_shorter m msg e in
          rw (poll_loop, e)
            (continue_ends (handle_message msg.substream_id msg.message_type m') _ h.ends λ _.
              poll_loop_ends fuel cx _
                (omega (arith, shorter, ap (λ ch. length (c.contents ch)) h.same)))
      | inr (inl e) ↦ rw (poll_loop, e) (λ x. absurd (cc x))
      | inr (inr e) ↦ rw (poll_loop, e) (λ x. absurd (cc x))
    ]

    -- Polling a connection ends, whatever its channel holds: the loop never runs out of fuel, so the
    -- poll returns, with or without an error, or a message makes it panic.
    pub poll-terminates : (cx : f.Waker) (m : Muxer) → (poll cx m).0 ≢ stuck
    unfolding poll
    poll-terminates cx m = poll_loop_ends _ cx m (omega arith)
