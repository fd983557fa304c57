-- ===== src/Transport/Termination.antt =====
-- src/transport.rs: the loop of `poll` ends.
use rust_libp2p_nym.Prelude.{
  ℕ, zero, suc, ◌<◌, ◌≡◌, ◌≢◌, refl, ap, some, arith, inl, inr, Outcome, ok, err, panic, stuck,
  length,
}
use rust_libp2p_nym.Foreign.{Foreign}
use rust_libp2p_nym.Channel.{Channels, ChannelLaws, Poll-cases, ready}
use rust_libp2p_nym.Error.{Error}
use rust_libp2p_nym.Message.ConnectionId.{ConnectionId_key}
use rust_libp2p_nym.Message.Wire.{InboundMessage}
use rust_libp2p_nym.Transport.State.{
  NymTransport, InboundTransportEvent, connection_requested, connection_responded, message_handled,
}
use rust_libp2p_nym.Transport.Polling.{Polled, settle, received, handle_inbound, poll_loop, poll}
use rust_libp2p_nym.Transport.Steps.{Fixed, handle_inbound-Steps}

module _ ⦃f : Foreign⦄ ⦃c : Channels⦄ where
  settle_ends :
      (r : Outcome Error InboundTransportEvent × NymTransport) (rest : NymTransport → Polled)
      → r.0 ≢ stuck
      → (rest r.1).0 ≢ stuck
      → (settle r rest).0 ≢ stuck
  settle_ends (ok (connection_requested u), t) rest h k = λ x. absurd (cc x)
  settle_ends (ok connection_responded, t) rest h k = k
  settle_ends (ok message_handled, t) rest h k = k
  settle_ends (err e, t) rest h k = λ x. absurd (cc x)
  settle_ends (panic, t) rest h k = λ x. absurd (cc x)
  settle_ends (stuck, t) rest h k = absurd (h refl)

  module _ (laws : ChannelLaws) where
    polled_shorter :
        (t : NymTransport) (msg : InboundMessage)
        → (c.poll_recv t.inbound_stream).0 ≡ ready (some msg)
        → length (c.contents t.inbound_stream)
          ≡ suc (length (c.contents (received t).inbound_stream))
    polled_shorter t msg e = ap length (
        laws.received msg t.inbound_stream (c.poll_recv t.inbound_stream).1
          (ap (λ p. (p, (c.poll_recv t.inbound_stream).1)) e))

    poll_loop_ends :
        (fuel : ℕ) (cx : f.Waker) (t : NymTransport)
        → length (c.contents t.inbound_stream) < fuel
        → (poll_loop fuel cx t).0 ≢ stuck
    unfolding poll_loop
    poll_loop_ends zero cx t le = absurd (omega arith)
    poll_loop_ends (suc fuel) cx t le = elim (Poll-cases (c.poll_recv t.inbound_stream).0) [
      | inl (msg, e) ↦
          let h = handle_inbound-Steps msg.message (received t) in
          let shorter = polled_shorter t msg e in
          rw (poll_loop, e)
            (settle_ends (handle_inbound msg.message (received t)) _ h.ends (
              poll_loop_ends fuel cx _
                (omega (arith, shorter, ap (λ (p : Fixed). length (c.contents p.0)) h.same))))
      | inr (inl e) ↦ rw (poll_loop, e) (λ x. absurd (cc x))
      | inr (inr e) ↦ rw (poll_loop, e) (λ x. absurd (cc x))
    ]

    -- Polling the transport ends, whatever its channels hold: the loop over the inbound messages
    -- never runs out of fuel, and neither do the loops over the queues within it. So the poll
    -- returns, or a message makes it panic.
    pub transport_poll-terminates : (cx : f.Waker) (t : NymTransport) → (poll cx t).0 ≢ stuck
    unfolding poll
    transport_poll-terminates cx t = elim (Poll-cases (c.poll_recv t.poll_chan).0) [
      | inl (event, e) ↦ rw (poll, e) (λ x. absurd (cc x))
      | inr (inl e) ↦ rw (poll, e) (poll_loop_ends _ cx _ (omega arith))
      | inr (inr e) ↦ rw (poll, e) (poll_loop_ends _ cx _ (omega arith))
    ]
