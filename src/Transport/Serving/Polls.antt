-- ===== src/Transport/Serving/Polls.antt =====
-- src/transport.rs, `poll`: what an established connection gets of a poll.
use rust_libp2p_nym.Prelude.{
  ℕ, zero, suc, ◌≡◌, ◌≢◌, ◌⊎◌, refl, sym, ap, ◌∙◌, ◌∷◌, inl, inr, some, Outcome, ok, err, panic,
  stuck,
}
use rust_libp2p_nym.Foreign.{Foreign}
use rust_libp2p_nym.Channel.{Channels, ChannelLaws, Poll-cases, ready}
use rust_libp2p_nym.Error.{Error}
use rust_libp2p_nym.Message.SubstreamMessage.{SubstreamMessage}
use rust_libp2p_nym.Message.ConnectionId.{ConnectionId, ConnectionId_key}
use rust_libp2p_nym.Message.Wire.{InboundMessage}
use rust_libp2p_nym.Queue.{MessageQueue}
use rust_libp2p_nym.Transport.State.{
  NymTransport, InboundTransportEvent, connection_requested, connection_responded, message_handled,
}
use rust_libp2p_nym.Transport.Delivery.{Serves}
use rust_libp2p_nym.Transport.Isolation.{Forwarded-trans}
use rust_libp2p_nym.Transport.Steps.{Fixed, handle_inbound-Steps}
use rust_libp2p_nym.Transport.Polling.{Polled, settle, received, handle_inbound, poll_loop, poll}
use rust_libp2p_nym.Transport.Serving.{Gets, Handled, idle-Gets, handle_inbound-Handled}

module _ ⦃f : Foreign⦄ ⦃c : Channels⦄ where
  module _ (laws : ChannelLaws) (id : ConnectionId) where
    one-Gets :
        (m : InboundMessage) (ch : c.Chan SubstreamMessage) (q : MessageQueue)
        (t t' t'' : NymTransport)
        → c.contents t.inbound_stream ≡ m ∷ c.contents t'.inbound_stream
        → (h : Handled laws id m ch q t') → Gets id h.ch' h.q' t' t''
        → Gets id ch q t t''
    one-Gets m ch q t t' t'' e h g = record {
      ms = m ∷ g.ms;
      after = g.after;
      consumed = e ∙ ap (◌∷◌ m) g.consumed;
      serves = rw (h.later g.ms) g.serves;
      forwarded = rw (h.later g.ms) (Forwarded-trans ch h.ch' g.after _ _ h.forwarded g.forwarded);
    }

    settle_state :
        (r : Outcome Error InboundTransportEvent × NymTransport) (rest : NymTransport → Polled)
        → ((settle r rest).1 ≡ r.1) ⊎ ((settle r rest).1 ≡ (rest r.1).1)
    settle_state (ok (connection_requested u), t) rest = inl refl
    settle_state (ok connection_responded, t) rest = inr refl
    settle_state (ok message_handled, t) rest = inr refl
    settle_state (err e, t) rest = inl refl
    settle_state (panic, t) rest = inl refl
    settle_state (stuck, t) rest = inl refl

    -- The message is off the stream, and its handler does not touch the stream.
    received_first :
        (t : NymTransport) (m : InboundMessage)
        → (c.poll_recv t.inbound_stream).0 ≡ ready (some m)
        → c.contents t.inbound_stream
          ≡ m ∷ c.contents (handle_inbound m.message (received t)).1.inbound_stream
    received_first t m e =
        laws.received m t.inbound_stream (c.poll_recv t.inbound_stream).1
          (ap (λ p. (p, (c.poll_recv t.inbound_stream).1)) e)
        ∙ ap (λ (p : Fixed). m ∷ c.contents p.0)
            (sym (handle_inbound-Steps m.message (received t)).same)

    waiting-Gets :
        (cx : f.Waker) (ch : c.Chan SubstreamMessage) (q : MessageQueue) (t : NymTransport)
        → Serves t id ch q
        → ((m : InboundMessage) → (c.poll_recv t.inbound_stream).0 ≢ ready (some m))
        → Gets id ch q t (record (received t) { waker = some cx })
    waiting-Gets cx ch q t s n =
        idle-Gets laws id ch q t _
          (record { connection = s.connection; opened = s.opened; queue = s.queue })
          (laws.not_received t.inbound_stream n)

    poll_loop-Gets :
        (fuel : ℕ) (cx : f.Waker) (t : NymTransport) (ch : c.Chan SubstreamMessage)
        (q : MessageQueue)
        → Serves t id ch q
        → Gets id ch q t (poll_loop fuel cx t).1
    unfolding poll_loop
    poll_loop-Gets zero cx t ch q s = idle-Gets laws id ch q t t s refl
    poll_loop-Gets (suc fuel) cx t ch q s = elim (Poll-cases (c.poll_recv t.inbound_stream).0) [
      | inl (m, e) ↦
          let r = handle_inbound m.message (received t) in
          let h =
            handle_inbound-Handled laws id m.message ch q (received t)
              (record { connection = s.connection; opened = s.opened; queue = s.queue }) in
          let first = received_first t m e in
          rw (poll_loop, e)
            (elim (settle_state r (poll_loop fuel cx)) [
              | inl stops ↦ rw stops (
                  one-Gets m ch q t r.1 r.1 first h
                    (idle-Gets laws id h.ch' h.q' r.1 r.1 h.serves refl))
              | inr goes ↦
                  rw goes (
                    one-Gets m ch q t r.1 _ first h
                      (poll_loop-Gets fuel cx r.1 h.ch' h.q' h.serves))
            ])
      | inr (inl e) ↦ rw (poll_loop, e) (waiting-Gets cx ch q t s λ m k. absurd (cc (e, k)))
      | inr (inr e) ↦ rw (poll_loop, e) (waiting-Gets cx ch q t s λ m k. absurd (cc (e, k)))
    ]

    -- The channel of events has been polled.
    abbrev looked : NymTransport → NymTransport
    looked t = record t { poll_chan = (c.poll_recv t.poll_chan).1 }

    looked-Gets :
        (ch : c.Chan SubstreamMessage) (q : MessageQueue) (t t' : NymTransport)
        → Gets id ch q (looked t) t'
        → Gets id ch q t t'
    looked-Gets ch q t t' g = record {
      ms = g.ms;
      after = g.after;
      consumed = g.consumed;
      serves = g.serves;
      forwarded = g.forwarded;
    }

    -- A poll takes some messages off the stream of inbound messages, in their order. An established
    -- connection whose channel is open stays established, and gets exactly what its own transport
    -- messages among them release, in that order, whatever else they are: messages, requests and
    -- responses of other connections, and requests and responses for its own ID.
    pub poll-Gets :
        (cx : f.Waker) (t : NymTransport) (ch : c.Chan SubstreamMessage) (q : MessageQueue)
        → Serves t id ch q
        → Gets id ch q t (poll cx t).1
    unfolding poll
    poll-Gets cx t ch q s =
        let same : Serves (looked t) id ch q = record {
          connection = s.connection;
          opened = s.opened;
          queue = s.queue;
        } in
        elim (Poll-cases (c.poll_recv t.poll_chan).0) [
          | inl (event, e) ↦ rw (poll, e) (idle-Gets laws id ch q t (looked t) same refl)
          | inr (inl e) ↦
              rw (poll, e) (looked-Gets ch q t _ (poll_loop-Gets _ cx (looked t) ch q same))
          | inr (inr e) ↦
              rw (poll, e) (looked-Gets ch q t _ (poll_loop-Gets _ cx (looked t) ch q same))
        ]
