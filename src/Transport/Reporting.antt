-- ===== src/Transport/Reporting.antt =====
-- src/transport.rs: what `poll` returns, and the waker that it leaves.
use rust_libp2p_nym.Prelude.{
  ℕ, zero, suc, ◌≡◌, ◌≢◌, refl, sym, ap, ◌∙◌, true, inl, inr, some, Outcome, ok, err, panic, stuck,
  length,
}
use rust_libp2p_nym.Foreign.{Foreign}
use rust_libp2p_nym.Channel.{Channels, ChannelLaws, Poll, Poll-cases, ready, pending}
use rust_libp2p_nym.Error.{Error}
use rust_libp2p_nym.Message.ConnectionMessage.{ConnectionMessage}
use rust_libp2p_nym.Message.ConnectionId.{ConnectionId_key}
use rust_libp2p_nym.Message.Wire.{InboundMessage, connection_request}
use rust_libp2p_nym.Connection
use rust_libp2p_nym.Connection.{Connection}
use rust_libp2p_nym.Transport.State.{
  NymTransport, InboundTransportEvent, connection_requested, connection_responded, message_handled,
  TransportEvent, incoming, Upgrade, poll_upgrade,
}
use rust_libp2p_nym.Transport.Handlers.{handle_connection_request}
use rust_libp2p_nym.Transport.Polling.{
  Polled, settle, received, upgrade, handle_inbound, poll_loop, poll,
}
use rust_libp2p_nym.Transport.Steps.{Fixed, fixed, handle_inbound-Steps}
use rust_libp2p_nym.Transport.Establishment.{handle_connection_request-Serves}
use rust_libp2p_nym.Transport.Handshake.{IsUnused}

module _ ⦃f : Foreign⦄ ⦃c : Channels⦄ where
  -- If the poll is pending, the waker is kept.
  record KeepsWaker (cx : f.Waker) (r : Polled) : Type 0 where
    keeps : r.0 ≡ ok pending → r.1.waker ≡ some cx

  settle-KeepsWaker :
      (cx : f.Waker) (r : Outcome Error InboundTransportEvent × NymTransport)
      (rest : NymTransport → Polled)
      → KeepsWaker cx (rest r.1)
      → KeepsWaker cx (settle r rest)
  settle-KeepsWaker cx (ok (connection_requested u), t) rest h = record {
    keeps = λ x. absurd (cc x);
  }
  settle-KeepsWaker cx (ok connection_responded, t) rest h = h
  settle-KeepsWaker cx (ok message_handled, t) rest h = h
  settle-KeepsWaker cx (err e, t) rest h = record { keeps = λ x. absurd (cc x) }
  settle-KeepsWaker cx (panic, t) rest h = record { keeps = λ x. absurd (cc x) }
  settle-KeepsWaker cx (stuck, t) rest h = record { keeps = λ x. absurd (cc x) }

  poll_loop-KeepsWaker :
      (fuel : ℕ) (cx : f.Waker) (t : NymTransport) → KeepsWaker cx (poll_loop fuel cx t)
  unfolding poll_loop
  poll_loop-KeepsWaker zero cx t = record { keeps = λ x. absurd (cc x) }
  poll_loop-KeepsWaker (suc fuel) cx t = elim (Poll-cases (c.poll_recv t.inbound_stream).0) [
    | inl (msg, e) ↦
        rw (poll_loop, e)
          (settle-KeepsWaker cx (handle_inbound msg.message (received t)) _
            (poll_loop-KeepsWaker fuel cx _))
    | inr (inl e) ↦ rw (poll_loop, e) (record { keeps = λ _. refl })
    | inr (inr e) ↦ rw (poll_loop, e) (record { keeps = λ _. refl })
  ]

  poll-KeepsWaker : (cx : f.Waker) (t : NymTransport) → KeepsWaker cx (poll cx t)
  unfolding poll
  poll-KeepsWaker cx t = elim (Poll-cases (c.poll_recv t.poll_chan).0) [
    | inl (event, e) ↦ rw (poll, e) (record { keeps = λ x. absurd (cc x) })
    | inr (inl e) ↦ rw (poll, e) (poll_loop-KeepsWaker _ cx _)
    | inr (inr e) ↦ rw (poll, e) (poll_loop-KeepsWaker _ cx _)
  ]

  -- When the poll of a transport is pending, the waker of the caller is kept, also when a handler has
  -- taken the one from before; so the transport's methods that wake find it.
  pub transport_poll-keeps_waker :
      (cx : f.Waker) (t : NymTransport) → (poll cx t).0 ≡ ok pending → (poll cx t).1.waker ≡ some cx
  transport_poll-keeps_waker cx t = (poll-KeepsWaker cx t).keeps

  -- The transport with an event taken, or not, and a message taken off the stream.
  abbrev taken : NymTransport → NymTransport
  taken t = received (record t { poll_chan = (c.poll_recv t.poll_chan).1 })

  -- No event waits.
  abbrev pub IsQuiet : NymTransport → Type 0
  IsQuiet t = (event : TransportEvent) → (c.poll_recv t.poll_chan).0 ≢ ready (some event)

  -- With no event, `poll` takes the first message.
  poll_message :
      (cx : f.Waker) (t : NymTransport) (msg : InboundMessage)
      → IsQuiet t
      → (c.poll_recv t.inbound_stream).0 ≡ ready (some msg)
      → poll cx t
        ≡ settle
            (handle_inbound msg.message (taken t))
            λ t'. poll_loop (length (c.contents t.inbound_stream)) cx t'
  unfolding poll poll_loop
  poll_message cx t msg quiet next = elim (Poll-cases (c.poll_recv t.poll_chan).0) [
    | inl (event, e) ↦ absurd (quiet event e)
    | inr (inl e) ↦ rw (poll, e) (rw (poll_loop, next) refl)
    | inr (inr e) ↦ rw (poll, e) (rw (poll_loop, next) refl)
  ]

  module _ (laws : ChannelLaws) where
    abbrev output : ConnectionMessage → Connection → f.PeerId × Connection
    output msg conn = (msg.peer_id, conn)

    abbrev upgrade_of : ConnectionMessage → Connection → Upgrade
    upgrade_of msg conn = record { connection_tx = c.sent_into (output msg conn) c.oneshot_channel }

    -- The event of a request, by what the transport keeps of its listener.
    abbrev incoming_event : Fixed → Upgrade → Outcome Error (Poll TransportEvent)
    incoming_event (_, _, listen_addr, listener_id, _) u =
        ok (ready (incoming listener_id u listen_addr listen_addr))

    accepted_lem :
        (msg : ConnectionMessage) (conn : Connection) (t : NymTransport)
        → (handle_connection_request msg t).0 ≡ ok conn
        → handle_inbound (connection_request msg) t
          ≡ (ok (connection_requested (upgrade_of msg conn)), (handle_connection_request msg t).1)
    unfolding handle_inbound upgrade
    accepted_lem msg conn t e =
        rw (handle_inbound, e) (rw (upgrade, laws.oneshot_open (output msg conn)) refl)

    -- No event waits, and the next inbound message is a request with a recipient, for an ID that is
    -- unused; and the mixnet's task is there. Then the poll reports an incoming connection on the
    -- transport's listener, and its upgrade is ready at once, with the peer of the request and a
    -- connection to the recipient in it.
    pub poll-announces :
        (cx : f.Waker) (t : NymTransport) (msg : ConnectionMessage) (recipient : f.Recipient)
        → IsQuiet t
        → (c.poll_recv t.inbound_stream).0
          ≡ ready (some (record { message = connection_request msg }))
        → msg.recipient ≡ some recipient
        → IsUnused msg.id t
        → c.is_open t.outbound_tx ≡ true
        → (u : Upgrade) × ((poll cx t).0
            ≡ ok (ready (incoming t.listener_id u t.listen_addr t.listen_addr)))
          × (poll_upgrade u
              ≡ ready (
                  ok
                    (msg.peer_id, Connection.new msg.peer_id recipient msg.id c.unbounded_channel)))
    unfolding poll_upgrade
    poll-announces cx t msg recipient quiet next has unused opened =
        let (ch, accepted, _, _, _) =
          handle_connection_request-Serves laws msg recipient (taken t) has unused.connection
            unused.queue opened in
        let conn = Connection.new msg.peer_id recipient msg.id c.unbounded_channel in
        let handled = accepted_lem msg conn (taken t) accepted in
        let kept = handle_inbound-Steps (connection_request msg) (taken t) in
        (
          upgrade_of msg conn,
          rw (poll_message cx t (record { message = connection_request msg }) quiet next, handled)
              (ap (λ (p : Fixed). incoming_event p (upgrade_of msg conn))
                (ap (λ (p : Outcome Error InboundTransportEvent × NymTransport). fixed p.1)
                    (sym handled)
                  ∙ kept.same)),
          rw (poll_upgrade, laws.oneshot_arrives (output msg conn) c.oneshot_channel) refl,
        )
