-- ===== src/Transport/Serving.antt =====
-- src/transport.rs, `handle_inbound`: what an established connection gets of one message.
use rust_libp2p_nym.Prelude.{
  ℕ, zero, suc, ◌≡◌, ◌≢◌, ◌⊎◌, refl, sym, ap, ◌∙◌, subst, true, false, List, [], ◌∷◌, ◌++◌,
  append-nil, append_assoc, map-append, Bool-cases, Option-cases, inl, inr, none, some, Outcome, ok,
  err, panic, stuck, length, if◌then◌else◌,
}
use rust_libp2p_nym.Prelude.HashMap
use rust_libp2p_nym.Prelude.Exec.{continue, pure}
use rust_libp2p_nym.Foreign.{Foreign}
use rust_libp2p_nym.Channel.{Channels, ChannelLaws, Poll-cases, ready, pending}
use rust_libp2p_nym.Error.{Error}
use rust_libp2p_nym.Message.SubstreamMessage.{SubstreamMessage}
use rust_libp2p_nym.Message.TransportMessage.{TransportMessage}
use rust_libp2p_nym.Message.ConnectionMessage.{ConnectionMessage}
use rust_libp2p_nym.Message.ConnectionId
use rust_libp2p_nym.Message.ConnectionId.{ConnectionId, ConnectionId_key}
use rust_libp2p_nym.Message.Wire.{
  Message, InboundMessage, connection_request, connection_response, transport_message,
}
use rust_libp2p_nym.Queue.{MessageQueue}
use rust_libp2p_nym.Queue.Delivery.{receive, receive_all}
use rust_libp2p_nym.Transport.State.{
  NymTransport, InboundTransportEvent, connection_requested, connection_responded, message_handled,
}
use rust_libp2p_nym.Transport.Handlers.{handle_transport_message}
use rust_libp2p_nym.Transport.Forwarding.{Forwarded}
use rust_libp2p_nym.Transport.Delivery.{Serves, Serves-Untouched, handle_transport_message-Serves}
use rust_libp2p_nym.Transport.Isolation.{
  messages_for, messages_for_own, messages_for_other, own_first, Forwarded-trans,
}
use rust_libp2p_nym.Transport.Branches.{
  request_without_recipient, request_connected, response_connected,
}
use rust_libp2p_nym.Transport.Steps.{Fixed, fixed, handle_inbound-Steps}
use rust_libp2p_nym.Transport.Interleaving.{id_of, handle_inbound-Untouched}
use rust_libp2p_nym.Transport.Polling.{Polled, settle, received, handle_inbound, poll_loop, poll}
pub mod Polls
pub mod Life
pub mod Order

module _ ⦃f : Foreign⦄ where
  abbrev carried : Message → List TransportMessage
  carried (transport_message m) = m ∷ []
  carried (connection_request m) = []
  carried (connection_response m) = []

  -- The transport messages among inbound messages.
  abbrev pub transported : List InboundMessage → List TransportMessage
  transported [] = []
  transported (m ∷ ms) = carried m.message ++ transported ms

  -- Those of one connection.
  abbrev pub own : ConnectionId → List InboundMessage → List TransportMessage
  own id ms = messages_for id (transported ms)

module _ ⦃f : Foreign⦄ ⦃c : Channels⦄ where
  -- From `t` to `t'` the messages `ms` are taken off the stream, and the connection `id` gets what
  -- its own among them release.
  pub record Gets (id : ConnectionId) (ch : c.Chan SubstreamMessage) (q : MessageQueue)
      (t t' : NymTransport) : Type 0 where
    pub ms : List InboundMessage
    pub after : c.Chan SubstreamMessage
    pub consumed : c.contents t.inbound_stream ≡ ms ++ c.contents t'.inbound_stream
    pub serves : Serves t' id after (receive_all q (own id ms)).1
    pub forwarded : Forwarded ch after (receive_all q (own id ms)).0

  module _ (laws : ChannelLaws) (id : ConnectionId) where
    pub idle-Gets :
        (ch : c.Chan SubstreamMessage) (q : MessageQueue) (t t' : NymTransport)
        → Serves t' id ch q
        → c.contents t'.inbound_stream ≡ c.contents t.inbound_stream
        → Gets id ch q t t'
    unfolding receive_all messages_for
    idle-Gets ch q t t' s e = record {
      ms = [];
      after = ch;
      consumed = sym e;
      serves = s;
      forwarded = record { contents = sym (append-nil _); still_open = s.opened };
    }

    -- One message is handled: the connection has the channel `ch'` and the queue `q'` then, and what
    -- is received later comes behind what has been released.
    pub record Handled (m : InboundMessage) (ch : c.Chan SubstreamMessage) (q : MessageQueue)
        (t : NymTransport) : Type 0 where
      pub ch' : c.Chan SubstreamMessage
      pub q' : MessageQueue
      pub released : List TransportMessage
      pub serves : Serves t id ch' q'
      pub forwarded : Forwarded ch ch' released
      pub later :
          (ms : List InboundMessage)
          → receive_all q (own id (m ∷ ms))
            ≡ (released ++ (receive_all q' (own id ms)).0, (receive_all q' (own id ms)).1)

    unchanged :
        (m : InboundMessage) (ch : c.Chan SubstreamMessage) (q : MessageQueue) (t : NymTransport)
        → Serves t id ch q
        → ((ms : List InboundMessage) → own id (m ∷ ms) ≡ own id ms)
        → Handled m ch q t
    unchanged m ch q t s e = record {
      ch' = ch;
      q' = q;
      released = [];
      serves = s;
      forwarded = record { contents = sym (append-nil _); still_open = s.opened };
      later = λ ms. ap (receive_all q) (e ms);
    }

    request_refused :
        (msg : ConnectionMessage) (ch : c.Chan SubstreamMessage) (q : MessageQueue)
        (t : NymTransport)
        → msg.id ≡ id
        → Serves t id ch q
        → (handle_inbound (connection_request msg) t).1 ≡ t
    unfolding handle_inbound
    request_refused msg ch q t e s = elim (Option-cases msg.recipient) [
      | inl k ↦ rw (handle_inbound, request_without_recipient msg t k) refl
      | inr (recipient, k) ↦
          rw
            (
              handle_inbound,
              request_connected msg recipient t ch k
                  (ap (λ i. HashMap.get i t.connections) e ∙ s.connection),
            )
            refl
    ]

    response_refused :
        (msg : ConnectionMessage) (ch : c.Chan SubstreamMessage) (q : MessageQueue)
        (t : NymTransport)
        → msg.id ≡ id
        → Serves t id ch q
        → (handle_inbound (connection_response msg) t).1 ≡ t
    unfolding handle_inbound
    response_refused msg ch q t e s =
        rw
          (
            handle_inbound,
            response_connected msg t ch (ap (λ i. HashMap.get i t.connections) e ∙ s.connection),
          )
          refl

    own_other :
        (msg : Message) (ms : List InboundMessage)
        → ConnectionId.eq (id_of msg) id ≡ false
        → own id (record { message = msg } ∷ ms) ≡ own id ms
    own_other (connection_request msg) ms e = refl
    own_other (connection_response msg) ms e = refl
    own_other (transport_message msg) ms e = messages_for_other msg (transported ms) id e

    -- The event behind a handler is no change of the state.
    finished_state :
        {A B : Type 0} (r : Outcome Error A × NymTransport) (b : B)
        → (continue r λ _. pure b).1 ≡ r.1
    finished_state (ok a, t) b = refl
    finished_state (err e, t) b = refl
    finished_state (panic, t) b = refl
    finished_state (stuck, t) b = refl

    own-Handled :
        (msg : Message) (ch : c.Chan SubstreamMessage) (q : MessageQueue) (t : NymTransport)
        → ConnectionId.eq (id_of msg) id ≡ true
        → Serves t id ch q
        → Handled (record { message = msg }) ch q (handle_inbound msg t).1
    unfolding handle_inbound receive_all
    own-Handled (connection_request msg) ch q t e s =
        let same = request_refused msg ch q t ((ConnectionId.eq_iff msg.id id).0 e) s in
        unchanged _ ch q _ (subst (λ t'. Serves t' id ch q) (sym same) s) λ ms. refl
    own-Handled (connection_response msg) ch q t e s =
        let same = response_refused msg ch q t ((ConnectionId.eq_iff msg.id id).0 e) s in
        unchanged _ ch q _ (subst (λ t'. Serves t' id ch q) (sym same) s) λ ms. refl
    own-Handled (transport_message msg) ch q t e s =
        let (ch', s', w) = own_first laws id msg t ch q ((ConnectionId.eq_iff msg.id id).0 e) s in
        record {
          ch' = ch';
          q' = (receive q msg).1;
          released = (receive q msg).0;
          serves =
              subst (λ t'. Serves t' id ch' (receive q msg).1)
                (sym (finished_state (handle_transport_message msg t) message_handled)) s';
          forwarded = w;
          later = λ ms. rw (messages_for_own msg (transported ms) id e) refl;
        }

    pub handle_inbound-Handled :
        (msg : Message) (ch : c.Chan SubstreamMessage) (q : MessageQueue) (t : NymTransport)
        → Serves t id ch q
        → Handled (record { message = msg }) ch q (handle_inbound msg t).1
    handle_inbound-Handled msg ch q t s = elim (Bool-cases (ConnectionId.eq (id_of msg) id)) [
      | inl e ↦ own-Handled msg ch q t e s
      | inr e ↦
          unchanged _ ch q _
            (Serves-Untouched id t _ ch q
              (handle_inbound-Untouched id msg t
                λ same. absurd (cc (e, (ConnectionId.eq_iff (id_of msg) id).1 same)))
              s)
            λ ms. own_other msg ms e
    ]
