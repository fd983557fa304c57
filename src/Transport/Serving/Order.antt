-- ===== src/Transport/Serving/Order.antt =====
-- src/transport.rs: a connection from its handshake on, over any number of polls.
use mathlib.Core.List.{Perm}
use rust_libp2p_nym.Prelude.{
  ◌≡◌, sym, ap, ◌∙◌, subst, List, [], ◌++◌, append-nil, All, map-append, some, length,
}
use rust_libp2p_nym.Prelude.HashMap
use rust_libp2p_nym.Foreign.{Foreign}
use rust_libp2p_nym.Channel.{Channels, ChannelLaws}
use rust_libp2p_nym.Message.SubstreamMessage.{SubstreamMessage}
use rust_libp2p_nym.Message.TransportMessage.{TransportMessage}
use rust_libp2p_nym.Message.ConnectionId.{ConnectionId, ConnectionId_key}
use rust_libp2p_nym.Message.Wire.{InboundMessage}
use rust_libp2p_nym.Queue
use rust_libp2p_nym.Queue.{MessageQueue}
use rust_libp2p_nym.Queue.Delivery.{receive_all, pop_all, IsSmall}
use rust_libp2p_nym.Queue.Order.{Consecutive}
use rust_libp2p_nym.Transport.State.{NymTransport}
use rust_libp2p_nym.Transport.Handlers.{queue_of}
use rust_libp2p_nym.Transport.Forwarding.{Forwarded, payloads}
use rust_libp2p_nym.Transport.Delivery.{Serves}
use rust_libp2p_nym.Transport.Establishment.{expecting_first}
use rust_libp2p_nym.Transport.Stages.{stages_in_order}
use rust_libp2p_nym.Transport.Handshake.{Establishes}
use rust_libp2p_nym.Transport.Serving.{own}
use rust_libp2p_nym.Transport.Serving.Life.{Life, Life-GetsInOrder}

-- What the queue releases at the handshake, if it has received `before`.
abbrev released : List TransportMessage → List TransportMessage × MessageQueue
released before =
    let held = (receive_all Queue.new before).1 in
    pop_all (length held.queue) (expecting_first held)

module _ ⦃f : Foreign⦄ ⦃c : Channels⦄ where
  -- What had come before the handshake, and what the transport has taken or been sent since.
  abbrev pub since : ConnectionId → NymTransport → List InboundMessage → List TransportMessage
  since id t arrived = own id (c.contents t.inbound_stream ++ arrived)

  module _ (laws : ChannelLaws) where
    -- A peer sent messages of the connection `id` with the nonces 1, 2, 3 and so on, none of them
    -- 2^64 - 1. The mixnet delivers each once, in any order: those in `before` had been received
    -- when the handshake established the connection, the others wait in the stream then or arrive
    -- later. Since then the transport has been polled, has dialled and has removed listeners any
    -- number of times, with any messages, requests and responses of other connections, until nothing
    -- waited in the stream. Then the connection is there, and its channel holds what was sent, all
    -- of it and in the order of sending.
    pub polls-in_order :
        (id : ConnectionId) (before sent : List TransportMessage) (t₀ t t' : NymTransport)
        (ch : c.Chan SubstreamMessage) (arrived : List InboundMessage)
        → queue_of (HashMap.get id t₀.message_queues) ≡ (receive_all Queue.new before).1
        → Establishes id t₀ t ch
        → Life arrived t t'
        → c.contents t'.inbound_stream ≡ []
        → Consecutive 1 sent
        → All IsSmall sent
        → Perm sent (before ++ since id t arrived)
        → (ch' : c.Chan SubstreamMessage) × (HashMap.get id t'.connections ≡ some ch')
          × (c.contents ch' ≡ payloads sent)
    polls-in_order id before sent t₀ t t' ch arrived e est life through cons small p =
        let s : Serves t id ch (released before).1 =
          subst (λ q. Serves t id ch (pop_all (length q.queue) (expecting_first q)).1) e
            est.serves in
        let w : Forwarded c.unbounded_channel ch (released before).0 =
          subst
            (λ q. Forwarded c.unbounded_channel ch (pop_all (length q.queue) (expecting_first q)).0)
            e est.released in
        let g = Life-GetsInOrder laws id arrived t t' ch (released before).1 life s in
        let all : c.contents t.inbound_stream ++ arrived ≡ g.ms =
          g.consumed ∙ ap (λ xs. g.ms ++ xs) through ∙ append-nil g.ms in
        let whole =
          (stages_in_order sent before (own id g.ms) cons small
            (subst (λ ms. Perm sent (before ++ own id ms)) all p)).2 in
        (
          g.after,
          g.serves.connection,
          g.forwarded.contents
              ∙ ap (λ xs. xs ++ payloads (receive_all (released before).1 (own id g.ms)).0)
                  (w.contents ∙ ap (λ xs. xs ++ payloads (released before).0) laws.contents-new)
              ∙ sym (
                  map-append (λ m. m.message) (released before).0
                    (receive_all (released before).1 (own id g.ms)).0)
              ∙ ap payloads whole,
        )
