-- ===== src/Transport/Lifetime.antt =====
-- src/transport.rs: a connection from its first message on, among the messages of other connections.
use mathlib.Core.List.{Perm}
use rust_libp2p_nym.Prelude.{
  ◌≡◌, ap, ◌∙◌, true, List, [], ◌++◌, All, length, map-append, ok, none, some,
}
use rust_libp2p_nym.Prelude.HashMap
use rust_libp2p_nym.Foreign.{Foreign}
use rust_libp2p_nym.Channel.{Channels, ChannelLaws}
use rust_libp2p_nym.Message.SubstreamMessage.{SubstreamMessage}
use rust_libp2p_nym.Message.TransportMessage.{TransportMessage}
use rust_libp2p_nym.Message.ConnectionMessage.{ConnectionMessage}
use rust_libp2p_nym.Message.ConnectionId.{ConnectionId_key}
use rust_libp2p_nym.Queue
use rust_libp2p_nym.Queue.{MessageQueue, try_push}
use rust_libp2p_nym.Queue.Delivery.{receive_all, IsSmall, pop_all}
use rust_libp2p_nym.Queue.Order.{Consecutive}
use rust_libp2p_nym.Connection
use rust_libp2p_nym.Transport.State.{NymTransport}
use rust_libp2p_nym.Transport.Handlers.{queue_of, handle_connection_request}
use rust_libp2p_nym.Transport.Forwarding.{Forwarded, payloads}
use rust_libp2p_nym.Transport.Isolation.{messages_for, handle_all, handle_all-Serves}
use rust_libp2p_nym.Transport.Establishment.{expecting_first, handle_connection_request-Serves}
use rust_libp2p_nym.Transport.Stages.{stages_in_order}
use rust_libp2p_nym.Transport.Waiting.{Awaits, handle_all-outbound_tx, handle_all-Awaits}

module _ ⦃f : Foreign⦄ ⦃c : Channels⦄ where
  contents-Forwarded :
      (ch ch' ch'' : c.Chan SubstreamMessage) (xs ys : List TransportMessage)
      → c.contents ch ≡ []
      → Forwarded ch ch' xs
      → Forwarded ch' ch'' ys
      → c.contents ch'' ≡ payloads (xs ++ ys)
  contents-Forwarded ch ch' ch'' xs ys e h k = rw (k.contents, h.contents, e, map-append)

  module _ (laws : ChannelLaws) where
    -- A peer sends messages on a connection with the nonces 1, 2, 3 and so on, none of them 2^64 -
    -- 1. The mixnet delivers each once, in any order, some before the connection request and some
    -- after it, with any messages of other connections in between. When the request arrives, it has
    -- a recipient, the id is new and the mixnet's task is there. Then the request is accepted, and
    -- in the end the connection's channel holds the payloads of all that was sent, in the order in
    -- which it was sent.
    pub connection_in_order :
        (msg : ConnectionMessage) (recipient : f.Recipient) (t : NymTransport)
        (sent before after : List TransportMessage)
        → msg.recipient ≡ some recipient
        → HashMap.get msg.id t.connections ≡ none
        → HashMap.get msg.id t.message_queues ≡ none
        → c.is_open t.outbound_tx ≡ true
        → Consecutive 1 sent
        → All IsSmall sent
        → Perm sent (messages_for msg.id before ++ messages_for msg.id after)
        → let r = handle_connection_request msg (handle_all before t) in
          (ch : c.Chan SubstreamMessage) × (r.0
            ≡ ok (Connection.new msg.peer_id recipient msg.id c.unbounded_channel))
          × (HashMap.get msg.id (handle_all after r.1).connections ≡ some ch)
          × (c.contents ch ≡ payloads sent)
    connection_in_order msg recipient t sent before after e k fresh o consecutive small p =
        let xs = messages_for msg.id before in
        let ys = messages_for msg.id after in
        let stages = stages_in_order sent xs ys consecutive small p in
        let waiting : Awaits (handle_all before t) msg.id (receive_all Queue.new xs).1 =
          handle_all-Awaits msg.id before t Queue.new
            (record { connection = k; queue = ap queue_of fresh }) stages.0 in
        let (ch, accepted, s, w, _) =
          handle_connection_request-Serves laws msg recipient (handle_all before t) e
            waiting.connection
            (ap (λ (q : MessageQueue). q.next_expected_nonce) waiting.queue ∙ stages.1)
            (ap c.is_open (handle_all-outbound_tx before t) ∙ o) in
        let (ch', s', w') =
          handle_all-Serves laws msg.id after
            (handle_connection_request msg (handle_all before t)).1 ch _ s in
        (
          ch',
          accepted,
          s'.connection,
          contents-Forwarded c.unbounded_channel ch ch' _ _ laws.contents-new w w'
              ∙ ap
                  (λ q.
                    let popped = pop_all (length q.queue) (expecting_first q) in
                    payloads (popped.0 ++ (receive_all popped.1 ys).0))
                  waiting.queue
              ∙ ap payloads stages.2,
        )
