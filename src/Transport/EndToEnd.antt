-- ===== src/Transport/EndToEnd.antt =====
-- src/connection.rs, src/substream.rs, src/queue.rs and src/transport.rs together: from what one
-- side of a connection does to what the other side's connection gets.
use mathlib.Core.List.{Perm}
use rust_libp2p_nym.Prelude.{
  ◌+◌, ◌^◌, ◌<◌, ◌≡◌, ap, ◌∙◌, true, List, [], ◌++◌, none, some, ok, length,
}
use rust_libp2p_nym.Prelude.HashMap
use rust_libp2p_nym.Foreign.{Foreign}
use rust_libp2p_nym.Channel.{Channels, ChannelLaws}
use rust_libp2p_nym.Message.SubstreamMessage.{SubstreamMessage}
use rust_libp2p_nym.Message.TransportMessage.{TransportMessage}
use rust_libp2p_nym.Message.ConnectionMessage.{ConnectionMessage}
use rust_libp2p_nym.Message.ConnectionId.{ConnectionId_key}
use rust_libp2p_nym.Substream.{Link}
use rust_libp2p_nym.Connection
use rust_libp2p_nym.Connection.{first_nonce}
use rust_libp2p_nym.Connection.Sending.{Reaches, transport_messages, Reaches-Consecutive}
use rust_libp2p_nym.Transport.State.{NymTransport}
use rust_libp2p_nym.Transport.Handlers.{handle_connection_request}
use rust_libp2p_nym.Transport.Forwarding.{payloads}
use rust_libp2p_nym.Transport.Isolation.{messages_for, handle_all}
use rust_libp2p_nym.Transport.Lifetime.{connection_in_order}

module _ ⦃f : Foreign⦄ ⦃c : Channels⦄ (laws : ChannelLaws) where
  -- One side of a connection begins with the nonce 1 and an open channel to the mixnet that is
  -- empty; its connection and substreams are polled, opened, written to and closed in any order,
  -- with fewer than 2^64 - 1 messages, and no substream is closed whose flag is set. The mixnet
  -- delivers each message once, in any order, to a transport that does not know the connection and
  -- that can reach the mixnet, some before the connection request, which has a recipient, and some
  -- after it, and with any messages of other connections in between. Then the request is accepted,
  -- and the connection's channel holds what was sent, in the order in which it was sent.
  pub sent_is_received :
      (l l' : Link) (msg : ConnectionMessage) (recipient : f.Recipient) (t : NymTransport)
      (before after : List TransportMessage)
      → Reaches l l'
      → l.message_nonce ≡ first_nonce
      → c.is_open l.outbound_tx ≡ true
      → c.contents l.outbound_tx ≡ []
      → length (c.contents l'.outbound_tx) + 1 < 2 ^ 64
      → Perm
          (transport_messages (c.contents l'.outbound_tx))
          (messages_for msg.id before ++ messages_for msg.id after)
      → msg.recipient ≡ some recipient
      → HashMap.get msg.id t.connections ≡ none
      → HashMap.get msg.id t.message_queues ≡ none
      → c.is_open t.outbound_tx ≡ true
      → let r = handle_connection_request msg (handle_all before t) in
        (ch : c.Chan SubstreamMessage) × (r.0
          ≡ ok (Connection.new msg.peer_id recipient msg.id c.unbounded_channel))
        × (HashMap.get msg.id (handle_all after r.1).connections ≡ some ch)
        × (c.contents ch ≡ payloads (transport_messages (c.contents l'.outbound_tx)))
  sent_is_received l l' msg recipient t before after r e o empty b p k absent fresh o' =
      let (ms, added, _, consecutive, small) = Reaches-Consecutive laws l l' r e o b in
      let whole = ap transport_messages (added ∙ ap (λ xs. xs ++ ms) empty) in
      connection_in_order laws msg recipient t (transport_messages (c.contents l'.outbound_tx))
        before after k absent fresh o' (rw whole consecutive) (rw whole small) p
