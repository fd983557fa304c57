-- ===== src/Transport/Handshake.antt =====
-- src/transport.rs: a dial and its request, the response, and the connection that both sides have
-- then.
use rust_libp2p_nym.Prelude.{◌≡◌, refl, ap, ◌∙◌, true, [], ◌∷◌, ◌++◌, none, some, ok, length}
use rust_libp2p_nym.Prelude.HashMap
use rust_libp2p_nym.Foreign.{Foreign}
use rust_libp2p_nym.Channel.{Channels, ChannelLaws, ready}
use rust_libp2p_nym.Message.ConnectionMessage.{ConnectionMessage}
use rust_libp2p_nym.Message.ConnectionId.{ConnectionId, ConnectionId_key}
use rust_libp2p_nym.Message.SubstreamMessage.{SubstreamMessage}
use rust_libp2p_nym.Message.Wire.{connection_request, connection_response, OutboundMessage}
use rust_libp2p_nym.Queue.Delivery.{pop_all}
use rust_libp2p_nym.Connection
use rust_libp2p_nym.Connection.{Connection, PendingConnection}
use rust_libp2p_nym.Transport.State.{NymTransport, peer_id}
use rust_libp2p_nym.Transport.Handlers.{
  queue_of, resolve_dial, handle_connection_response, handle_connection_request, response_to,
}
use rust_libp2p_nym.Transport.Dialing.{
  multiaddress_to_nym_address, Dial, dial, start_dial, finish_dial, resolved,
}
use rust_libp2p_nym.Transport.Branches.{undialled, response_lem}
use rust_libp2p_nym.Transport.Forwarding.{Forwarded}
use rust_libp2p_nym.Transport.Delivery.{Serves}
use rust_libp2p_nym.Transport.Establishment.{
  expecting_first, initiation_of_insert, handle_connection_request-Serves,
}

module _ ⦃f : Foreign⦄ ⦃c : Channels⦄ where
  -- The ID is not connected, and its queue has not seen a connection message.
  pub record IsUnused (id : ConnectionId) (t : NymTransport) : Type 0 where
    pub connection : HashMap.get id t.connections ≡ none
    pub queue : (queue_of (HashMap.get id t.message_queues)).next_expected_nonce ≡ 0

  -- From `t` to `t'` the connection has been established: its queue expects the first nonce that has
  -- not come yet, and its channel is open and holds the payloads of what had come too early, in
  -- order.
  pub record Establishes (id : ConnectionId) (t t' : NymTransport) (ch : c.Chan SubstreamMessage)
      : Type 0 where
    pub serves :
        let q = queue_of (HashMap.get id t.message_queues) in
        Serves t' id ch (pop_all (length q.queue) (expecting_first q)).1
    pub released :
        let q = queue_of (HashMap.get id t.message_queues) in
        Forwarded c.unbounded_channel ch (pop_all (length q.queue) (expecting_first q)).0

  -- The connection that the dialer gets.
  abbrev pub dialled_connection : ConnectionMessage → PendingConnection Connection → Connection
  dialled_connection msg dial =
      Connection.new msg.peer_id dial.remote_recipient msg.id c.unbounded_channel

  -- The future of the dial `id` gets the connection: its channel yields it, and the dial then finishes
  -- with the connection and its peer.
  pub record Receives (id : ConnectionId) (conn : Connection) (t : NymTransport) : Type 0 where
    pub receiver : c.Oneshot Connection
    pub stored : HashMap.get id t.dialled ≡ some receiver
    pub arrived : c.poll_oneshot receiver ≡ ready (some conn)
    pub finished : finish_dial (resolved conn) ≡ ok (conn.peer_id, conn)

  module _ (laws : ChannelLaws) where
    -- A response arrives for a dial that is pending, for an ID that is unused, and the dialer still
    -- waits. Then the connection is established, the dial is no longer pending, the waker is taken,
    -- and a poll of the dialer's receiver gives the connection to the address that was dialled, with
    -- the peer and the ID of the response.
    pub handle_connection_response-Establishes :
        (msg : ConnectionMessage) (dial : PendingConnection Connection) (t : NymTransport)
        → IsUnused msg.id t
        → HashMap.get msg.id t.pending_dials ≡ some dial
        → c.oneshot_send (dialled_connection msg dial) dial.connection_tx ≡ true
        → let r = handle_connection_response msg t in
          (ch : c.Chan SubstreamMessage) × (r.0 ≡ ok tt)
          × Establishes msg.id t r.1 ch
          × (HashMap.get msg.id r.1.pending_dials ≡ none)
          × (r.1.waker ≡ none)
          × Receives msg.id (dialled_connection msg dial) r.1
    unfolding resolve_dial
    handle_connection_response-Establishes msg dial t unused pending waits =
        let (ch, done, s, _, _, dials, w) =
          initiation_of_insert laws msg.id (undialled msg t) unused.queue in
        rw (response_lem msg dial t unused.connection pending, resolve_dial, done)
          (rw waits (
            ch,
            refl,
            record {
              serves = record { connection = s.connection; opened = s.opened; queue = s.queue };
              released = w;
            },
            ap (HashMap.get msg.id) dials ∙ HashMap.get-remove_self msg.id t.pending_dials,
            refl,
            record {
              receiver = c.sent_into (dialled_connection msg dial) dial.connection_tx;
              stored = HashMap.get-insert_self msg.id _ _;
              arrived = laws.oneshot_arrives _ _;
              finished = unfold finish_dial in refl;
            },
          ))

    abbrev pending_dial : f.Recipient → PendingConnection Connection
    pending_dial recipient = record {
      remote_recipient = recipient;
      connection_tx = c.oneshot_channel;
    }

    abbrev request_of : ConnectionId → f.Recipient → NymTransport → Dial
    request_of id recipient t = record {
      message = record { peer_id = peer_id t; recipient = some t.self_address; id = id };
      recipient = recipient;
      connection_rx = c.oneshot_channel;
      handshake_timeout = t.handshake_timeout;
    }

    abbrev dialling : ConnectionId → f.Recipient → NymTransport → NymTransport
    dialling id recipient t = record t {
      pending_dials = HashMap.insert id (pending_dial recipient) t.pending_dials;
    }

    dial_lem :
        (id : ConnectionId) (address : f.Multiaddr) (recipient : f.Recipient) (t : NymTransport)
        → multiaddress_to_nym_address address ≡ ok recipient
        → dial id address t ≡ (ok (request_of id recipient t), dialling id recipient t)
    unfolding dial
    dial_lem id address recipient t e = rw (dial, e) refl

    -- `a` dials an address of the Nym network under an ID that is unused on both sides, both can
    -- reach the mixnet, the request that the dial sends reaches `b` as it is, and `b`'s response
    -- `a`, before either does anything else. Then the request goes to the address that was dialled;
    -- `b` accepts it, with a connection to `a`'s address and peer, and sends its response to `a`'s
    -- address; `a` takes the response, and its dial finishes with `b`'s peer and with a connection to
    -- the address that was dialled; and the connection is established on both sides.
    pub dial_connects_both :
        (id : ConnectionId) (address : f.Multiaddr) (recipient : f.Recipient) (a b : NymTransport)
        → multiaddress_to_nym_address address ≡ ok recipient
        → IsUnused id a
        → IsUnused id b
        → c.is_open a.outbound_tx ≡ true
        → c.is_open b.outbound_tx ≡ true
        → let d = dial id address a in
          (request : Dial) × (d.0 ≡ ok request)
          × ((out : c.Chan OutboundMessage) × (start_dial request a.outbound_tx ≡ ok out)
              × (c.contents out
                  ≡ c.contents a.outbound_tx
                    ++ record {
                      message = connection_request request.message;
                      recipient = recipient;
                    }
                      ∷ []))
          × (let r = handle_connection_request request.message b in
              (ch : c.Chan SubstreamMessage) × (r.0
                ≡ ok (Connection.new (peer_id a) a.self_address id c.unbounded_channel))
              × Establishes id b r.1 ch
              × (c.contents r.1.outbound_tx
                  ≡ c.contents b.outbound_tx
                    ++ record {
                      message = connection_response (response_to request.message b);
                      recipient = a.self_address;
                    }
                      ∷ []))
          × (let s = handle_connection_response (response_to request.message b) d.1 in
              (ch : c.Chan SubstreamMessage) × (s.0 ≡ ok tt)
              × Establishes id a s.1 ch
              × (HashMap.get id s.1.pending_dials ≡ none)
              × Receives id (Connection.new (peer_id b) recipient id c.unbounded_channel) s.1)
    unfolding start_dial
    dial_connects_both id address recipient a b e unused unused' o o' =
        let request = request_of id recipient a in
        let sent : OutboundMessage = record {
          message = connection_request request.message;
          recipient = recipient;
        } in
        let (out, goes, holds, _) = laws.send_open sent a.outbound_tx o in
        let (ch, accepted, serves, released, responded) =
          handle_connection_request-Serves laws request.message a.self_address b refl
            unused'.connection unused'.queue o' in
        let (ch', taken, established, ended, _, receives) =
          handle_connection_response-Establishes (response_to request.message b)
            (pending_dial recipient) (dialling id recipient a)
            (record { connection = unused.connection; queue = unused.queue })
            (HashMap.get-insert_self id (pending_dial recipient) a.pending_dials)
            (laws.oneshot_open _) in
        rw (dial_lem id address recipient a e) (
          request,
          refl,
          (out, rw (start_dial, goes) refl, holds),
          (ch, accepted, record { serves = serves; released = released }, responded),
          (
            ch',
            taken,
            record { serves = established.serves; released = established.released },
            ended,
            receives,
          ),
        )
