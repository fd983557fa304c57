-- ===== src/Tests/Transports.antt =====
-- The theorems on the transport, at two connections whose messages are interleaved.
use mathlib.Core.List.Perm
use mathlib.Core.List.{Perm as Permutation}
use rust_libp2p_nym.Prelude.{
  ◌≡◌, ◌≢◌, refl, ap, false, some, none, List, [], ◌∷◌, ◌++◌, length, ok, err, panic, arith,
}
use rust_libp2p_nym.Prelude.HashMap
use rust_libp2p_nym.Error.{Error}
use rust_libp2p_nym.Message.SubstreamMessage.{SubstreamMessage}
use rust_libp2p_nym.Message.ConnectionId
use rust_libp2p_nym.Message.ConnectionId.{ConnectionId_key}
use rust_libp2p_nym.Message.TransportMessage.{TransportMessage}
use rust_libp2p_nym.Message.Wire.{OutboundMessage, connection_response, transport_message}
use rust_libp2p_nym.Prelude.Bytes.{bytes_eq}
use rust_libp2p_nym.Transport.State.{NymTransport}
use rust_libp2p_nym.Queue.{MessageQueue}
use rust_libp2p_nym.Queue.Delivery.{receive_all, pop_all}
use rust_libp2p_nym.Connection
use rust_libp2p_nym.Connection.Sending.{transport_messages}
use rust_libp2p_nym.Transport.Handlers.{
  queue_of, handle_transport_message, handle_connection_request,
}
use rust_libp2p_nym.Transport.Forwarding.{Forwarded, payloads}
use rust_libp2p_nym.Transport.Delivery.{Serves, Untouched}
use rust_libp2p_nym.Transport.Polling.{handle_inbound}
use rust_libp2p_nym.Transport.Interleaving.{handle_inbound-Untouched}
use rust_libp2p_nym.Transport.Isolation.{messages_for, handle_all, handle_all-Serves}
use rust_libp2p_nym.Transport.Establishment.{expecting_first, handle_connection_request-Serves}
use rust_libp2p_nym.Transport.Lifetime.{connection_in_order}
use rust_libp2p_nym.Transport.EndToEnd.{sent_is_received}
use rust_libp2p_nym.Transport.Panics.{zero_nonce_panics}
use rust_libp2p_nym.Tests.World.{foreign, channels, channel_laws, Queued}
use rust_libp2p_nym.Tests.Data.{
  cid, other_cid, numbered, foreign_message, three, request, transport, connected, empty_link,
}
use rust_libp2p_nym.Tests.Runs.{after_write, run, few, opening, writing, sent_twice}

-- The message that was sent last arrives first, before the request.
abbrev early : List TransportMessage
early = foreign_message ∷ writing ∷ []

abbrev late : List TransportMessage
late = opening ∷ foreign_message ∷ []

overtaken :
    Permutation
      (transport_messages (channels.contents after_write.outbound_tx))
      (messages_for cid early ++ messages_for cid late)
unfolding messages_for ConnectionId.eq bytes_eq
overtaken = rw sent_twice (Perm.swap writing opening [])

sent_is_received_example :
    let r = handle_connection_request request (handle_all early transport) in
    (ch : Queued SubstreamMessage) × (r.0 ≡ ok (Connection.new 7 5 cid channels.unbounded_channel))
    × (HashMap.get cid (handle_all late r.1).connections ≡ some ch)
    × (ch.items ≡ payloads (transport_messages (channels.contents after_write.outbound_tx)))
sent_is_received_example =
    sent_is_received channel_laws empty_link after_write request 5 transport early late run refl
      refl refl few overtaken refl (HashMap.get-new cid) (HashMap.get-new cid) refl

three_overtaken : Permutation three (
    messages_for cid (numbered 2 ∷ foreign_message ∷ [])
    ++ messages_for cid (numbered 1 ∷ foreign_message ∷ numbered 3 ∷ []))
unfolding messages_for ConnectionId.eq bytes_eq
three_overtaken = Perm.swap (numbered 2) (numbered 1) (numbered 3 ∷ [])

connection_in_order_example :
    let r =
      handle_connection_request request
        (handle_all (numbered 2 ∷ foreign_message ∷ []) transport) in
    (ch : Queued SubstreamMessage) × (r.0 ≡ ok (Connection.new 7 5 cid channels.unbounded_channel))
    × (HashMap.get cid (handle_all (numbered 1 ∷ foreign_message ∷ numbered 3 ∷ []) r.1).connections
        ≡ some ch)
    × (ch.items ≡ payloads three)
connection_in_order_example =
    connection_in_order channel_laws request 5 transport three (numbered 2 ∷ foreign_message ∷ [])
      (numbered 1 ∷ foreign_message ∷ numbered 3 ∷ []) refl (HashMap.get-new cid)
      (HashMap.get-new cid) refl (refl, (refl, (refl, tt)))
      (omega arith, (omega arith, (omega arith, tt))) three_overtaken

abbrev opened_queue : MessageQueue
opened_queue = record { next_expected_nonce = 1; queue = [] }

established : Serves connected cid channels.unbounded_channel opened_queue
established = record {
  connection = HashMap.get-insert_self cid channels.unbounded_channel HashMap.new;
  opened = refl;
  queue = ap queue_of (HashMap.get-insert_self cid opened_queue HashMap.new);
}

abbrev interleaved : List TransportMessage
interleaved = numbered 2 ∷ foreign_message ∷ numbered 1 ∷ numbered 2 ∷ []

handle_all-Serves_example :
    (ch' : Queued SubstreamMessage) × Serves
      (handle_all interleaved connected)
      cid
      ch'
      (receive_all opened_queue (messages_for cid interleaved)).1
    × Forwarded channels.unbounded_channel ch'
        (receive_all opened_queue (messages_for cid interleaved)).0
handle_all-Serves_example =
    handle_all-Serves channel_laws cid interleaved connected channels.unbounded_channel opened_queue
      established

different : other_cid ≢ cid
different e =
    absurd (
      cc
        (ap (ConnectionId.eq other_cid) e, clash, (ConnectionId.eq_iff other_cid other_cid).1 refl))
  where
    clash : ConnectionId.eq other_cid cid ≡ false
    clash = unfold ConnectionId.eq bytes_eq in refl

handle_inbound-Untouched_example :
    Untouched cid connected (handle_inbound (transport_message foreign_message) connected).1
handle_inbound-Untouched_example =
    handle_inbound-Untouched cid (transport_message foreign_message) connected different

-- The first message has come before the request.
abbrev waiting_queue : MessageQueue
waiting_queue = record { next_expected_nonce = 0; queue = numbered 1 ∷ [] }

abbrev waiting : NymTransport
waiting = record transport { message_queues = HashMap.insert cid waiting_queue HashMap.new }

queue_waits : queue_of (HashMap.get cid waiting.message_queues) ≡ waiting_queue
queue_waits = ap queue_of (HashMap.get-insert_self cid waiting_queue HashMap.new)

abbrev accepted : OutboundMessage
accepted = record {
  message = connection_response (record { peer_id = 9; recipient = none; id = cid });
  recipient = 5;
}

handle_connection_request-Serves_example :
    let q = queue_of (HashMap.get cid waiting.message_queues) in
    let popped = pop_all (length q.queue) (expecting_first q) in
    let r = handle_connection_request request waiting in
    (ch : Queued SubstreamMessage) × (r.0 ≡ ok (Connection.new 7 5 cid channels.unbounded_channel))
    × Serves r.1 cid ch popped.1
    × Forwarded channels.unbounded_channel ch popped.0
    × (r.1.outbound_tx.items ≡ accepted ∷ [])
handle_connection_request-Serves_example =
    handle_connection_request-Serves channel_laws request 5 waiting refl (HashMap.get-new cid)
      (ap (λ (q : MessageQueue). q.next_expected_nonce) queue_waits) refl

zero_nonce_panics_example :
    ((handle_transport_message (numbered 0) transport).0
      ≡ err Error.no_connection_for_transport_message)
    × ((handle_connection_request request (handle_transport_message (numbered 0) transport).1).0
        ≡ panic)
zero_nonce_panics_example =
    zero_nonce_panics (numbered 0) request 5 transport refl refl refl (HashMap.get-new cid)
      (HashMap.get-new cid)
