-- ===== src/Tests/Whole.antt =====
-- The theorem on the whole program, at one message that is written to a substream.
use mathlib.Core.List.Perm
use rust_libp2p_nym.Prelude.{true, ◌≡◌, refl, sym, ap, ◌∙◌, [], ◌∷◌, some, length, arith}
use rust_libp2p_nym.Prelude.HashMap
use rust_libp2p_nym.Prelude.Bytes.{bytes_eq}
use rust_libp2p_nym.Message.ConnectionId
use rust_libp2p_nym.Message.ConnectionId.{ConnectionId_key}
use rust_libp2p_nym.Message.SubstreamMessage.{SubstreamMessage}
use rust_libp2p_nym.Queue
use rust_libp2p_nym.Queue.{MessageQueue, try_push, pop}
use rust_libp2p_nym.Queue.Set
use rust_libp2p_nym.Queue.Delivery.{pop_all, receive_all}
use rust_libp2p_nym.Substream.{Link, poll_write, check_closed, transmit}
use rust_libp2p_nym.Connection.Sending.{Reaches, Step, transport_messages}
use rust_libp2p_nym.Mixnet.{check_outbound}
use rust_libp2p_nym.Mixnet.EndToEnd.{as_inbound}
use rust_libp2p_nym.Mixnet.{Task}
use rust_libp2p_nym.Transport.State.{NymTransport}
use rust_libp2p_nym.Transport.Opening.{drain, forward_queued}
use rust_libp2p_nym.Transport.Handlers.{queue_of, forward, handle_transport_message}
use rust_libp2p_nym.Transport.Polling.{poll, poll_loop, handle_inbound}
use rust_libp2p_nym.Transport.Forwarding.{payloads}
use rust_libp2p_nym.Transport.Delivery.{Serves}
use rust_libp2p_nym.Transport.Handshake.{Establishes}
use rust_libp2p_nym.Transport.Isolation.{messages_for}
use rust_libp2p_nym.Transport.Serving.Life.{Life}
use rust_libp2p_nym.Transport.Serving.Order.{polls-in_order}
use rust_libp2p_nym.EndToEnd.{Sends, Receives, sent_arrives_in_order}
use rust_libp2p_nym.Tests.World.{foreign, channels, codec_laws, channel_laws, Queued}
use rust_libp2p_nym.Tests.Mixnets.{
  websocket, websocket_laws, first, fresh-IsHeard, sending, sent_out, readable, arriving, got_lem,
  taking, brought,
}
use rust_libp2p_nym.Tests.Data.{cid, numbered, stream, empty_link, transport, connected}

abbrev after_write : Link
after_write = (poll_write stream (1 ∷ []) empty_link).link

written : channels.contents after_write.outbound_tx ≡ first ∷ []
unfolding poll_write check_closed transmit
written = refl

sends : Sends cid (first ∷ []) (numbered 1 ∷ [])
unfolding messages_for ConnectionId.eq bytes_eq
sends = record {
  first = empty_link;
  last = after_write;
  reaches = Reaches.step (Step.wrote stream (1 ∷ []) empty_link) (Reaches.done after_write);
  numbered = refl;
  opened = refl;
  empty = refl;
  few = omega (arith, ap length written);
  all = ap transport_messages (sym written);
  own_posted = refl;
}

-- The connection has been established, and its message comes and is polled.
abbrev waiting : NymTransport
waiting = record connected {
  inbound_stream = record { items = as_inbound first ∷ []; has_receiver = true };
}

polled_empty : (poll tt waiting).1.inbound_stream.items ≡ []
unfolding poll poll_loop handle_inbound handle_transport_message forward drain forward_queued
    try_push pop HashMap.get HashMap.insert HashMap.new ConnectionId.eq bytes_eq Queue.Set.insert
polled_empty = refl

opened_queue : queue_of (HashMap.get cid transport.message_queues) ≡ Queue.new
opened_queue = ap queue_of (HashMap.get-new cid)

abbrev expecting : MessageQueue
expecting = record { next_expected_nonce = 1; queue = [] }

served : Serves connected cid channels.unbounded_channel expecting
served = record {
  connection = HashMap.get-insert_self cid channels.unbounded_channel HashMap.new;
  opened = refl;
  queue = ap queue_of (HashMap.get-insert_self cid expecting HashMap.new);
}

established : Establishes cid transport connected channels.unbounded_channel
established = record {
  serves = rw opened_queue (unfold pop_all in served);
  released = rw opened_queue (unfold pop_all in record { contents = refl; still_open = refl });
}

life : Life (as_inbound first ∷ []) connected (poll tt waiting).1
life =
    Life.polled tt
      (Life.sent (as_inbound first) waiting.inbound_stream (Life.begins connected) refl)

receives : Receives cid (as_inbound first ∷ []) (poll tt waiting).1
receives = record {
  before = transport;
  established = connected;
  channel = channels.unbounded_channel;
  fresh = opened_queue;
  handshake = established;
  nothing_waits = refl;
  life = life;
  all_polled = polled_empty;
}

sent_arrives_in_order_example :
    (ch : Queued SubstreamMessage) × (HashMap.get cid (poll tt waiting).1.connections ≡ some ch)
    × (ch.items ≡ payloads (numbered 1 ∷ []))
sent_arrives_in_order_example =
    sent_arrives_in_order codec_laws channel_laws websocket_laws cid (numbered 1 ∷ [])
      (poll tt waiting).1 sends sending
      (record { inbound = refl; outbound = refl; heard = fresh-IsHeard [] })
      (unfold check_outbound in refl) (readable, tt) (λ ms e. brought ms (sym sent_out ∙ e)) taking
      (record { inbound = refl; outbound = refl; heard = fresh-IsHeard arriving })
      (record { inbound = refl; incoming = ap (λ (t : Task). t.socket.frames) got_lem }) receives

polls-in_order_example :
    (ch : Queued SubstreamMessage) × (HashMap.get cid (poll tt waiting).1.connections ≡ some ch)
    × (ch.items ≡ payloads (numbered 1 ∷ []))
polls-in_order_example =
    polls-in_order channel_laws cid [] (numbered 1 ∷ []) transport connected (poll tt waiting).1
      channels.unbounded_channel (as_inbound first ∷ []) (unfold receive_all in opened_queue)
      established life polled_empty (refl, tt) (omega arith, tt)
      (unfold messages_for ConnectionId.eq bytes_eq in Perm.refl (numbered 1 ∷ []))
