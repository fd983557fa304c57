-- ===== src/Tests/Mixnets.antt =====
-- The theorems on the mixnet's task, at a websocket that is two lists.
use mathlib.Core.List.{Permᴰ}
use rust_libp2p_nym.Prelude.{
  ℕ, Outcome, err, ◌≡◌, refl, sym, ◌∙◌, ap, inl, inr, ◌⊎◌, List, [], ◌∷◌, ◌++◌, map, Option, none,
  some, ok, arith, true, slice, slice_from, index, get_elem?, take, drop, copy_from_slice,
}
use rust_libp2p_nym.Prelude.Omits.{Omits}
use rust_libp2p_nym.Prelude.Bytes
use rust_libp2p_nym.Message.TransportMessage
use rust_libp2p_nym.Message.SubstreamMessage
use rust_libp2p_nym.Message.ConnectionId
use rust_libp2p_nym.Message.SubstreamId
use rust_libp2p_nym.Message.Wire
use rust_libp2p_nym.Message.Wire.{
  Message, transport_message, InboundMessage, OutboundMessage, parse_message_data,
}
use rust_libp2p_nym.Message.Encodable.{IsTransportMessage}
use rust_libp2p_nym.Mixnet.{
  Task, parse_nym_message, handle_inbound, send_inbound, notify, check_inbound, check_outbound,
  write_bytes,
}
use rust_libp2p_nym.Mixnet.Client.{
  WsMessage, text, binary, other_ws_message, ServerResponse, ClientRequest, Frame, Websocket,
  WebsocketLaws,
}
use rust_libp2p_nym.Error.{Error}
use rust_libp2p_nym.Mixnet.Address.{get_self_address}
use rust_libp2p_nym.Mixnet.Answer.{Answers, get_self_address-Answers}
use rust_libp2p_nym.Mixnet.Inbound.{decoded, IsHeard}
use rust_libp2p_nym.Mixnet.Run.{frame_of, recv, Turn, Run}
use rust_libp2p_nym.Mixnet.Turns.{outgoing}
use rust_libp2p_nym.Mixnet.Delivery.{Run-delivers, Run-sends}
use rust_libp2p_nym.Mixnet.EndToEnd.{as_inbound, AreConveyed, posted_messages_arrive}
use rust_libp2p_nym.Tests.World.{foreign, channels, codec_laws, channel_laws}
use rust_libp2p_nym.Tests.Data.{numbered}

pub record TwoLists : Type 0 where
  pub frames : List Frame
  pub out : List WsMessage

abbrev read_from : List Frame → List WsMessage → Option Frame × TwoLists
read_from [] out = (none, record { frames = []; out = out })
read_from (frame ∷ frames) out = (some frame, record { frames = frames; out = out })

abbrev address_or_bytes : List ℕ → ServerResponse ⊎ Unit {0}
address_or_bytes [] = inl (ServerResponse.self_address 4)
address_or_bytes (b ∷ bytes) = inl (ServerResponse.received (b ∷ bytes))

abbrev request_bytes : ClientRequest → List ℕ
request_bytes (ClientRequest.send recipient bytes lane) = bytes
request_bytes ClientRequest.self_address_request = []

-- A message, two bytes that are none, an answer to the request for the address, and a ping.
abbrev pub greeting : Message
greeting = transport_message (numbered 1)

abbrev pub noise : List Frame
noise =
    inl (binary (7 ∷ 7 ∷ []))
    ∷ inl (text "address")
    ∷ inl (binary (Wire.to_bytes greeting))
    ∷ inl other_ws_message
    ∷ []

instance abbrev pub websocket : Websocket
websocket = record {
  Socket = TwoLists;
  into_bytes = λ s. [];
  serialize = request_bytes;
  deserialize = address_or_bytes;
  connect_async = λ uri. inl (record { frames = noise; out = [] });
  next = λ s. read_from s.frames s.out;
  send_message = λ m s. (none, record s { out = s.out ++ m ∷ [] });
  drop_send = λ m s. s;
  incoming = λ s. s.frames;
  written = λ s. s.out;
}

next_frame_lem :
    (frames : List Frame) (out : List WsMessage) (frame : Frame) (rest : List Frame)
    → frames ≡ frame ∷ rest
    → ((read_from frames out).0 ≡ some frame) × ((read_from frames out).1.frames ≡ rest)
next_frame_lem [] out frame rest e = absurd (cc e)
next_frame_lem (x ∷ frames) out frame rest e = (cc e, cc e)

next_end_lem :
    (frames : List Frame) (out : List WsMessage)
    → frames ≡ []
    → ((read_from frames out).0 ≡ none) × ((read_from frames out).1.frames ≡ [])
next_end_lem [] out e = (refl, refl)
next_end_lem (x ∷ frames) out e = absurd (cc e)

next_written_lem : (frames : List Frame) (out : List WsMessage) → (read_from frames out).1.out ≡ out
next_written_lem [] out = refl
next_written_lem (x ∷ frames) out = refl

pub websocket_laws : WebsocketLaws
websocket_laws = record {
  next_frame = λ s frame frames e. next_frame_lem s.frames s.out frame frames e;
  next_end = λ s e. next_end_lem s.frames s.out e;
  next_written = λ s. next_written_lem s.frames s.out;
  send_written = λ m s e. refl;
  send_failed = λ m s. inr refl;
  send_incoming = λ m s. refl;
  drop_written = λ m s. inl refl;
  drop_incoming = λ m s. refl;
}

-- The result of the send of the request.
abbrev unfailing : Option foreign.WsError
unfailing = none

abbrev asked : Outcome Error ℕ × TwoLists
asked = get_self_address (record { frames = noise; out = [] })

get_self_address-Answers_example :
    ((e : foreign.WsError) × (unfailing ≡ some e)
      × (asked.0 ≡ err (Error.websocket_stream_error e)))
    ⊎ ((unfailing ≡ none) × Answers noise asked.0 asked.1.frames)
get_self_address-Answers_example =
    get_self_address-Answers websocket_laws (record { frames = noise; out = [] })

abbrev pub fresh : List Frame → Task
fresh frames = record {
  socket = record { frames = frames; out = [] };
  notify_inbound_tx = none;
  inbound_tx = channels.unbounded_channel;
  outbound_rx = channels.unbounded_channel;
}

pub fresh-IsHeard : (frames : List Frame) → IsHeard (fresh frames)
fresh-IsHeard frames = record { inbound = refl; notified = λ ch x. absurd (cc x) }

-- Two messages are posted; the send of the first is dropped, and the second is written.
abbrev pub first : OutboundMessage
first = record { message = transport_message (numbered 1); recipient = 5 }

abbrev second : OutboundMessage
second = record { message = transport_message (numbered 2); recipient = 5 }

abbrev posted : Task
posted = record (fresh noise) {
  outbound_rx = record { items = first ∷ second ∷ []; has_receiver = true };
}

abbrev dropped : Task
dropped =
    (check_inbound
      (record posted { outbound_rx = record { items = second ∷ []; has_receiver = true } })).1

lossy_run : Run 1 (first ∷ second ∷ []) [] (fresh noise) dropped
lossy_run =
    Run.turn
      (Run.post second posted.outbound_rx
        (Run.post first (record { items = first ∷ []; has_receiver = true })
          (Run.start (fresh noise)) refl)
        refl)
      (Turn.cancelled posted first refl)

Run-sends_example : Omits 1 (frame_of first ∷ frame_of second ∷ []) (outgoing dropped)
Run-sends_example = Run-sends channel_laws websocket_laws lossy_run (fresh-IsHeard noise)

Run-delivers_example :
    (frames : List Frame) × (noise ≡ frames ++ dropped.socket.frames)
    × ([] ++ dropped.inbound_tx.items ≡ [] ++ decoded frames)
Run-delivers_example = Run-delivers channel_laws websocket_laws lossy_run (fresh-IsHeard noise)

-- One message goes from one transport to another.
abbrev sender : Task
sender = record (fresh []) { outbound_rx = record { items = first ∷ []; has_receiver = true } }

abbrev pub sent : Task
sent = (check_outbound (some first) (recv sender)).1

pub sending : Run 0 (first ∷ []) [] (fresh []) sent
sending =
    Run.turn (Run.post first sender.outbound_rx (Run.start (fresh [])) refl)
      (Turn.wrote sender first refl (unfold check_outbound write_bytes in refl))

abbrev pub arriving : List Frame
arriving = inl (binary (Wire.to_bytes greeting)) ∷ []

abbrev got : Task
got = (check_inbound (fresh arriving)).1

pub readable : IsTransportMessage (numbered 1)
readable = record { nonce = omega arith; message = (refl, λ e. absurd (cc e)); id = refl }

pub got_lem : got ≡ record (fresh []) {
  inbound_tx = record { items = as_inbound first ∷ []; has_receiver = true };
}
unfolding check_inbound notify handle_inbound parse_nym_message send_inbound Wire.to_bytes
    TransportMessage.to_bytes parse_message_data Bytes.to_be_bytes SubstreamMessage.to_bytes
    Wire.try_from_bytes index get_elem? Wire.decode_body slice_from TransportMessage.try_from_bytes
    drop slice TransportMessage.decode_nonce take ConnectionId.from_bytes copy_from_slice
    SubstreamMessage.try_from_bytes SubstreamId.from_bytes SubstreamMessage.decode_type
    Bytes.from_be_bytes
got_lem = refl

abbrev pub emptied : Task
emptied = record got { inbound_tx = channels.unbounded_channel }

pub taking : Run 0 [] (as_inbound first ∷ []) (fresh arriving) emptied
taking =
    Run.take (as_inbound first) channels.unbounded_channel
      (Run.turn (Run.start (fresh arriving)) (Turn.inbound (fresh arriving)))
      (ap (λ (t : Task). channels.poll_recv t.inbound_tx) got_lem)

conveyed_bytes :
    (bytes : List ℕ)
    → Wire.to_bytes greeting ≡ bytes
    → parse_nym_message (binary (Wire.to_bytes greeting)) ≡ ok (ServerResponse.received bytes)
unfolding parse_nym_message Wire.to_bytes
conveyed_bytes bytes e = ap (λ b. ok (ServerResponse.received b)) e

-- The mixnet brings what was written.
pub brought :
    (ms : List OutboundMessage)
    → frame_of first ∷ [] ≡ map frame_of ms
    → (order : List OutboundMessage) × Permᴰ ms order × AreConveyed order arriving
brought [] e = absurd (cc e)
brought (m ∷ []) e =
    let bytes : Wire.to_bytes greeting ≡ Wire.to_bytes m.message = cc e in
    (m ∷ [], Permᴰ.cons refl Permᴰ.nil, (conveyed_bytes (Wire.to_bytes m.message) bytes, tt))
brought (m ∷ m' ∷ ms) e = absurd (cc e)

pub sent_out : sent.socket.out ≡ frame_of first ∷ []
sent_out = unfold check_outbound write_bytes in refl

posted_messages_arrive_example :
    (order : List OutboundMessage) × Permᴰ (first ∷ []) order
    × (as_inbound first ∷ [] ≡ map as_inbound order)
posted_messages_arrive_example =
    posted_messages_arrive channel_laws websocket_laws codec_laws sending taking
      (record { inbound = refl; outbound = refl; heard = fresh-IsHeard [] })
      (unfold check_outbound in refl)
      (record { inbound = refl; outbound = refl; heard = fresh-IsHeard arriving })
      (record { inbound = refl; incoming = ap (λ (t : Task). t.socket.frames) got_lem })
      (readable, tt) (λ ms e. brought ms (sym sent_out ∙ e))
