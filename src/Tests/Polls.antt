-- ===== src/Tests/Polls.antt =====
-- The theorems on the transport's polls, its creation and its handshake.
use rust_libp2p_nym.Prelude.{◌≡◌, ◌≢◌, refl, ap, true, List, [], ◌∷◌, none, some, inl, ok, stuck}
use rust_libp2p_nym.Prelude.HashMap
use rust_libp2p_nym.Channel.{ready}
use rust_libp2p_nym.Message.SubstreamMessage.{SubstreamMessage}
use rust_libp2p_nym.Message.ConnectionMessage.{ConnectionMessage}
use rust_libp2p_nym.Message.ConnectionId.{ConnectionId_key}
use rust_libp2p_nym.Message.Wire
use rust_libp2p_nym.Message.Wire.{
  InboundMessage, OutboundMessage, connection_request, connection_response, transport_message,
}
use rust_libp2p_nym.Connection
use rust_libp2p_nym.Connection.{PendingConnection, Connection}
use rust_libp2p_nym.Foreign.{nym}
use rust_libp2p_nym.Mixnet.{Task, parse_nym_message}
use rust_libp2p_nym.Mixnet.Client.{text, binary, other_ws_message}
use rust_libp2p_nym.Mixnet.Address.{read_frame}
use rust_libp2p_nym.Mixnet.EndToEnd.{IsFresh}
use rust_libp2p_nym.Transport.State.{NymTransport, Upgrade, incoming, poll_upgrade, new_address}
use rust_libp2p_nym.Transport.Polling.{poll, poll_loop}
use rust_libp2p_nym.Transport.Handlers.{
  handle_connection_request, handle_connection_response, queue_of, response_to,
}
use rust_libp2p_nym.Transport.Dialing
use rust_libp2p_nym.Transport.Dialing.{
  Dial, dial, start_dial, multiaddress_to_nym_address, nym_address_to_multiaddress,
}
use rust_libp2p_nym.Transport.Creation.{new_maybe_with_notify_inbound}
use rust_libp2p_nym.Transport.Termination.{transport_poll-terminates}
use rust_libp2p_nym.Transport.Startup.{IsNew, created_transport-IsNew}
use rust_libp2p_nym.Transport.Handshake.{
  IsUnused, Establishes, Receives, handle_connection_response-Establishes, dial_connects_both,
}
use rust_libp2p_nym.Transport.Reporting.{poll-announces, transport_poll-keeps_waker}
use rust_libp2p_nym.Tests.World.{foreign, channels, channel_laws, Queued}
use rust_libp2p_nym.Tests.Mixnets.{websocket, websocket_laws, noise, greeting}
use rust_libp2p_nym.Tests.Data.{cid, request, transport}

-- A request, and then a message of its connection.
abbrev stream_of : List InboundMessage → Queued InboundMessage
stream_of ms = record { items = ms; has_receiver = true }

abbrev asked : NymTransport
asked = record transport {
  inbound_stream =
      stream_of
        (record { message = connection_request request } ∷ record { message = greeting } ∷ []);
}

transport_poll-terminates_example : (poll tt asked).0 ≢ stuck
transport_poll-terminates_example = transport_poll-terminates channel_laws tt asked

unused : IsUnused cid transport
unused = record {
  connection = HashMap.get-new cid;
  queue = ap (λ q. (queue_of q).next_expected_nonce) (HashMap.get-new cid);
}

asked-IsUnused : IsUnused cid asked
asked-IsUnused = record { connection = unused.connection; queue = unused.queue }

poll-announces_example :
    (u : Upgrade) × ((poll tt asked).0 ≡ ok (ready (incoming 0 u [] [])))
    × (poll_upgrade u ≡ ready (ok (7, Connection.new 7 5 cid channels.unbounded_channel)))
poll-announces_example =
    poll-announces channel_laws tt asked request 5 (λ event x. absurd (cc x)) refl refl
      asked-IsUnused refl

transport_poll-keeps_waker_example : (poll tt transport).1.waker ≡ some tt
transport_poll-keeps_waker_example =
    transport_poll-keeps_waker tt transport (unfold poll poll_loop in refl)

abbrev pending_dial : PendingConnection Connection
pending_dial = record { remote_recipient = 5; connection_tx = channels.oneshot_channel }

abbrev dialling : NymTransport
dialling = record transport { pending_dials = HashMap.insert cid pending_dial HashMap.new }

abbrev answer : ConnectionMessage
answer = record { peer_id = 8; recipient = none; id = cid }

handle_connection_response-Establishes_example :
    let r = handle_connection_response answer dialling in
    (ch : Queued SubstreamMessage) × (r.0 ≡ ok tt)
    × Establishes cid dialling r.1 ch
    × (HashMap.get cid r.1.pending_dials ≡ none)
    × (r.1.waker ≡ none)
    × Receives cid (Connection.new 8 5 cid channels.unbounded_channel) r.1
handle_connection_response-Establishes_example =
    handle_connection_response-Establishes channel_laws answer pending_dial dialling
      (record { connection = unused.connection; queue = unused.queue })
      (HashMap.get-insert_self cid pending_dial HashMap.new) refl

abbrev other_side : NymTransport
other_side = record transport { self_address = 5; keypair = 8 }

abbrev asking : Dial
asking = record {
  message = record { peer_id = 9; recipient = some 4; id = cid };
  recipient = 5;
  connection_rx = channels.oneshot_channel;
  handshake_timeout = 5000;
}

dial_connects_both_example :
    let d = dial cid (nym "recipient" ∷ []) transport in
    (request : Dial) × (d.0 ≡ ok request)
    × ((out : Queued OutboundMessage) × (start_dial request transport.outbound_tx ≡ ok out)
        × (out.items ≡ record { message = connection_request request.message; recipient = 5 } ∷ []))
    × (let r = handle_connection_request request.message other_side in
        (ch : Queued SubstreamMessage) × (r.0
          ≡ ok (Connection.new 9 4 cid channels.unbounded_channel))
        × Establishes cid other_side r.1 ch
        × (r.1.outbound_tx.items
            ≡ record {
              message = connection_response (response_to request.message other_side);
              recipient = 4;
            }
              ∷ []))
    × (let s = handle_connection_response (response_to request.message other_side) d.1 in
        (ch : Queued SubstreamMessage) × (s.0 ≡ ok tt)
        × Establishes cid transport s.1 ch
        × (HashMap.get cid s.1.pending_dials ≡ none)
        × Receives cid (Connection.new 8 5 cid channels.unbounded_channel) s.1)
dial_connects_both_example =
    dial_connects_both channel_laws cid (nym "recipient" ∷ []) 5 transport other_side
      (unfold multiaddress_to_nym_address in refl) unused
      (record { connection = unused.connection; queue = unused.queue }) refl refl

-- A transport that has been created.
abbrev begun : NymTransport
begun = record transport {
  poll_chan = record { items = new_address 0 [] ∷ []; has_receiver = true };
}

abbrev visited : NymTransport
visited = record begun { inbound_stream = asked.inbound_stream }

passed_over : read_frame (inl (binary (7 ∷ 7 ∷ []))) ≡ ok none
passed_over = unfold parse_nym_message in refl

created_transport-IsNew_example :
    (t : NymTransport) × (task : Task) × (new_maybe_with_notify_inbound 0 "ws://localhost" 9 none
        none
      ≡ ok (t, task))
    × IsNew 0 9 none 4 [] t
    × IsFresh task
    × (task.socket.frames ≡ inl (binary (Wire.to_bytes greeting)) ∷ inl other_ws_message ∷ [])
created_transport-IsNew_example =
    created_transport-IsNew channel_laws websocket_laws 0 "ws://localhost" 9 none
      (record { frames = noise; out = [] }) (inl (binary (7 ∷ 7 ∷ [])) ∷ []) (text "address")
      (inl (binary (Wire.to_bytes greeting)) ∷ inl other_ws_message ∷ []) 4 [] refl refl refl
      (passed_over, tt) (unfold parse_nym_message in refl)
      (unfold nym_address_to_multiaddress in refl)
