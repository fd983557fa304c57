-- ===== src/Tests/Data.antt =====
-- Test data: a connection, its messages in the order of their nonces, and a transport.
use rust_libp2p_nym.Prelude.{ℕ, true, false, List, [], ◌∷◌, none, some}
use rust_libp2p_nym.Prelude.HashMap
use rust_libp2p_nym.Message.ConnectionId.{ConnectionId, ConnectionId_key}
use rust_libp2p_nym.Message.SubstreamId.{SubstreamId}
use rust_libp2p_nym.Message.SubstreamMessage.{new_with_data, new_close}
use rust_libp2p_nym.Message.TransportMessage.{TransportMessage}
use rust_libp2p_nym.Message.ConnectionMessage.{ConnectionMessage}
use rust_libp2p_nym.Substream.{Substream, Link}
use rust_libp2p_nym.Connection
use rust_libp2p_nym.Connection.{Connection, Muxer}
use rust_libp2p_nym.Transport.State.{NymTransport}
use rust_libp2p_nym.Tests.World.{foreign, channels}

abbrev pub thirty_two : ℕ → List ℕ
thirty_two b =
    b ∷ b ∷ b ∷ b ∷ b ∷ b ∷ b ∷ b ∷ b ∷ b ∷ b ∷ b ∷ b ∷ b ∷ b ∷ b ∷ b ∷ b ∷ b ∷ b ∷ b ∷ b ∷ b ∷ b
    ∷ b ∷ b ∷ b ∷ b ∷ b ∷ b ∷ b ∷ b ∷ []

abbrev pub cid : ConnectionId
cid = record { bytes = thirty_two 1 }

abbrev pub other_cid : ConnectionId
other_cid = record { bytes = thirty_two 2 }

abbrev pub sid : SubstreamId
sid = record { bytes = thirty_two 3 }

abbrev pub numbered : ℕ → TransportMessage
numbered n = record { nonce = n; message = new_with_data sid (n ∷ []); id = cid }

abbrev pub foreign_message : TransportMessage
foreign_message = record { nonce = 1; message = new_close sid; id = other_cid }

abbrev pub three : List TransportMessage
three = numbered 1 ∷ numbered 2 ∷ numbered 3 ∷ []

abbrev pub request : ConnectionMessage
request = record { peer_id = 7; recipient = some 5; id = cid }

abbrev pub empty_link : Link
empty_link = record { message_nonce = 1; outbound_tx = channels.unbounded_channel }

abbrev pub conn : Connection
conn = Connection.new 7 5 cid channels.unbounded_channel

abbrev pub muxer : Muxer
muxer = record { connection = conn; link = empty_link }

abbrev pub transport : NymTransport
transport = record {
  self_address = 4;
  listen_addr = [];
  listener_id = 0;
  keypair = 9;
  connections = HashMap.new;
  pending_dials = HashMap.new;
  dialled = HashMap.new;
  message_queues = HashMap.new;
  inbound_stream = channels.unbounded_channel;
  outbound_tx = channels.unbounded_channel;
  poll_chan = channels.unbounded_channel;
  waker = none;
  handshake_timeout = 5000;
}

-- The transport with the connection established.
abbrev pub connected : NymTransport
connected = record transport {
  connections = HashMap.insert cid channels.unbounded_channel HashMap.new;
  message_queues = HashMap.insert cid (record { next_expected_nonce = 1; queue = [] }) HashMap.new;
}

-- A substream with two bytes left from an earlier read, and one more in its channel.
abbrev pub stream : Substream
stream = record {
  remote_recipient = 5;
  connection_id = cid;
  substream_id = sid;
  inbound_rx = record { items = (30 ∷ []) ∷ []; has_receiver = true };
  close_rx = channels.oneshot_channel;
  closed = false;
  unread_data = 10 ∷ 20 ∷ [];
}
