-- ===== src/Tests/Runs.antt =====
-- A run of one side of a connection: it opens a substream and writes to it.
use rust_libp2p_nym.Prelude.{◌+◌, ◌^◌, ◌<◌, ◌≡◌, refl, [], ◌∷◌, length, arith}
use rust_libp2p_nym.Prelude.HashMap
use rust_libp2p_nym.Message.SubstreamMessage.{new_with_data, open_request}
use rust_libp2p_nym.Message.TransportMessage.{TransportMessage}
use rust_libp2p_nym.Substream.{Link, poll_write, check_closed}
use rust_libp2p_nym.Connection.{poll_outbound, new_outbound_substream}
use rust_libp2p_nym.Connection.Sending.{Reaches, Step, transport_messages}
use rust_libp2p_nym.Tests.World.{foreign, channels}
use rust_libp2p_nym.Tests.Data.{cid, sid, muxer, stream, empty_link}

abbrev pub after_open : Link
after_open = (poll_outbound sid muxer).1.link

abbrev pub after_write : Link
after_write = (poll_write stream (65 ∷ 66 ∷ []) after_open).link

pub run : Reaches empty_link after_write
run =
    Reaches.step (Step.opened sid muxer)
      (Reaches.step (Step.wrote stream (65 ∷ 66 ∷ []) after_open) (Reaches.done after_write))

abbrev pub opening : TransportMessage
opening = record {
  nonce = 1;
  message = record { substream_id = sid; message_type = open_request };
  id = cid;
}

abbrev pub writing : TransportMessage
writing = record { nonce = 2; message = new_with_data sid (65 ∷ 66 ∷ []); id = cid }

pub sent_twice :
    transport_messages (channels.contents after_write.outbound_tx) ≡ opening ∷ writing ∷ []
unfolding poll_outbound poll_write check_closed new_outbound_substream HashMap.get HashMap.new
sent_twice = refl

two_messages : length (channels.contents after_write.outbound_tx) ≡ 2
unfolding poll_outbound poll_write check_closed new_outbound_substream HashMap.get HashMap.new
two_messages = refl

pub few : length (channels.contents after_write.outbound_tx) + 1 < 2 ^ 64
few = omega (arith, two_messages)
