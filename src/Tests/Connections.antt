-- ===== src/Tests/Connections.antt =====
-- The theorems on one connection, at one that opens a substream and writes to it.
use mathlib.Core.List.Perm
use rust_libp2p_nym.Prelude.{
  ℕ, ◌+◌, arith, ok, ◌≡◌, ◌≢◌, ◌⊎◌, ◌↔◌, refl, true, false, some, none, List, [], ◌∷◌, ◌++◌, length,
  All, err, panic, stuck,
}
use rust_libp2p_nym.Prelude.HashMap
use rust_libp2p_nym.Error.{Error}
use rust_libp2p_nym.Message.SubstreamMessage.{open_request, open_response, close}
use rust_libp2p_nym.Message.SubstreamId.{SubstreamId_key}
use rust_libp2p_nym.Message.Wire.{OutboundMessage}
use rust_libp2p_nym.Queue.Order.{Consecutive}
use rust_libp2p_nym.Queue.Delivery.{IsSmall}
use rust_libp2p_nym.Connection.{
  Muxer, poll, poll_outbound, handle_close, new_outbound_substream, handle_message,
}
use rust_libp2p_nym.Connection.Nonces.{Numbered}
use rust_libp2p_nym.Connection.Sending.{
  Reaches, Step, transport_messages, Reaches-Numbered, Reaches-Consecutive,
}
use rust_libp2p_nym.Connection.Termination.{poll-terminates}
use rust_libp2p_nym.Connection.Registry.{IsPaired, insert-Paired, poll-IsPaired}
use rust_libp2p_nym.Connection.Closing.{Closes, handle_close-cases}
use rust_libp2p_nym.Connection.Opening.{CanOpen, Opened, made, substream_opens_on_both_sides}
use rust_libp2p_nym.Connection.{handle_data}
use rust_libp2p_nym.Connection.Data.{Delivered, handle_data-Delivered, handle_data-panics}
use rust_libp2p_nym.Tests.World.{foreign, channels, channel_laws, Once, Queued}
use rust_libp2p_nym.Tests.Data.{sid, stream, conn, muxer, empty_link}
use rust_libp2p_nym.Connection.Gap.{second_close_stalls}
use rust_libp2p_nym.Queue.{MessageQueue}
use rust_libp2p_nym.Queue.Session.{session}
use rust_libp2p_nym.Substream.{Substream, Link, poll_write, poll_close, check_closed}
use rust_libp2p_nym.Tests.Runs.{after_write, run, few}

Reaches-Numbered_example : Numbered empty_link after_write
Reaches-Numbered_example = Reaches-Numbered channel_laws empty_link after_write run refl

Reaches-Consecutive_example :
    (ms : List OutboundMessage) × (channels.contents after_write.outbound_tx
      ≡ channels.contents empty_link.outbound_tx ++ ms)
    × (length (transport_messages ms) ≡ length ms)
    × Consecutive 1 (transport_messages ms)
    × All IsSmall (transport_messages ms)
Reaches-Consecutive_example =
    Reaches-Consecutive channel_laws empty_link after_write run refl refl few

-- A request to open a substream, and then one to close it.
abbrev busy : Muxer
busy = record muxer {
  connection = record conn {
    inbound_rx = record {
      items =
          record { substream_id = sid; message_type = open_request }
          ∷ record { substream_id = sid; message_type = close }
          ∷ [];
      has_receiver = true;
    };
  };
}

poll-terminates_example : (poll tt busy).0 ≢ stuck
poll-terminates_example = poll-terminates channel_laws tt busy

none-IsPaired : IsPaired conn
unfolding HashMap.new HashMap.get
none-IsPaired id = refl

poll-IsPaired_example : IsPaired (poll tt busy).1.connection
poll-IsPaired_example = poll-IsPaired tt busy none-IsPaired

-- A connection with one substream, which has been dropped.
abbrev dropped : Once (Unit {0})
dropped = record { value = none; has_receiver = false }

abbrev one_substream : Muxer
one_substream = record muxer {
  connection = record conn {
    substream_inbound_txs = HashMap.insert sid channels.unbounded_channel HashMap.new;
    substream_close_txs = HashMap.insert sid dropped HashMap.new;
  };
}

handle_close-cases_example :
    ((HashMap.get sid one_substream.connection.substream_inbound_txs ≡ none)
      × (handle_close sid one_substream
          ≡ (err (Error.substream_id_does_not_exist sid), one_substream)))
    ⊎ ((tx : Queued (List ℕ)) × (close_tx : Once (Unit {0})) × (HashMap.get sid
            one_substream.connection.substream_inbound_txs
          ≡ some tx)
        × (HashMap.get sid one_substream.connection.substream_close_txs ≡ some close_tx)
        × Closes sid one_substream close_tx
            (handle_close sid one_substream).0
            (handle_close sid one_substream).1)
handle_close-cases_example =
    handle_close-cases channel_laws sid one_substream
      (insert-Paired HashMap.new HashMap.new sid channels.unbounded_channel dropped none-IsPaired)

handle_data-Delivered_example :
    ((handle_data sid (65 ∷ []) one_substream).0 ≡ ok tt)
    × Delivered sid
        (65 ∷ [])
        channels.unbounded_channel
        one_substream
        (handle_data sid (65 ∷ []) one_substream).1
handle_data-Delivered_example =
    handle_data-Delivered channel_laws sid (65 ∷ []) one_substream channels.unbounded_channel
      (HashMap.get-insert_self sid channels.unbounded_channel HashMap.new) refl

handle_data-panics_example :
    ((handle_data sid (65 ∷ []) muxer).0 ≡ panic)
    ↔ (HashMap.get sid muxer.connection.substream_inbound_txs ≡ none)
handle_data-panics_example = handle_data-panics sid (65 ∷ []) muxer

-- Neither side has a substream yet.
abbrev asked : Muxer
asked = (new_outbound_substream sid muxer).1

abbrev answered : Muxer
answered = (handle_message sid open_request muxer).1

muxer-CanOpen : CanOpen sid muxer
unfolding HashMap.get HashMap.new
muxer-CanOpen = record { unused = refl; opened = refl }

substream_opens_on_both_sides_example :
    (((new_outbound_substream sid muxer).0 ≡ ok (made conn sid))
      × Opened sid open_request muxer asked
      × (HashMap.get sid asked.connection.pending_substreams ≡ some tt))
    × (((handle_message sid open_request muxer).0 ≡ ok tt)
        × Opened sid open_response muxer answered
        × (channels.contents answered.connection.inbound_open
            ≡ channels.contents conn.inbound_open ++ made conn sid ∷ []))
    × ((handle_message sid open_response asked).0 ≡ ok tt)
    × Opened sid open_request muxer (handle_message sid open_response asked).1
    × (HashMap.get sid (handle_message sid open_response asked).1.connection.pending_substreams
        ≡ none)
substream_opens_on_both_sides_example =
    substream_opens_on_both_sides channel_laws sid muxer muxer muxer-CanOpen muxer-CanOpen refl

-- A closed substream is closed again, and then another one is written to.
abbrev shut_stream : Substream
shut_stream = record stream { closed = true }

abbrev after_second_close : Link
after_second_close = (poll_close shut_stream after_write).link

abbrev after_all : Link
after_all = (poll_write stream (67 ∷ []) after_second_close).link

three_messages : length (channels.contents after_all.outbound_tx) ≡ 3
unfolding poll_outbound poll_write poll_close check_closed new_outbound_substream HashMap.get
    HashMap.new
three_messages = refl

second_close_stalls_example :
    let early = transport_messages (channels.contents after_write.outbound_tx) in
    (q : MessageQueue) × (session {E = Error} []
        (transport_messages (channels.contents after_all.outbound_tx))
      ≡ ok (early, q))
    × (q.next_expected_nonce ≡ 1 + length early)
second_close_stalls_example =
    second_close_stalls channel_laws empty_link after_write after_all shut_stream []
      (transport_messages (channels.contents after_all.outbound_tx)) refl run
      (Reaches.step (Step.wrote stream (67 ∷ []) after_second_close) (Reaches.done after_all)) refl
      refl refl (omega (arith, three_messages)) (Perm.refl _)
