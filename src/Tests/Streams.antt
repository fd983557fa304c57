-- ===== src/Tests/Streams.antt =====
-- The theorems on substreams, at a substream with unread data.
use rust_libp2p_nym.Prelude.{
  ℕ, ◌+◌, ◌≤◌, min, ◌≡◌, ◌≢◌, panic, refl, true, List, [], ◌∷◌, ◌++◌, length, take, drop, ok, err,
  arith,
}
use rust_libp2p_nym.Channel.{ready}
use rust_libp2p_nym.Message.SubstreamMessage.{new_with_data, new_close}
use rust_libp2p_nym.Substream.{
  Substream, Call, poll_read, poll_write, poll_flush, poll_close, check_closed, stream_closed,
  framed,
}
use rust_libp2p_nym.Substream.Reading.{arrived, returned}
use rust_libp2p_nym.Substream.Bounds.{poll_read-bounds}
use rust_libp2p_nym.Substream.Count.{inbound_of, poll_read-bytes, poll_read-undercounts}
use rust_libp2p_nym.Substream.Nonce.{Sent, IsClosed, poll_write-Sent, poll_close-Sent}
use rust_libp2p_nym.Substream.Closed.{Uses, Unmoved, closed_for_good}
use rust_libp2p_nym.Tests.World.{foreign, channels, channel_laws}
use rust_libp2p_nym.Tests.Data.{stream, empty_link}

abbrev four : List ℕ
four = 0 ∷ 0 ∷ 0 ∷ 0 ∷ []

abbrev shut_stream : Substream
shut_stream = record stream { closed = true }

poll_read-bytes_example :
    let all = stream.unread_data ++ arrived (inbound_of stream) in
    ((poll_read stream four).buf ≡ take (length four) all ++ drop (length all) four)
    × ((poll_read stream four).stream.unread_data ≡ drop (length four) all)
    × ((poll_read stream four).result
        ≡ ok (returned (length stream.unread_data) (length four) (inbound_of stream)))
poll_read-bytes_example =
    poll_read-bytes stream four (record { not_closed = refl; no_signal = refl })

-- Three bytes are put into the buffer, and the count is one.
poll_read-undercounts_example :
    (n : ℕ) × ((poll_read stream four).result ≡ ok (ready n))
    × (n + length stream.unread_data ≡ min (length (stream.unread_data ++ 30 ∷ [])) (length four))
    × ((poll_read stream four).stream.unread_data
        ≡ drop (length four) (stream.unread_data ++ 30 ∷ []))
poll_read-undercounts_example =
    poll_read-undercounts stream four (30 ∷ []) (record { not_closed = refl; no_signal = refl })
      refl (omega arith) (omega arith)

poll_write-Sent_example :
    ((poll_write stream four empty_link).result ≡ ok (ready (length four)))
    × Sent empty_link
        (poll_write stream four empty_link).link
        (framed stream (new_with_data stream.substream_id four) empty_link.message_nonce)
poll_write-Sent_example =
    poll_write-Sent channel_laws stream empty_link four (unfold check_closed in refl) refl

poll_close-Sent_example :
    ((poll_close stream empty_link).result ≡ ok (ready tt))
    × IsClosed (poll_close stream empty_link).stream
    × Sent empty_link
        (poll_close stream empty_link).link
        (framed stream (new_close stream.substream_id) empty_link.message_nonce)
poll_close-Sent_example = poll_close-Sent channel_laws stream empty_link refl refl

-- A read and two closings of a closed substream.
abbrev read_once : Substream
read_once = (poll_read shut_stream four).stream

abbrev closed_once : Call (Unit {0})
closed_once = poll_close read_once empty_link

abbrev closed_twice : Call (Unit {0})
closed_twice = poll_close closed_once.stream closed_once.link

uses : Uses 2 shut_stream empty_link closed_twice.stream closed_twice.link
uses = Uses.read four (Uses.shut (Uses.shut (Uses.unused closed_twice.stream closed_twice.link)))

closed_for_good_example :
    Unmoved 2 shut_stream empty_link closed_twice.stream closed_twice.link
    × ((poll_read closed_twice.stream four).result ≡ err stream_closed)
    × ((poll_read closed_twice.stream four).buf ≡ four)
    × ((poll_write closed_twice.stream four closed_twice.link).result ≡ err stream_closed)
    × ((poll_flush closed_twice.stream closed_twice.link).result ≡ err stream_closed)
    × ((poll_close closed_twice.stream closed_twice.link).result ≡ err stream_closed)
closed_for_good_example =
    closed_for_good 2 shut_stream closed_twice.stream empty_link closed_twice.link four refl uses

poll_read-bounds_example :
    ((poll_read stream four).result ≢ panic)
    × (length (poll_read stream four).buf ≡ length four)
    × ((n : ℕ) → (poll_read stream four).result ≡ ok (ready n) → n ≤ length four)
poll_read-bounds_example = poll_read-bounds stream four
