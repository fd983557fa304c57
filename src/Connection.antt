-- ===== src/Connection.antt =====
-- src/connection.rs: Connection, the stream muxer, and PendingConnection. The counter of nonces and
-- the channel to the mixnet are shared with the substreams, so they stand in a Link beside the
-- connection. `wake` is an effect on the executor, of which only the taking of the waker is kept.
-- The proofs are in the modules below.
pub mod Nonces
pub mod Sending
pub mod Termination
pub mod Registry
pub mod Closing
pub mod Opening
pub mod Gap
pub mod Data
use rust_libp2p_nym.Prelude.{
  ℕ, zero, suc, List, Option, none, some, ok, err, panic, stuck, if◌then◌else◌, length,
}
use rust_libp2p_nym.Prelude.HashMap
use rust_libp2p_nym.Prelude.HashMap.{HashMap, HashSet}
use rust_libp2p_nym.Prelude.Exec.{Exec, pure, abort, modify, ◌>>=◌, ◌>>◌}
use rust_libp2p_nym.Foreign.{Foreign}
use rust_libp2p_nym.Channel.{Channels, Poll, ready, pending}
use rust_libp2p_nym.Error.{Error}
use rust_libp2p_nym.Message.ConnectionId.{ConnectionId, ConnectionId_key}
use rust_libp2p_nym.Message.SubstreamId.{SubstreamId, SubstreamId_key}
use rust_libp2p_nym.Message.SubstreamMessage.{
  SubstreamMessage, SubstreamMessageType, open_request, open_response, close, payload,
}
use rust_libp2p_nym.Message.TransportMessage.{TransportMessage}
use rust_libp2p_nym.Message.Wire.{transport_message, OutboundMessage}
use rust_libp2p_nym.Substream
use rust_libp2p_nym.Substream.{Substream, Link, fetch_add}

module _ ⦃f : Foreign⦄ ⦃c : Channels⦄ where
  -- `inbound_open` and `close` are channels of which the connection holds both ends.
  pub record Connection : Type 0 where
    pub peer_id : f.PeerId
    pub remote_recipient : f.Recipient
    pub id : ConnectionId
    pub inbound_rx : c.Chan SubstreamMessage
    pub pending_substreams : HashSet SubstreamId
    pub substream_inbound_txs : HashMap SubstreamId (c.Chan (List ℕ))
    pub substream_close_txs : HashMap SubstreamId (c.Oneshot (Unit {0}))
    pub inbound_open : c.Chan Substream
    pub close_chan : c.Chan SubstreamId
    pub waker : Option f.Waker

  abbrev pub new : f.PeerId → f.Recipient → ConnectionId → c.Chan SubstreamMessage → Connection
  new peer_id recipient id inbound_rx = record {
    peer_id = peer_id;
    remote_recipient = recipient;
    id = id;
    inbound_rx = inbound_rx;
    pending_substreams = HashMap.new;
    substream_inbound_txs = HashMap.new;
    substream_close_txs = HashMap.new;
    inbound_open = c.unbounded_channel;
    close_chan = c.unbounded_channel;
    waker = none;
  }

  -- `Arc::new(AtomicU64::new(1))`
  abbrev pub first_nonce : ℕ
  first_nonce = 1

  pub record Muxer : Type 0 where
    pub connection : Connection
    pub link : Link

  abbrev pub Method : Type 0 → Type 0
  Method A = Exec Muxer Error A

  abbrev pub update : (Connection → Connection) → Muxer → Muxer
  update g m = record m { connection = g m.connection }

  -- `message_nonce.fetch_add(1, SeqCst)`
  unfoldable pub fetch_nonce : Method ℕ
  fetch_nonce m = (
    ok m.link.message_nonce,
    record m { link = record m.link { message_nonce = fetch_add m.link.message_nonce } },
  )

  abbrev pub framed : Connection → SubstreamMessage → ℕ → OutboundMessage
  framed conn message nonce =
      let m : TransportMessage = record { nonce = nonce; message = message; id = conn.id } in
      record { message = transport_message m; recipient = conn.remote_recipient }

  unfoldable pub send_outbound : SubstreamMessage → ℕ → Method (Unit {0})
  send_outbound message nonce m =
      elim (c.send (framed m.connection message nonce) m.link.outbound_tx) [
        | none ↦ (err (Error.outbound_send_error f.send_error_text), m)
        | some outbound' ↦ (ok tt, record m { link = record m.link { outbound_tx = outbound' } })
      ]

  -- The substream and the connection's ends of its two channels.
  unfoldable pub new_substream : SubstreamId → Method Substream
  new_substream id m =
      let conn = m.connection in
      elim (HashMap.get id conn.substream_inbound_txs) [
        | some tx ↦ (err (Error.substream_id_exists id), m)
        | none ↦ (
          ok (Substream.new conn.remote_recipient conn.id id c.unbounded_channel c.oneshot_channel),
          record m {
            connection = record conn {
              substream_inbound_txs =
                  HashMap.insert id c.unbounded_channel conn.substream_inbound_txs;
              substream_close_txs = HashMap.insert id c.oneshot_channel conn.substream_close_txs;
              waker = none;
            };
          },
        )
      ]

  -- `id` is what `SubstreamId::generate` returns. The request is sent before the ID is looked up.
  unfoldable pub new_outbound_substream : SubstreamId → Method Substream
  unfolding fetch_nonce send_outbound new_substream
  new_outbound_substream id = do
    nonce ← fetch_nonce
    send_outbound (record { substream_id = id; message_type = open_request }) nonce
    substream ← new_substream id
    modify (
        update
          λ conn. record conn { pending_substreams = HashMap.insert id tt conn.pending_substreams })
    pure substream

  -- `close_tx.unwrap().send(()).unwrap()`
  unfoldable pub signal_close : Option (c.Oneshot (Unit {0})) → Method (Unit {0})
  signal_close none = abort
  signal_close (some close_tx) = if c.oneshot_send tt close_tx then pure tt else abort

  unfoldable pub notify_closed : SubstreamId → Method (Unit {0})
  notify_closed id m = elim (c.send id m.connection.close_chan) [
    | none ↦ (err (Error.inbound_send_error f.send_error_text), m)
    | some close' ↦ (ok tt, update (λ conn. record conn { close_chan = close' }) m)
  ]

  unfoldable pub handle_close : SubstreamId → Method (Unit {0})
  unfolding signal_close notify_closed
  handle_close id m =
      let conn = m.connection in
      elim (HashMap.get id conn.substream_inbound_txs) [
        | none ↦ (err (Error.substream_id_does_not_exist id), m)
        | some tx ↦
            (do signal_close (HashMap.get id conn.substream_close_txs); notify_closed id)
              (update
                (λ conn. record conn {
                  substream_inbound_txs = HashMap.remove id conn.substream_inbound_txs;
                  substream_close_txs = HashMap.remove id conn.substream_close_txs;
                })
                m)
      ]

  -- The send to the connection's own channel, for `poll_inbound`.
  unfoldable pub offer_inbound : Substream → Method (Unit {0})
  offer_inbound substream m = elim (c.send substream m.connection.inbound_open) [
    | none ↦ (err (Error.inbound_send_error f.send_error_text), m)
    | some open' ↦ (ok tt, update (λ conn. record conn { inbound_open = open' }) m)
  ]

  unfoldable pub handle_open_request : SubstreamId → Method (Unit {0})
  unfolding fetch_nonce send_outbound new_substream offer_inbound
  handle_open_request id = do
    substream ← new_substream id
    nonce ← fetch_nonce
    send_outbound (record { substream_id = id; message_type = open_response }) nonce
    offer_inbound substream

  -- `.expect("must have a substream channel for substream")`; a failed send is ignored.
  unfoldable pub handle_data : SubstreamId → List ℕ → Method (Unit {0})
  handle_data id bytes m = elim (HashMap.get id m.connection.substream_inbound_txs) [
    | none ↦ (panic, m)
    | some tx ↦ elim (c.send bytes tx) [
      | none ↦ (ok tt, m)
      | some tx' ↦ (
        ok tt,
        update
            (λ conn. record conn {
              substream_inbound_txs = HashMap.insert id tx' conn.substream_inbound_txs;
            })
            m,
      )
    ]
  ]

  -- One round of the loop of `poll`.
  unfoldable pub handle_message : SubstreamId → SubstreamMessageType → Method (Unit {0})
  unfolding handle_open_request handle_close handle_data
  handle_message id open_request = handle_open_request id
  handle_message id open_response = modify (
      update λ conn. record conn { pending_substreams = HashMap.remove id conn.pending_substreams })
  handle_message id close = handle_close id
  handle_message id (payload bytes) = handle_data id bytes

  -- `while let Poll::Ready(Some(msg)) = self.inbound_rx.poll_recv(cx)`, with fuel; an error ends it.
  unfoldable pub poll_loop : ℕ → f.Waker → Method (Poll (Unit {0}))
  poll_loop zero cx m = (stuck, m)
  poll_loop (suc fuel) cx m =
      let polled = c.poll_recv m.connection.inbound_rx in
      let m' = update (λ conn. record conn { inbound_rx = polled.1 }) m in
      elim polled.0 [
        | ready (some msg) ↦
            (handle_message msg.substream_id msg.message_type >>= λ _. poll_loop fuel cx) m'
        | _ ↦ (ok pending, update (λ conn. record conn { waker = some cx }) m')
      ]

  -- Each round takes a message out of the channel.
  unfoldable pub poll : f.Waker → Method (Poll (Unit {0}))
  poll cx m = poll_loop (suc (length (c.contents m.connection.inbound_rx))) cx m

  unfoldable pub poll_inbound : Method (Poll Substream)
  poll_inbound m =
      let polled = c.poll_recv m.connection.inbound_open in
      let m' = update (λ conn. record conn { inbound_open = polled.1 }) m in
      elim polled.0 [ ready (some substream) ↦ (ok (ready substream), m') | _ ↦ (ok pending, m') ]

  unfoldable pub poll_outbound : SubstreamId → Method (Poll Substream)
  poll_outbound id = do substream ← new_outbound_substream id; pure (ready substream)

  unfoldable pub poll_close : Method (Poll (Unit {0}))
  poll_close m =
      let polled = c.poll_recv m.connection.close_chan in
      let m' = update (λ conn. record conn { close_chan = polled.1 }) m in
      elim polled.0 [ ready (some id) ↦ (ok (ready tt), m') | _ ↦ (ok pending, m') ]

  -- A dial that has not been answered.
  pub record PendingConnection (A : Type 0) : Type 0 where
    pub remote_recipient : f.Recipient
    pub connection_tx : c.Oneshot A
