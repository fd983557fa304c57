-- ===== src/Transport/Dialing.antt =====
-- src/transport.rs: setting the transport up, its listener, its addresses, and dials.
use Prim.Native.String.{◌++◌ as str_append}
use rust_libp2p_nym.Prelude.{
  ℕ, ◌*◌, Bool, true, false, Option, none, some, Outcome, ok, err, panic, stuck, if◌then◌else◌,
}
use rust_libp2p_nym.Prelude.HashMap
use rust_libp2p_nym.Prelude.HashMap.{HashMap}
use rust_libp2p_nym.Prelude.Exec.{gets, modify, ◌>>=◌, ◌>>◌}
use rust_libp2p_nym.Foreign.{Foreign}
use rust_libp2p_nym.Channel.{Channels}
use rust_libp2p_nym.Error.{Error}
use rust_libp2p_nym.Message.ConnectionId.{ConnectionId, ConnectionId_key}
use rust_libp2p_nym.Message.ConnectionMessage.{ConnectionMessage}
use rust_libp2p_nym.Message.Wire.{connection_request, InboundMessage, OutboundMessage}
use rust_libp2p_nym.Connection.{Connection}
use rust_libp2p_nym.Transport.State.{
  TransportEvent, new_address, listener_closed, NymTransport, Method, peer_id,
}
use rust_libp2p_nym.Prelude.{map_err}
use rust_libp2p_nym.Foreign.{nym, other_protocol}

module _ ⦃f : Foreign⦄ ⦃c : Channels⦄ where
  -- `nym_address_to_multiaddress`
  unfoldable pub nym_address_to_multiaddress : f.Recipient → Outcome Error f.Multiaddr
  nym_address_to_multiaddress address =
      map_err Error.failed_to_format_multiaddr
        (f.multiaddr_from_str (str_append "/nym/" (f.recipient_to_string address)))

  -- `multiaddr.pop().unwrap()` panics on an address with no part.
  unfoldable pub multiaddress_to_nym_address : f.Multiaddr → Outcome Error f.Recipient
  multiaddress_to_nym_address address = elim (f.multiaddr_pop address) [
    | none ↦ panic
    | some (nym name) ↦ map_err Error.invalid_recipient_bytes (f.recipient_from_str name)
    | some other_protocol ↦ err Error.invalid_protocol_for_multiaddr
  ]

  abbrev pub default_handshake_timeout : ℕ
  default_handshake_timeout = 5 * 1000

  abbrev pub timeout_or_default : Option ℕ → ℕ
  timeout_or_default none = default_handshake_timeout
  timeout_or_default (some timeout) = timeout

  -- `new_maybe_with_notify_inbound` behind `initialize_mixnet`, whose results are arguments, as is the
  -- ID that `ListenerId::new` makes.
  unfoldable pub new :
      f.Keypair
      → Option ℕ
      → f.Recipient
      → c.Chan InboundMessage
      → c.Chan OutboundMessage
      → f.ListenerId
      → Outcome Error NymTransport
  new keypair timeout self_address inbound_rx outbound_tx listener_id =
      elim (nym_address_to_multiaddress self_address) [
        | ok listen_addr ↦
            let first : TransportEvent = new_address listener_id listen_addr in
            elim (c.send first c.unbounded_channel) [
              | none ↦ err Error.send_error_transport_event
              | some poll_chan ↦ ok (record {
                self_address = self_address;
                listen_addr = listen_addr;
                listener_id = listener_id;
                keypair = keypair;
                connections = HashMap.new;
                pending_dials = HashMap.new;
                dialled = HashMap.new;
                message_queues = HashMap.new;
                inbound_stream = inbound_rx;
                outbound_tx = outbound_tx;
                poll_chan = poll_chan;
                waker = none;
                handshake_timeout = timeout_or_default timeout;
              })
            ]
        | err e ↦ err e
        | panic ↦ panic
        | stuck ↦ stuck
      ]

  -- Any address is accepted.
  abbrev pub listen_on : f.Multiaddr → Method f.ListenerId
  listen_on address = gets (λ t. t.listener_id)

  unfoldable pub remove_listener : f.ListenerId → Method Bool
  remove_listener id t =
      if f.listener_id_eq t.listener_id id
      then elim (c.send (listener_closed id) t.poll_chan) [
        | none ↦ (panic, t)
        | some poll_chan' ↦ (ok true, record t { poll_chan = poll_chan' })
      ]
      else (ok false, t)

  -- What the future of `dial` holds.
  pub record Dial : Type 0 where
    pub message : ConnectionMessage
    pub recipient : f.Recipient
    pub connection_rx : c.Oneshot Connection
    pub handshake_timeout : ℕ

  abbrev lift : {A : Type 0} → Outcome Error A → Method A
  lift result t = (result, t)

  -- `id` is what `ConnectionId::generate` returns.
  unfoldable pub dial : ConnectionId → f.Multiaddr → Method Dial
  unfolding multiaddress_to_nym_address
  dial id address = do
    recipient ← lift (multiaddress_to_nym_address address)
    modify (λ t. record t {
      pending_dials =
          HashMap.insert id
            (record { remote_recipient = recipient; connection_tx = c.oneshot_channel })
            t.pending_dials;
    })
    gets (λ t. record {
      message = record { peer_id = peer_id t; recipient = some t.self_address; id = id };
      recipient = recipient;
      connection_rx = c.oneshot_channel;
      handshake_timeout = t.handshake_timeout;
    })

  abbrev pub dial_as_listener : ConnectionId → f.Multiaddr → Method Dial
  dial_as_listener id address = dial id address

  abbrev pub address_translation : NymTransport → f.Multiaddr → f.Multiaddr → Option f.Multiaddr
  address_translation t listen observed = none

  -- The future's first step: the request goes to the mixnet.
  unfoldable pub start_dial : Dial → c.Chan OutboundMessage → Outcome Error (c.Chan OutboundMessage)
  start_dial d outbound_tx =
      elim (c.send (record { message = connection_request d.message; recipient = d.recipient })
        outbound_tx) [
          | none ↦ err (Error.outbound_send_error f.send_error_text)
          | some outbound' ↦ ok outbound'
        ]

  -- `timeout(handshake_timeout, connection_rx).await`: the time runs out, or the channel gives a
  -- connection or is dropped.
  pub data Awaited : Type 0 where
    elapsed : f.Elapsed → Awaited
    dropped : f.OneshotRecvError → Awaited
    resolved : Connection → Awaited

  unfoldable pub finish_dial : Awaited → Outcome Error (f.PeerId × Connection)
  finish_dial (elapsed e) = err (Error.dial_timeout e)
  finish_dial (dropped e) = err (Error.oneshot_recv_error e)
  finish_dial (resolved connection) = ok (connection.peer_id, connection)
