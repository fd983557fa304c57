-- ===== src/Transport/State.antt =====
-- src/transport.rs: the transport's state and its events.
use rust_libp2p_nym.Prelude.{ℕ, Option, none, some, ok, err}
use rust_libp2p_nym.Prelude.HashMap.{HashMap}
use rust_libp2p_nym.Prelude.Exec.{Exec}
use rust_libp2p_nym.Foreign.{Foreign}
use rust_libp2p_nym.Channel.{Channels, Poll, ready, pending}
use rust_libp2p_nym.Error.{Result, Error}
use rust_libp2p_nym.Message.ConnectionId.{ConnectionId, ConnectionId_key}
use rust_libp2p_nym.Message.SubstreamMessage.{SubstreamMessage}
use rust_libp2p_nym.Message.Wire.{InboundMessage, OutboundMessage}
use rust_libp2p_nym.Queue.{MessageQueue}
use rust_libp2p_nym.Connection.{Connection, PendingConnection}

module _ ⦃f : Foreign⦄ ⦃c : Channels⦄ where
  -- A listener upgrade: the receiver of the connection that it becomes.
  pub record Upgrade : Type 0 where
    pub connection_tx : c.Oneshot (f.PeerId × Connection)

  unfoldable pub poll_upgrade : Upgrade → Poll (Result (f.PeerId × Connection))
  poll_upgrade u = elim (c.poll_oneshot u.connection_tx) [
    | pending ↦ pending
    | ready (some output) ↦ ready (ok output)
    | ready none ↦ ready (err Error.recv_error)
  ]

  -- `InboundTransportEvent`, and libp2p's TransportEvent as far as the transport produces it.
  pub data InboundTransportEvent : Type 0 where
    connection_requested : Upgrade → InboundTransportEvent
    connection_responded : InboundTransportEvent
    message_handled : InboundTransportEvent

  pub data TransportEvent : Type 0 where
    new_address : f.ListenerId → f.Multiaddr → TransportEvent
    listener_closed : f.ListenerId → TransportEvent
    incoming : f.ListenerId → Upgrade → f.Multiaddr → f.Multiaddr → TransportEvent
    listener_error : f.ListenerId → Error → TransportEvent

  -- `dialled` has, for each dial whose connection has been sent, the oneshot channel behind that
  -- send: the dial's future holds the receiver of the channel, as `connection_rx`.
  -- `poll_chan` is the channel of which the transport holds both ends, poll_tx and poll_rx. The
  -- timeout is in milliseconds.
  pub record NymTransport : Type 0 where
    pub self_address : f.Recipient
    pub listen_addr : f.Multiaddr
    pub listener_id : f.ListenerId
    pub keypair : f.Keypair
    pub connections : HashMap ConnectionId (c.Chan SubstreamMessage)
    pub pending_dials : HashMap ConnectionId (PendingConnection Connection)
    pub dialled : HashMap ConnectionId (c.Oneshot Connection)
    pub message_queues : HashMap ConnectionId MessageQueue
    pub inbound_stream : c.Chan InboundMessage
    pub outbound_tx : c.Chan OutboundMessage
    pub poll_chan : c.Chan TransportEvent
    pub waker : Option f.Waker
    pub handshake_timeout : ℕ

  abbrev pub Method : Type 0 → Type 0
  Method A = Exec NymTransport Error A

  abbrev pub peer_id : NymTransport → f.PeerId
  peer_id t = f.peer_id_of t.keypair

  abbrev pub with_timeout : NymTransport → ℕ → NymTransport
  with_timeout t timeout = record t { handshake_timeout = timeout }
