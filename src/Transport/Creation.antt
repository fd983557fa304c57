-- ===== src/Transport/Creation.antt =====
-- src/transport.rs: the transport is created on a connection to the Nym client.
use rust_libp2p_nym.Prelude.{ℕ, String, Option, none, some, ok, ◌>>=◌}
use rust_libp2p_nym.Foreign.{Foreign}
use rust_libp2p_nym.Channel.{Channels}
use rust_libp2p_nym.Error.{Result}
use rust_libp2p_nym.Mixnet.{Task}
use rust_libp2p_nym.Mixnet.Client.{Websocket}
use rust_libp2p_nym.Mixnet.Address.{initialize_mixnet}
use rust_libp2p_nym.Transport.State.{NymTransport}
use rust_libp2p_nym.Transport.Dialing

module _ ⦃f : Foreign⦄ ⦃w : Websocket⦄ ⦃c : Channels⦄ where
  -- The transport, and the task that runs beside it. `id` is what `ListenerId::new` returns.
  unfoldable pub new_maybe_with_notify_inbound :
      f.ListenerId
      → String
      → f.Keypair
      → Option (c.Chan (Unit {0}))
      → Option ℕ
      → Result (NymTransport × Task)
  new_maybe_with_notify_inbound id uri keypair notify_inbound_tx timeout = do
    made ← initialize_mixnet uri notify_inbound_tx
    t ← Dialing.new keypair timeout made.recipient made.inbound_rx made.outbound_tx id
    ok (t, made.task)

  abbrev pub new : f.ListenerId → String → f.Keypair → Result (NymTransport × Task)
  new id uri keypair = new_maybe_with_notify_inbound id uri keypair none none

  abbrev pub new_with_timeout : f.ListenerId → String → f.Keypair → ℕ → Result (NymTransport × Task)
  new_with_timeout id uri keypair timeout =
      new_maybe_with_notify_inbound id uri keypair none (some timeout)
