-- ===== src/Mixnet/Run.antt =====
-- src/mixnet.rs: the task that `initialize_mixnet` spawns, and the transport on the other ends of its
-- channels, as steps.
use rust_libp2p_nym.Prelude.{ℕ, ◌≡◌, ◌≢◌, ◌+◌, List, [], ◌∷◌, ◌++◌, none, some, ok}
use rust_libp2p_nym.Foreign.{Foreign}
use rust_libp2p_nym.Channel.{Channels, ready}
use rust_libp2p_nym.Message.Wire
use rust_libp2p_nym.Message.Wire.{InboundMessage, OutboundMessage}
use rust_libp2p_nym.Mixnet.{Task, packet, check_inbound, check_outbound}
use rust_libp2p_nym.Mixnet.Client.{WsMessage, Websocket}

module _ ⦃f : Foreign⦄ ⦃w : Websocket⦄ where
  -- The frame of an outbound message.
  abbrev pub frame_of : OutboundMessage → WsMessage
  frame_of m = packet m.recipient (Wire.to_bytes m.message)

  module _ ⦃c : Channels⦄ where
    -- `outbound_rx.recv()` has given a result, and the message is off the channel.
    abbrev pub recv : Task → Task
    recv t = record t { outbound_rx = (c.poll_recv t.outbound_rx).1 }

    -- One turn of `select!` over the two futures, and what it may cost: 1 where a message has been
    -- taken off the outbound channel and nothing says that it was written. Whichever future is done
    -- first wins. `check_inbound` waits in `next` only, and until then holds nothing, so nothing is
    -- lost with it; but `check_outbound` waits in the send too, with its message, and the other may
    -- be done first.
    pub data Turn : ℕ → Task → Task → Type 0 where
      inbound : (t : Task) → Turn 0 t (check_inbound t).1
      wrote :
          (t : Task) (m : OutboundMessage)
          → (c.poll_recv t.outbound_rx).0 ≡ ready (some m)
          → (check_outbound (some m) (recv t)).0 ≡ ok tt
          → Turn 0 t (check_outbound (some m) (recv t)).1
      failed :
          (t : Task) (m : OutboundMessage)
          → (c.poll_recv t.outbound_rx).0 ≡ ready (some m)
          → (check_outbound (some m) (recv t)).0 ≢ ok tt
          → Turn 1 t (check_outbound (some m) (recv t)).1
      cancelled :
          (t : Task) (m : OutboundMessage)
          → (c.poll_recv t.outbound_rx).0 ≡ ready (some m)
          → Turn 1 t
              (check_inbound (record (recv t) { socket = w.drop_send (frame_of m) t.socket })).1
      closed :
          (t : Task)
          → (c.poll_recv t.outbound_rx).0 ≡ ready none
          → Turn 0 t (check_outbound none (recv t)).1

    -- The task's loop, from one state to another. Between its turns the transport sends messages, here
    -- `posted`, and takes messages off its channel, here `taken`; `n` is the cost of all turns.
    pub data Run : ℕ → List OutboundMessage → List InboundMessage → Task → Task → Type 0 where
      start : (t : Task) → Run 0 [] [] t t
      turn :
          {n k : ℕ} {posted : List OutboundMessage} {taken : List InboundMessage} {t t' t'' : Task}
          → Run n posted taken t t'
          → Turn k t' t''
          → Run (n + k) posted taken t t''
      post :
          {n : ℕ} {posted : List OutboundMessage} {taken : List InboundMessage} {t t' : Task}
          (m : OutboundMessage) (tx : c.Chan OutboundMessage)
          → Run n posted taken t t'
          → c.send m t'.outbound_rx ≡ some tx
          → Run n (posted ++ m ∷ []) taken t (record t' { outbound_rx = tx })
      take :
          {n : ℕ} {posted : List OutboundMessage} {taken : List InboundMessage} {t t' : Task}
          (m : InboundMessage) (rx : c.Chan InboundMessage)
          → Run n posted taken t t'
          → c.poll_recv t'.inbound_tx ≡ (ready (some m), rx)
          → Run n posted (taken ++ m ∷ []) t (record t' { inbound_tx = rx })
