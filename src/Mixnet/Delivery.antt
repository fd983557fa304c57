-- ===== src/Mixnet/Delivery.antt =====
-- src/mixnet.rs: what the task has read, handed on and written, after any number of turns and
-- whatever the transport does meanwhile.
use rust_libp2p_nym.Prelude.{
  ℕ, ◌+◌, ◌≡◌, refl, sym, ap, ◌∙◌, List, [], ◌∷◌, ◌++◌, append-nil, append_assoc, map, map-append,
  Option, some,
}
use rust_libp2p_nym.Prelude.Omits.{Omits, Omits-refl, Omits-trans, Omits-append, Omits-none}
use rust_libp2p_nym.Foreign.{Foreign}
use rust_libp2p_nym.Channel.{Channels, ChannelLaws, Poll, ready, sent_contents}
use rust_libp2p_nym.Message.Wire.{InboundMessage, OutboundMessage}
use rust_libp2p_nym.Mixnet.{Task}
use rust_libp2p_nym.Mixnet.Client.{Frame, Websocket, WebsocketLaws}
use rust_libp2p_nym.Mixnet.Inbound.{decoded, decoded-append, IsHeard}
use rust_libp2p_nym.Mixnet.Run.{frame_of, Run}
use rust_libp2p_nym.Mixnet.Turns.{outgoing, Proceeds, Turn-Proceeds}

module _ ⦃f : Foreign⦄ ⦃w : Websocket⦄ ⦃c : Channels⦄ where
  -- The same for a run, with what the transport posted and took.
  record Accounts (n : ℕ) (posted : List OutboundMessage) (taken : List InboundMessage)
      (t t' : Task) : Type 0 where
    frames : List Frame
    consumed : w.incoming t.socket ≡ frames ++ w.incoming t'.socket
    delivered : taken ++ c.contents t'.inbound_tx ≡ c.contents t.inbound_tx ++ decoded frames
    sent : Omits n (outgoing t ++ map frame_of posted) (outgoing t')
    heard : IsHeard t'

  module _ (laws : ChannelLaws) (wlaws : WebsocketLaws) where
    turn-Accounts :
        (n k : ℕ) (posted : List OutboundMessage) (taken : List InboundMessage) (t t' t'' : Task)
        → Accounts n posted taken t t'
        → Proceeds k t' t''
        → Accounts (n + k) posted taken t t''
    turn-Accounts n k posted taken t t' t'' a p = record {
      frames = a.frames ++ p.frames;
      consumed =
          rw (append_assoc a.frames p.frames (w.incoming t''.socket), ← p.consumed) a.consumed;
      delivered =
          rw
            (
              p.contents,
              ← append_assoc taken (c.contents t'.inbound_tx) (decoded p.frames),
              a.delivered,
              append_assoc (c.contents t.inbound_tx) (decoded a.frames) (decoded p.frames),
              decoded-append a.frames p.frames,
            )
            refl;
      sent = Omits-trans a.sent p.outbound;
      heard = p.heard;
    }

    post-Accounts :
        (n : ℕ) (posted : List OutboundMessage) (taken : List InboundMessage) (t t' : Task)
        (m : OutboundMessage) (tx : c.Chan OutboundMessage)
        → Accounts n posted taken t t'
        → c.send m t'.outbound_rx ≡ some tx
        → Accounts n (posted ++ m ∷ []) taken t (record t' { outbound_rx = tx })
    post-Accounts n posted taken t t' m tx a e = record {
      frames = a.frames;
      consumed = a.consumed;
      delivered = a.delivered;
      sent =
          rw
            (
              sent_contents laws m t'.outbound_rx tx e,
              map-append frame_of (c.contents t'.outbound_rx) (m ∷ []),
              map-append frame_of posted (m ∷ []),
              ← append_assoc (w.written t'.socket) (map frame_of (c.contents t'.outbound_rx))
                  (frame_of m ∷ []),
              ← append_assoc (outgoing t) (map frame_of posted) (frame_of m ∷ []),
            )
            (Omits-append (frame_of m ∷ []) a.sent);
      heard = record { inbound = a.heard.inbound; notified = a.heard.notified };
    }

    take-Accounts :
        (n : ℕ) (posted : List OutboundMessage) (taken : List InboundMessage) (t t' : Task)
        (m : InboundMessage) (rx : c.Chan InboundMessage)
        → Accounts n posted taken t t'
        → c.poll_recv t'.inbound_tx ≡ (ready (some m), rx)
        → Accounts n posted (taken ++ m ∷ []) t (record t' { inbound_tx = rx })
    take-Accounts n posted taken t t' m rx a e = record {
      frames = a.frames;
      consumed = a.consumed;
      delivered =
          append_assoc taken (m ∷ []) (c.contents rx)
          ∙ ap (λ ms. taken ++ ms) (sym (laws.received m t'.inbound_tx rx e))
          ∙ a.delivered;
      sent = a.sent;
      heard = record {
        inbound =
            ap (λ (p : Poll (Option InboundMessage) × c.Chan InboundMessage). c.is_open p.1) (sym e)
            ∙ laws.poll_open t'.inbound_tx
            ∙ a.heard.inbound;
        notified = a.heard.notified;
      };
    }

    Run-Accounts :
        {n : ℕ} {posted : List OutboundMessage} {taken : List InboundMessage} {t t' : Task}
        → Run n posted taken t t'
        → IsHeard t
        → Accounts n posted taken t t'
    Run-Accounts (Run.start t) h = record {
      frames = [];
      consumed = refl;
      delivered = sym (append-nil _);
      sent = rw append-nil (Omits-refl (outgoing t));
      heard = h;
    }
    Run-Accounts (Run.turn {t = t} {t' = t'} {t'' = t''} r s) h =
        let a = Run-Accounts r h in
        turn-Accounts _ _ _ _ t t' t'' a (Turn-Proceeds laws wlaws s a.heard)
    Run-Accounts (Run.post {t = t} {t' = t'} m tx r e) h =
        post-Accounts _ _ _ t t' m tx (Run-Accounts r h) e
    Run-Accounts (Run.take {t = t} {t' = t'} m rx r e) h =
        take-Accounts _ _ _ t t' m rx (Run-Accounts r h) e

    -- What the transport has been handed and has yet to take is, in this order, the messages in the
    -- frames that the task has read, behind what was in the channel; no message is lost, repeated or
    -- moved on the way in, whatever the turns on the way out do, as long as the receivers are there.
    pub Run-delivers :
        {n : ℕ} {posted : List OutboundMessage} {taken : List InboundMessage} {t t' : Task}
        → Run n posted taken t t'
        → IsHeard t
        → (frames : List Frame) × (w.incoming t.socket ≡ frames ++ w.incoming t'.socket)
          × (taken ++ c.contents t'.inbound_tx ≡ c.contents t.inbound_tx ++ decoded frames)
    Run-delivers r h = let a = Run-Accounts r h in (a.frames, a.consumed, a.delivered)

    -- What the task has written, with what still waits to be written, is what was written and
    -- waiting at the start and what the transport has posted since, in this order and each once,
    -- less at most one frame for each send that failed or was dropped.
    pub Run-sends :
        {n : ℕ} {posted : List OutboundMessage} {taken : List InboundMessage} {t t' : Task}
        → Run n posted taken t t'
        → IsHeard t
        → Omits n (outgoing t ++ map frame_of posted) (outgoing t')
    Run-sends r h = (Run-Accounts r h).sent

    -- Without such a send nothing is missing.
    pub Run-sends_all :
        {posted : List OutboundMessage} {taken : List InboundMessage} {t t' : Task}
        → Run 0 posted taken t t'
        → IsHeard t
        → outgoing t ++ map frame_of posted ≡ outgoing t'
    Run-sends_all r h = Omits-none refl (Run-sends r h)
