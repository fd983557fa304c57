-- ===== src/Mixnet/Turns.antt =====
-- src/mixnet.rs: what the task has read, handed on and written, in one turn.
use rust_libp2p_nym.Prelude.{
  ℕ, ◌≡◌, ◌⊎◌, inl, inr, refl, sym, ap, subst, ◌∙◌, List, [], ◌∷◌, ◌++◌, append-nil, append_assoc,
  map, Option, none, some, ok,
}
use rust_libp2p_nym.Prelude.Omits.{Omits, Omits-refl, Omits-trans, Omits-middle}
use rust_libp2p_nym.Foreign.{Foreign}
use rust_libp2p_nym.Channel.{Channels, ChannelLaws, ready}
use rust_libp2p_nym.Message.Wire.{OutboundMessage}
use rust_libp2p_nym.Mixnet.{Task, check_inbound, check_outbound, write_bytes, sent_or}
use rust_libp2p_nym.Mixnet.Client.{WsMessage, Frame, Websocket, WebsocketLaws}
use rust_libp2p_nym.Mixnet.Inbound.{decoded, IsHeard, check_inbound-Reads}
use rust_libp2p_nym.Mixnet.Run.{frame_of, recv, Turn}

module _ ⦃f : Foreign⦄ ⦃w : Websocket⦄ ⦃c : Channels⦄ where
  -- The frames that have been written, and behind them those of the messages that wait to be.
  abbrev pub outgoing : Task → List WsMessage
  outgoing t = w.written t.socket ++ map frame_of (c.contents t.outbound_rx)

  -- What a turn does: `frames` are read, the messages in them are handed on, and at most `n` messages
  -- get lost on the way out.
  pub record Proceeds (n : ℕ) (t t' : Task) : Type 0 where
    pub frames : List Frame
    pub consumed : w.incoming t.socket ≡ frames ++ w.incoming t'.socket
    pub contents : c.contents t'.inbound_tx ≡ c.contents t.inbound_tx ++ decoded frames
    pub outbound : Omits n (outgoing t) (outgoing t')
    pub heard : IsHeard t'

  sent_or_socket : (p : Option f.WsError × w.Socket) → (sent_or p).1 ≡ p.1
  sent_or_socket (none, s) = refl
  sent_or_socket (some e, s) = refl

  sent_or_ok : (p : Option f.WsError × w.Socket) → (sent_or p).0 ≡ ok tt → p.0 ≡ none
  sent_or_ok (none, s) h = refl
  sent_or_ok (some e, s) h = absurd (cc h)

  module _ (laws : ChannelLaws) (wlaws : WebsocketLaws) where
    inbound-Proceeds : (t : Task) → IsHeard t → Proceeds 0 t (check_inbound t).1
    inbound-Proceeds t h =
        let r = check_inbound-Reads laws wlaws t h in
        record {
          frames = _;
          consumed = r.consumed;
          contents = r.contents;
          outbound = rw (r.written, r.outbound) (Omits-refl (outgoing t));
          heard = r.heard;
        }

    -- A message that is taken off the channel and whose frame is appended stays in its place.
    written_lem :
        (t : Task) (m : OutboundMessage) (written : List WsMessage)
        → (c.poll_recv t.outbound_rx).0 ≡ ready (some m)
        → written ≡ w.written t.socket ++ frame_of m ∷ []
        → written ++ map frame_of (c.contents (recv t).outbound_rx) ≡ outgoing t
    written_lem t m written e k =
        rw
          (
            laws.received m t.outbound_rx (recv t).outbound_rx
                (ap (λ p. (p, (recv t).outbound_rx)) e),
            k,
          )
          (append_assoc (w.written t.socket) (frame_of m ∷ []) _)

    -- If nothing says whether it has been appended, it may be missing.
    perhaps_written :
        (t : Task) (m : OutboundMessage) (written : List WsMessage)
        → (c.poll_recv t.outbound_rx).0 ≡ ready (some m)
        → (written ≡ w.written t.socket) ⊎ (written ≡ w.written t.socket ++ frame_of m ∷ [])
        → Omits 1 (outgoing t) (written ++ map frame_of (c.contents (recv t).outbound_rx))
    perhaps_written t m written e (inl k) =
        rw
          (
            laws.received m t.outbound_rx (recv t).outbound_rx
                (ap (λ p. (p, (recv t).outbound_rx)) e),
            k,
          )
          (Omits-middle (w.written t.socket) (frame_of m) _)
    perhaps_written t m written e (inr k) =
        rw (written_lem t m written e k) (Omits-refl (outgoing t))

    check_outbound-Proceeds :
        (n : ℕ) (t : Task) (m : OutboundMessage)
        → IsHeard t
        → Omits n (outgoing t) (
            w.written (w.send_message (frame_of m) t.socket).1
            ++ map frame_of (c.contents (recv t).outbound_rx))
        → Proceeds n t (check_outbound (some m) (recv t)).1
    unfolding check_outbound write_bytes
    check_outbound-Proceeds n t m h o =
        let same = sent_or_socket (w.send_message (frame_of m) t.socket) in
        record {
          frames = [];
          consumed = sym (ap w.incoming same ∙ wlaws.send_incoming (frame_of m) t.socket);
          contents = sym (append-nil _);
          outbound = rw same o;
          heard = record { inbound = h.inbound; notified = h.notified };
        }

    pub Turn-Proceeds : {n : ℕ} {t t' : Task} → Turn n t t' → IsHeard t → Proceeds n t t'
    unfolding check_outbound write_bytes
    Turn-Proceeds (Turn.inbound t) h = inbound-Proceeds t h
    Turn-Proceeds (Turn.wrote t m e k) h =
        let whole = wlaws.send_written (frame_of m) t.socket (sent_or_ok _ k) in
        check_outbound-Proceeds 0 t m h
          (subst (Omits 0 (outgoing t)) (sym (written_lem t m _ e whole)) (Omits-refl (outgoing t)))
    Turn-Proceeds (Turn.failed t m e k) h =
        check_outbound-Proceeds 1 t m h
          (perhaps_written t m _ e (wlaws.send_failed (frame_of m) t.socket))
    Turn-Proceeds (Turn.cancelled t m e) h =
        let dropped = record (recv t) { socket = w.drop_send (frame_of m) t.socket } in
        let p = inbound-Proceeds dropped (record { inbound = h.inbound; notified = h.notified }) in
        record {
          frames = p.frames;
          consumed = sym (wlaws.drop_incoming (frame_of m) t.socket) ∙ p.consumed;
          contents = p.contents;
          outbound =
              Omits-trans (perhaps_written t m _ e (wlaws.drop_written (frame_of m) t.socket))
                p.outbound;
          heard = p.heard;
        }
    Turn-Proceeds (Turn.closed t e) h =
        let waits = laws.not_received t.outbound_rx λ a x. absurd (cc (e, x)) in
        record {
          frames = [];
          consumed = refl;
          contents = sym (append-nil _);
          outbound = rw waits (Omits-refl (outgoing t));
          heard = record { inbound = h.inbound; notified = h.notified };
        }
