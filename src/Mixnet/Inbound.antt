-- ===== src/Mixnet/Inbound.antt =====
-- src/mixnet.rs: which frames `check_inbound` turns into messages for the transport.
use rust_libp2p_nym.Prelude.{
  ◌≡◌, inl, inr, refl, sym, ap, ◌∙◌, true, List, [], ◌∷◌, ◌++◌, append-nil, append_assoc, Option,
  none, some, Option-cases, List-cases, take, ok, err, panic, stuck, ◌>>=◌,
}
use rust_libp2p_nym.Prelude.Exec
use rust_libp2p_nym.Foreign.{Foreign}
use rust_libp2p_nym.Channel.{Channels, ChannelLaws}
use rust_libp2p_nym.Error.{Result, Error}
use rust_libp2p_nym.Message.Wire.{InboundMessage, parse_message_data}
use rust_libp2p_nym.Mixnet.{
  parse_nym_message, msg_bytes, Task, send_inbound, handle_inbound, notify, handle_frame,
  check_inbound,
}
use rust_libp2p_nym.Mixnet.Client.{Frame, Websocket, WebsocketLaws}

module _ ⦃f : Foreign⦄ ⦃w : Websocket⦄ where
  -- The message in a frame: the frame is a response of the client, the response a received message,
  -- and its bytes are a message of the crate.
  abbrev pub message_in : Frame → Result InboundMessage
  message_in (inr e) = err (Error.websocket_stream_error e)
  message_in (inl msg) = parse_nym_message msg >>= msg_bytes >>= parse_message_data

  abbrev pub kept : Result InboundMessage → List InboundMessage
  kept (ok message) = message ∷ []
  kept (err e) = []
  kept panic = []
  kept stuck = []

  -- The messages in the frames, in their order; the other frames are left out.
  abbrev pub decoded : List Frame → List InboundMessage
  decoded [] = []
  decoded (frame ∷ frames) = kept (message_in frame) ++ decoded frames

  pub decoded-append : (xs ys : List Frame) → decoded (xs ++ ys) ≡ decoded xs ++ decoded ys
  decoded-append [] ys = refl
  decoded-append (x ∷ xs) ys =
      ap (λ zs. kept (message_in x) ++ zs) (decoded-append xs ys)
      ∙ sym (append_assoc (kept (message_in x)) (decoded xs) (decoded ys))

  module _ ⦃c : Channels⦄ where
    -- The receivers of what the task sends are there.
    pub record IsHeard (t : Task) : Type 0 where
      pub inbound : c.is_open t.inbound_tx ≡ true
      pub notified : (ch : c.Chan (Unit {0})) → t.notify_inbound_tx ≡ some ch → c.is_open ch ≡ true

    -- `messages` are handed to the transport, and the outbound side stays as it is.
    pub record HandsOn (t t' : Task) (messages : List InboundMessage) : Type 0 where
      pub contents : c.contents t'.inbound_tx ≡ c.contents t.inbound_tx ++ messages
      pub socket : t'.socket ≡ t.socket
      pub outbound : t'.outbound_rx ≡ t.outbound_rx
      pub heard : IsHeard t'

    -- `frames` are read off the socket, the messages in them are handed on, and the outbound side
    -- stays as it is.
    pub record Reads (t t' : Task) (frames : List Frame) : Type 0 where
      pub consumed : w.incoming t.socket ≡ frames ++ w.incoming t'.socket
      pub contents : c.contents t'.inbound_tx ≡ c.contents t.inbound_tx ++ decoded frames
      pub written : w.written t'.socket ≡ w.written t.socket
      pub outbound : t'.outbound_rx ≡ t.outbound_rx
      pub heard : IsHeard t'

    -- Handling a frame is reading its message and sending it.
    handle_frame_lem :
        (frame : Frame) (t : Task)
        → handle_frame frame t ≡ Exec.continue (message_in frame, t) send_inbound
    unfolding handle_inbound
    handle_frame_lem (inr e) t = refl
    handle_frame_lem (inl msg) t = sym (
        Exec.continue-bind (parse_nym_message msg >>= msg_bytes) parse_message_data send_inbound t
        ∙ Exec.continue-bind (parse_nym_message msg) msg_bytes _ t)

    -- The state behind the notification.
    abbrev notified : Option (c.Chan (Unit {0})) → Task → Task
    notified n t = record t { notify_inbound_tx = n }

    module _ (laws : ChannelLaws) where
      send_inbound-HandsOn :
          (message : InboundMessage) (t : Task)
          → IsHeard t
          → HandsOn t (send_inbound message t).1 (message ∷ [])
      unfolding send_inbound
      send_inbound-HandsOn message t h =
          let (ch, sent, holds, opened) = laws.send_open message t.inbound_tx h.inbound in
          rw (send_inbound, sent)
            (record {
              contents = holds;
              socket = refl;
              outbound = refl;
              heard = record { inbound = opened; notified = h.notified };
            })

      settled-HandsOn :
          (r : Result InboundMessage) (t : Task)
          → IsHeard t
          → HandsOn t (Exec.continue (r, t) send_inbound).1 (kept r)
      settled-HandsOn (ok message) t h = send_inbound-HandsOn message t h
      settled-HandsOn (err e) t h = record {
        contents = sym (append-nil _);
        socket = refl;
        outbound = refl;
        heard = h;
      }
      settled-HandsOn panic t h = record {
        contents = sym (append-nil _);
        socket = refl;
        outbound = refl;
        heard = h;
      }
      settled-HandsOn stuck t h = record {
        contents = sym (append-nil _);
        socket = refl;
        outbound = refl;
        heard = h;
      }

      handle_frame-HandsOn :
          (frame : Frame) (t : Task)
          → IsHeard t
          → HandsOn t (handle_frame frame t).1 (kept (message_in frame))
      handle_frame-HandsOn frame t h =
          rw (handle_frame_lem frame t) (settled-HandsOn (message_in frame) t h)

      notify_lem :
          (t : Task)
          → IsHeard t
          → (n : Option (c.Chan (Unit {0}))) × (notify t ≡ (ok tt, notified n t))
            × IsHeard (notified n t)
      unfolding notify
      notify_lem t h = elim (Option-cases t.notify_inbound_tx) [
        | inl e ↦ (
          none,
          rw (notify, e) (ap (λ n. (ok tt, notified n t)) e),
          record { inbound = h.inbound; notified = λ ch x. absurd (cc x) },
        )
        | inr (ch, e) ↦
            let (ch', sent, _, opened) = laws.send_open tt ch (h.notified ch e) in
            (
              some ch',
              rw (notify, e, sent) refl,
              record {
                inbound = h.inbound;
                notified = λ ch₂ x. let same : ch' ≡ ch₂ = cc x in rw (← same) opened;
              },
            )
      ]

      -- One call reads one frame, if there is one, and hands on the message in it.
      pub check_inbound-Reads :
          (wlaws : WebsocketLaws) (t : Task)
          → IsHeard t
          → Reads t (check_inbound t).1 (take 1 (w.incoming t.socket))
      unfolding check_inbound take
      check_inbound-Reads wlaws t h = elim (List-cases (w.incoming t.socket)) [
        | inl e ↦
            let (ended, none_left) = wlaws.next_end t.socket e in
            rw (check_inbound, ended, e)
              (record {
                consumed = e ∙ sym none_left;
                contents = sym (append-nil _);
                written = wlaws.next_written t.socket;
                outbound = refl;
                heard = record { inbound = h.inbound; notified = h.notified };
              })
        | inr (frame, frames, e) ↦
            let (yields, left) = wlaws.next_frame t.socket frame frames e in
            let t₁ = record t { socket = (w.next t.socket).1 } in
            let (n, told, k) =
              notify_lem t₁ (record { inbound = h.inbound; notified = h.notified }) in
            let done = handle_frame-HandsOn frame (notified n t₁) k in
            rw (check_inbound, yields, told, e)
              (record {
                consumed = rw (ap w.incoming done.socket, left) e;
                contents = rw append-nil done.contents;
                written = ap w.written done.socket ∙ wlaws.next_written t.socket;
                outbound = done.outbound;
                heard = done.heard;
              })
      ]
