-- ===== src/Mixnet/EndToEnd.antt =====
-- src/mixnet.rs and src/message.rs: what one transport posts is what another takes, through two
-- tasks and the mixnet between them.
use mathlib.Core.List.{Permᴰ}
use rust_libp2p_nym.Prelude.{
  ℕ, ◌≡◌, refl, sym, ap, ◌∙◌, inl, inr, List, [], ◌∷◌, ◌++◌, append-nil, map, All, All-permᴰ, ok,
}
use rust_libp2p_nym.Foreign.{Foreign, CodecLaws}
use rust_libp2p_nym.Channel.{Channels, ChannelLaws}
use rust_libp2p_nym.Message.Wire
use rust_libp2p_nym.Message.Wire.{InboundMessage, OutboundMessage, parse_message_data}
use rust_libp2p_nym.Message.Encodable.{IsEncodable}
use rust_libp2p_nym.Message.RoundTrip.{parse_message_data-to_bytes}
use rust_libp2p_nym.Mixnet.{parse_nym_message, Task}
use rust_libp2p_nym.Mixnet.Client.{ServerResponse, Frame, Websocket, WebsocketLaws}
use rust_libp2p_nym.Mixnet.Inbound.{message_in, decoded, IsHeard}
use rust_libp2p_nym.Mixnet.Run.{frame_of, Run}
use rust_libp2p_nym.Mixnet.Delivery.{Run-delivers, Run-sends_all}

module _ ⦃f : Foreign⦄ ⦃w : Websocket⦄ where
  -- The frame that reaches the other side: the client says that it has received the bytes of `m`.
  abbrev pub IsConveyed : OutboundMessage → Frame → Type 0
  IsConveyed m (inl msg) =
      parse_nym_message msg ≡ ok (ServerResponse.received (Wire.to_bytes m.message))
  IsConveyed m (inr e) = ⊥

  abbrev pub AreConveyed : List OutboundMessage → List Frame → Type 0
  AreConveyed [] [] = Unit
  AreConveyed (m ∷ ms) (frame ∷ frames) = IsConveyed m frame × AreConveyed ms frames
  AreConveyed [] (frame ∷ frames) = ⊥
  AreConveyed (m ∷ ms) [] = ⊥

  abbrev pub as_inbound : OutboundMessage → InboundMessage
  as_inbound m = record { message = m.message }

  abbrev pub CanBeRead : OutboundMessage → Type 0
  CanBeRead m = IsEncodable m.message

  message_in-IsConveyed :
      (laws : CodecLaws) (m : OutboundMessage) (frame : Frame)
      → CanBeRead m
      → IsConveyed m frame
      → message_in frame ≡ ok (as_inbound m)
  message_in-IsConveyed laws m (inl msg) h e = rw e (parse_message_data-to_bytes laws m.message h)
  message_in-IsConveyed laws m (inr e) h k = elim k [ ]

  -- The messages in the frames are those that were sent, if they are encodable.
  decoded-AreConveyed :
      (laws : CodecLaws) (ms : List OutboundMessage) (frames : List Frame)
      → All CanBeRead ms
      → AreConveyed ms frames
      → decoded frames ≡ map as_inbound ms
  decoded-AreConveyed laws [] [] h k = refl
  decoded-AreConveyed laws (m ∷ ms) (frame ∷ frames) h k =
      rw (message_in-IsConveyed laws m frame h.0 k.0)
        (ap (λ xs. as_inbound m ∷ xs) (decoded-AreConveyed laws ms frames h.1 k.1))
  decoded-AreConveyed laws [] (frame ∷ frames) h k = elim k [ ]
  decoded-AreConveyed laws (m ∷ ms) [] h k = elim k [ ]

  module _ ⦃c : Channels⦄ where
    -- Nothing waits in the channel to the transport, or in both channels.
    pub record IsFresh (t : Task) : Type 0 where
      pub inbound : c.contents t.inbound_tx ≡ []
      pub outbound : c.contents t.outbound_rx ≡ []
      pub heard : IsHeard t

    -- Everything that arrived has been taken.
    pub record IsTaken (t : Task) : Type 0 where
      pub inbound : c.contents t.inbound_tx ≡ []
      pub incoming : w.incoming t.socket ≡ []

    module _ (laws : ChannelLaws) (wlaws : WebsocketLaws) where
      all_written :
          {posted : List OutboundMessage} {taken : List InboundMessage} {t t' : Task}
          → Run 0 posted taken t t'
          → IsFresh t
          → c.contents t'.outbound_rx ≡ []
          → w.written t'.socket ≡ w.written t.socket ++ map frame_of posted
      all_written {t = t} {t' = t'} r h done =
          rw (h.outbound, done, append-nil (w.written t'.socket), append-nil (w.written t.socket))
            at (sym (Run-sends_all laws wlaws r h.heard))

      all_taken :
          {n : ℕ} {posted : List OutboundMessage} {taken : List InboundMessage} {t t' : Task}
          → Run n posted taken t t'
          → IsFresh t
          → IsTaken t'
          → taken ≡ decoded (w.incoming t.socket)
      all_taken {taken = taken} {t = t} r h done =
          let (frames, read, delivered) = Run-delivers laws wlaws r h.heard in
          let whole : frames ≡ w.incoming t.socket = rw (done.incoming, append-nil) at (sym read) in
          rw (done.inbound, h.inbound, append-nil, whole) at delivered

      -- Two tasks start with empty channels and go on, the one until all that was posted has been
      -- written, without a send that failed or was dropped, and the other until all that arrived has
      -- been taken. If what the one has written are the frames of some messages, then the mixnet
      -- conveys exactly these messages to the other, in any order. Then the other side's transport has
      -- taken what the one side's transport has posted, each message once and in the order of the
      -- mixnet; all of them must be encodable.
      pub posted_messages_arrive :
          (codecs : CodecLaws) {posted posted₂ : List OutboundMessage}
          {taken₁ taken : List InboundMessage} {n : ℕ} {a a' b b' : Task}
          → Run 0 posted taken₁ a a'
          → Run n posted₂ taken b b'
          → IsFresh a
          → c.contents a'.outbound_rx ≡ []
          → IsFresh b
          → IsTaken b'
          → All CanBeRead posted
          → ((ms : List OutboundMessage)
              → w.written a'.socket ≡ w.written a.socket ++ map frame_of ms
              → (order : List OutboundMessage) × Permᴰ ms order
                × AreConveyed order (w.incoming b.socket))
          → (order : List OutboundMessage) × Permᴰ posted order × (taken ≡ map as_inbound order)
      posted_messages_arrive codecs {posted = posted} {b = b} r s fresh done fresh' done' readable
            mixnet =
          let (order, p, conveyed) = mixnet posted (all_written r fresh done) in
          (
            order,
            p,
            all_taken s fresh' done'
                ∙ decoded-AreConveyed codecs order (w.incoming b.socket)
                    (All-permᴰ CanBeRead p readable) conveyed,
          )
