-- ===== src/EndToEnd.antt =====
-- src/substream.rs, src/connection.rs, src/mixnet.rs, src/message.rs, src/queue.rs and
-- src/transport.rs together: from what one side of a connection does to what the other side's
-- connection gets.
use mathlib.Core.List.{Perm, Permᴰ, perm_middle}
use mathlib.Core.List.Perm
use rust_libp2p_nym.Prelude.{
  ℕ, ◌+◌, ◌^◌, ◌<◌, ◌≡◌, sym, ap, ◌∙◌, subst, true, List, [], ◌∷◌, ◌++◌, map, All, some, length,
}
use rust_libp2p_nym.Prelude.HashMap
use rust_libp2p_nym.Foreign.{Foreign, CodecLaws}
use rust_libp2p_nym.Channel.{Channels, ChannelLaws}
use rust_libp2p_nym.Message.SubstreamMessage.{SubstreamMessage}
use rust_libp2p_nym.Message.TransportMessage.{TransportMessage}
use rust_libp2p_nym.Message.ConnectionId.{ConnectionId, ConnectionId_key}
use rust_libp2p_nym.Message.Wire.{InboundMessage, OutboundMessage}
use rust_libp2p_nym.Queue
use rust_libp2p_nym.Queue.Delivery.{receive_all}
use rust_libp2p_nym.Substream.{Link}
use rust_libp2p_nym.Connection.{first_nonce}
use rust_libp2p_nym.Connection.Sending.{Reaches, transport_messages, Reaches-Consecutive}
use rust_libp2p_nym.Mixnet.{Task}
use rust_libp2p_nym.Mixnet.Client.{Websocket, WebsocketLaws}
use rust_libp2p_nym.Mixnet.Run.{frame_of, Run}
use rust_libp2p_nym.Mixnet.EndToEnd.{
  AreConveyed, as_inbound, CanBeRead, IsFresh, IsTaken, posted_messages_arrive,
}
use rust_libp2p_nym.Transport.State.{NymTransport}
use rust_libp2p_nym.Transport.Handlers.{queue_of}
use rust_libp2p_nym.Transport.Forwarding.{payloads}
use rust_libp2p_nym.Transport.Handshake.{Establishes}
use rust_libp2p_nym.Transport.Serving.{own}
use rust_libp2p_nym.Transport.Serving.Life.{Life, own-append}
use rust_libp2p_nym.Transport.Serving.Order.{polls-in_order}

-- Two blocks in front of a list change places.
swap_blocks : {A : Type 0} (xs ys zs : List A) → Perm (xs ++ (ys ++ zs)) (ys ++ (xs ++ zs))
swap_blocks [] ys zs = Perm.refl (ys ++ zs)
swap_blocks (x ∷ xs) ys zs =
    Perm.trans (Perm.cons x (swap_blocks xs ys zs)) (Perm.symm (perm_middle ys (xs ++ zs)))

module _ ⦃f : Foreign⦄ ⦃w : Websocket⦄ (id : ConnectionId) where
  -- The transport messages of the connection among outbound messages.
  abbrev pub posted_for : List OutboundMessage → List TransportMessage
  posted_for ms = own id (map as_inbound ms)

  abbrev one : OutboundMessage → List TransportMessage
  one m = own id (as_inbound m ∷ [])

  posted_for_cons :
      (m : OutboundMessage) (ms : List OutboundMessage)
      → posted_for (m ∷ ms) ≡ one m ++ posted_for ms
  posted_for_cons m ms = own-append id (as_inbound m ∷ []) (map as_inbound ms)

  posted_for-perm :
      {xs ys : List OutboundMessage} → Permᴰ xs ys → Perm (posted_for xs) (posted_for ys)
  posted_for-perm Permᴰ.nil = Perm.refl _
  posted_for-perm (Permᴰ.cons {a = a} {b = b} {l₁ = l} {l₂ = l'} e p) =
      rw (posted_for_cons a l, posted_for_cons b l')
        (subst (λ z. Perm (one a ++ posted_for l) (one z ++ posted_for l')) e
          (Perm.append_left (one a) (posted_for-perm p)))
  posted_for-perm (Permᴰ.swap {a = a} {b = b} {a' = a'} {b' = b'} {l = l} e e') =
      rw
        (
          posted_for_cons a (b ∷ l),
          posted_for_cons b l,
          posted_for_cons a' (b' ∷ l),
          posted_for_cons b' l,
        )
        (subst (λ z. Perm (one a ++ (one b ++ posted_for l)) (one a' ++ (one z ++ posted_for l))) e
          (subst (λ z. Perm (one a ++ (one b ++ posted_for l)) (one z ++ (one a ++ posted_for l)))
            e' (swap_blocks (one a) (one b) (posted_for l))))
  posted_for-perm (Permᴰ.trans p q) = Perm.trans (posted_for-perm p) (posted_for-perm q)

module _ ⦃f : Foreign⦄ ⦃w : Websocket⦄ ⦃c : Channels⦄ where
  -- The receiver: the connection has just been established by its handshake, on an ID that had had
  -- no queue; from then on messages arrive and the transport is used, until all that arrived has
  -- been polled.
  pub record Receives (id : ConnectionId) (arrived : List InboundMessage) (t' : NymTransport)
      : Type 0 where
    pub before : NymTransport
    pub established : NymTransport
    pub channel : c.Chan SubstreamMessage
    pub fresh : queue_of (HashMap.get id before.message_queues) ≡ Queue.new
    pub handshake : Establishes id before established channel
    pub nothing_waits : c.contents established.inbound_stream ≡ []
    pub life : Life arrived established t'
    pub all_polled : c.contents t'.inbound_stream ≡ []

  -- The sender: a connection with its substreams begins with the nonce 1 and an empty open channel,
  -- and sends fewer than 2^64 - 1 messages. Of the posted messages those of `id` are these, in this
  -- order.
  pub record Sends (id : ConnectionId) (posted : List OutboundMessage)
      (sent : List TransportMessage) : Type 0 where
    pub first : Link
    pub last : Link
    pub reaches : Reaches first last
    pub numbered : first.message_nonce ≡ first_nonce
    pub opened : c.is_open first.outbound_tx ≡ true
    pub empty : c.contents first.outbound_tx ≡ []
    pub few : length (c.contents last.outbound_tx) + 1 < 2 ^ 64
    pub all : sent ≡ transport_messages (c.contents last.outbound_tx)
    pub own_posted : posted_for id posted ≡ sent

  module _ (codecs : CodecLaws) (laws : ChannelLaws) (wlaws : WebsocketLaws) where
    -- The handshake of a connection is over, on an ID for which nothing had come before. On one side
    -- a connection and its substreams, from the nonce 1 on and with an open channel that is empty,
    -- are polled, opened, written to and closed in any order, with fewer than 2^64 - 1 messages and
    -- no substream closed whose flag is set. The task writes all that is posted there, by this and
    -- other connections, without a send that failed or was dropped, and all of it is encodable. The
    -- mixnet conveys every message once, in any order. The other side's task, with any turns of its
    -- own, reads and hands on all of it, and the other transport, which may dial and remove
    -- listeners meanwhile, polls it all. Then the other side's connection is there, and its channel
    -- holds what the one side has sent, all of it and in the order of sending.
    pub sent_arrives_in_order :
        (id : ConnectionId) {posted posted₂ : List OutboundMessage}
        {taken₁ taken : List InboundMessage} {n : ℕ} {a a' b b' : Task}
        (sent : List TransportMessage) (t : NymTransport)
        → Sends id posted sent
        → Run 0 posted taken₁ a a'
        → IsFresh a
        → c.contents a'.outbound_rx ≡ []
        → All CanBeRead posted
        → ((ms : List OutboundMessage)
            → w.written a'.socket ≡ w.written a.socket ++ map frame_of ms
            → (order : List OutboundMessage) × Permᴰ ms order
              × AreConveyed order (w.incoming b.socket))
        → Run n posted₂ taken b b'
        → IsFresh b
        → IsTaken b'
        → Receives id taken t
        → (ch : c.Chan SubstreamMessage) × (HashMap.get id t.connections ≡ some ch)
          × (c.contents ch ≡ payloads sent)
    sent_arrives_in_order id {posted = posted} {taken = taken} sent t s r fresh done readable mixnet
          r' fresh' done' v =
        let (order, p, same) =
          posted_messages_arrive laws wlaws codecs r r' fresh done fresh' done' readable mixnet in
        let (ms, added, _, consecutive, small) =
          Reaches-Consecutive laws s.first s.last s.reaches s.numbered s.opened s.few in
        let whole : sent ≡ transport_messages ms =
          s.all ∙ ap transport_messages (added ∙ ap (λ xs. xs ++ ms) s.empty) in
        let arrives : own id (c.contents v.established.inbound_stream ++ taken)
            ≡ posted_for id order =
          ap (λ xs. own id (xs ++ taken)) v.nothing_waits ∙ ap (own id) same in
        polls-in_order laws id [] sent v.before v.established t v.channel taken
          (unfold receive_all in v.fresh) v.handshake v.life v.all_polled (rw whole consecutive)
          (rw whole small)
          (subst (λ xs. Perm xs (own id (c.contents v.established.inbound_stream ++ taken)))
            s.own_posted
            (subst (λ xs. Perm (posted_for id posted) xs) (sym arrives) (posted_for-perm id p)))
