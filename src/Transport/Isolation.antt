-- ===== src/Transport/Isolation.antt =====
-- src/transport.rs, `handle_transport_message` over many messages: the connections do not see each
-- other.
use rust_libp2p_nym.Prelude.{
  ◌≡◌, ◌≢◌, sym, ◌∙◌, subst, true, false, List, [], ◌∷◌, ◌++◌, append-nil, append_assoc, Bool-cases,
  inl, inr, map-append, if◌then◌else◌,
}
use rust_libp2p_nym.Foreign.{Foreign}
use rust_libp2p_nym.Channel.{Channels, ChannelLaws}
use rust_libp2p_nym.Message.SubstreamMessage.{SubstreamMessage}
use rust_libp2p_nym.Message.TransportMessage.{TransportMessage}
use rust_libp2p_nym.Message.ConnectionId
use rust_libp2p_nym.Message.ConnectionId.{ConnectionId, ConnectionId_key}
use rust_libp2p_nym.Queue.{MessageQueue}
use rust_libp2p_nym.Queue.Delivery.{receive, receive_all}
use rust_libp2p_nym.Transport.State.{NymTransport}
use rust_libp2p_nym.Transport.Handlers.{handle_transport_message}
use rust_libp2p_nym.Transport.Forwarding.{Forwarded}
use rust_libp2p_nym.Transport.Delivery.{
  Serves, Serves-Untouched, handle_transport_message-Untouched, handle_transport_message-Serves,
}

-- The messages of one connection.
unfoldable pub messages_for : ConnectionId → List TransportMessage → List TransportMessage
messages_for id [] = []
messages_for id (m ∷ ms) =
    let rest = messages_for id ms in if ConnectionId.eq m.id id then m ∷ rest else rest

pub messages_for_own :
    (m : TransportMessage) (ms : List TransportMessage) (id : ConnectionId)
    → ConnectionId.eq m.id id ≡ true
    → messages_for id (m ∷ ms) ≡ m ∷ messages_for id ms
unfolding messages_for
messages_for_own m ms id e = rw e

pub messages_for_other :
    (m : TransportMessage) (ms : List TransportMessage) (id : ConnectionId)
    → ConnectionId.eq m.id id ≡ false
    → messages_for id (m ∷ ms) ≡ messages_for id ms
unfolding messages_for
messages_for_other m ms id e = rw e

pub other_id :
    (m : TransportMessage) (id : ConnectionId) → ConnectionId.eq m.id id ≡ false → m.id ≢ id
other_id m id e = λ same. absurd (cc (e, (ConnectionId.eq_iff m.id id).1 same))

module _ ⦃f : Foreign⦄ ⦃c : Channels⦄ where
  -- The handler on one message after the other. An error is reported, and what follows is
  -- handled all the same.
  unfoldable pub handle_all : List TransportMessage → NymTransport → NymTransport
  handle_all [] t = t
  handle_all (m ∷ ms) t = handle_all ms (handle_transport_message m t).1

  pub Forwarded-trans :
      (ch ch' ch'' : c.Chan SubstreamMessage) (xs ys : List TransportMessage)
      → Forwarded ch ch' xs
      → Forwarded ch' ch'' ys
      → Forwarded ch ch'' (xs ++ ys)
  Forwarded-trans ch ch' ch'' xs ys h k = record {
    contents = k.contents ∙ rw (h.contents, map-append, append_assoc);
    still_open = k.still_open;
  }

  module _ (laws : ChannelLaws) (id : ConnectionId) where
    pub own_first :
        (m : TransportMessage) (t : NymTransport) (ch : c.Chan SubstreamMessage) (q : MessageQueue)
        → m.id ≡ id
        → Serves t id ch q
        → (ch' : c.Chan SubstreamMessage) × Serves
            (handle_transport_message m t).1
            id
            ch'
            (receive q m).1
          × Forwarded ch ch' (receive q m).0
    own_first m t ch q e s =
        let (ch', done, s', w) =
          handle_transport_message-Serves laws m t ch q (subst (λ i. Serves t i ch q) (sym e) s) in
        (ch', subst (λ i. Serves (handle_transport_message m t).1 i ch' (receive q m).1) e s', w)

    -- Messages of all connections arrive interleaved in any way, at a transport where `id` is
    -- established and its channel is open. Then `id` has the queue that receiving its own messages
    -- leaves, and its channel has, behind what it had, the payloads of what that releases, in that
    -- order.
    pub handle_all-Serves :
        (ms : List TransportMessage) (t : NymTransport) (ch : c.Chan SubstreamMessage)
        (q : MessageQueue)
        → Serves t id ch q
        → (ch' : c.Chan SubstreamMessage) × Serves
            (handle_all ms t)
            id
            ch'
            (receive_all q (messages_for id ms)).1
          × Forwarded ch ch' (receive_all q (messages_for id ms)).0
    unfolding handle_all receive_all
    handle_all-Serves [] t ch q s =
        unfold messages_for in
        (ch, s, record { contents = sym (append-nil _); still_open = s.opened })
    handle_all-Serves (m ∷ ms) t ch q s = elim (Bool-cases (ConnectionId.eq m.id id)) [
      | inl own ↦
          let (ch', s', w) = own_first m t ch q ((ConnectionId.eq_iff m.id id).0 own) s in
          let (ch'', s'', w') =
            handle_all-Serves ms (handle_transport_message m t).1 ch' (receive q m).1 s' in
          rw (messages_for_own m ms id own) (ch'', s'', Forwarded-trans ch ch' ch'' _ _ w w')
      | inr other ↦
          let u = handle_transport_message-Untouched id m t (other_id m id other) in
          rw (messages_for_other m ms id other) (
            handle_all-Serves ms (handle_transport_message m t).1 ch q
              (Serves-Untouched id t _ ch q u s))
    ]
