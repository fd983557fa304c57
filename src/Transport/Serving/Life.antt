-- ===== src/Transport/Serving/Life.antt =====
-- src/transport.rs: what an established connection gets over any number of polls, with dials and
-- removals of the listener between them.
use rust_libp2p_nym.Prelude.{
  arith, ◌≡◌, refl, sym, ap, ◌∙◌, List, [], ◌∷◌, ◌++◌, append-nil, append_assoc, Bool-cases, inl,
  inr, some,
}
use rust_libp2p_nym.Prelude.HashMap
use rust_libp2p_nym.Prelude.HashMap.{HashMap}
use rust_libp2p_nym.Foreign.{Foreign}
use rust_libp2p_nym.Channel.{Channels, ChannelLaws, sent_contents}
use rust_libp2p_nym.Message.SubstreamMessage.{SubstreamMessage}
use rust_libp2p_nym.Message.TransportMessage.{TransportMessage}
use rust_libp2p_nym.Message.ConnectionId
use rust_libp2p_nym.Message.ConnectionId.{ConnectionId, ConnectionId_key}
use rust_libp2p_nym.Message.Wire.{InboundMessage}
use rust_libp2p_nym.Queue.{MessageQueue}
use rust_libp2p_nym.Queue.Delivery.{receive, receive_all}
use rust_libp2p_nym.Transport.State.{NymTransport}
use rust_libp2p_nym.Transport.Handlers.{queue_of}
use rust_libp2p_nym.Transport.Dialing.{dial, remove_listener, multiaddress_to_nym_address}
use rust_libp2p_nym.Transport.Forwarding.{Forwarded}
use rust_libp2p_nym.Transport.Delivery.{Serves}
use rust_libp2p_nym.Transport.Isolation.{
  messages_for, messages_for_own, messages_for_other, Forwarded-trans,
}
use rust_libp2p_nym.Transport.Polling.{poll}
use rust_libp2p_nym.Transport.Safety.Polling.{tables, tables-dial, tables-remove_listener}
use rust_libp2p_nym.Transport.Serving.{transported, own, Gets}
use rust_libp2p_nym.Transport.Serving.Polls.{poll-Gets}

receive_all-append :
    (q : MessageQueue) (xs ys : List TransportMessage)
    → let first = receive_all q xs in
      let rest = receive_all first.1 ys in receive_all q (xs ++ ys) ≡ (first.0 ++ rest.0, rest.1)
unfolding receive_all
receive_all-append q [] ys = refl
receive_all-append q (x ∷ xs) ys =
    let step = receive q x in
    rw (receive_all-append step.1 xs ys) (
      rw
        (append_assoc step.0 (receive_all step.1 xs).0 (receive_all (receive_all step.1 xs).1 ys).0)
        refl)

messages_for-append :
    (id : ConnectionId) (xs ys : List TransportMessage)
    → messages_for id (xs ++ ys) ≡ messages_for id xs ++ messages_for id ys
unfolding messages_for
messages_for-append id [] ys = refl
messages_for-append id (x ∷ xs) ys = elim (Bool-cases (ConnectionId.eq x.id id)) [
  | inl e ↦
      rw (messages_for_own x (xs ++ ys) id e, messages_for_own x xs id e)
        (ap (◌∷◌ x) (messages_for-append id xs ys))
  | inr e ↦
      rw (messages_for_other x (xs ++ ys) id e, messages_for_other x xs id e)
        (messages_for-append id xs ys)
]

module _ ⦃f : Foreign⦄ where
  transported-append :
      (xs ys : List InboundMessage) → transported (xs ++ ys) ≡ transported xs ++ transported ys
  transported-append [] ys = refl
  transported-append (x ∷ xs) ys =
      rw (transported-append xs ys) (sym (append_assoc _ (transported xs) (transported ys)))

  pub own-append :
      (id : ConnectionId) (xs ys : List InboundMessage) → own id (xs ++ ys) ≡ own id xs ++ own id ys
  own-append id xs ys =
      ap (messages_for id) (transported-append xs ys)
      ∙ messages_for-append id (transported xs) (transported ys)

module _ ⦃f : Foreign⦄ ⦃c : Channels⦄ where
  -- From one state to another: the swarm polls the transport, dials and removes listeners, and the
  -- mixnet's task sends messages, here all of `arrived`.
  pub data Life : List InboundMessage → NymTransport → NymTransport → Type 0 where
    begins : (t : NymTransport) → Life [] t t
    polled :
        {arrived : List InboundMessage} {t t' : NymTransport} (cx : f.Waker)
        → Life arrived t t'
        → Life arrived t (poll cx t').1
    dialled :
        {arrived : List InboundMessage} {t t' : NymTransport} (id : ConnectionId)
        (address : f.Multiaddr)
        → Life arrived t t'
        → Life arrived t (dial id address t').1
    removed :
        {arrived : List InboundMessage} {t t' : NymTransport} (id : f.ListenerId)
        → Life arrived t t'
        → Life arrived t (remove_listener id t').1
    sent :
        {arrived : List InboundMessage} {t t' : NymTransport} (m : InboundMessage)
        (stream : c.Chan InboundMessage)
        → Life arrived t t'
        → c.send m t'.inbound_stream ≡ some stream
        → Life (arrived ++ m ∷ []) t (record t' { inbound_stream = stream })

  -- The messages `ms` have been taken off the stream, the first of all that have waited in it, and the
  -- connection has got what its own among them release.
  pub record GetsInOrder (id : ConnectionId) (ch : c.Chan SubstreamMessage) (q : MessageQueue)
      (arrived : List InboundMessage) (t t' : NymTransport) : Type 0 where
    pub ms : List InboundMessage
    pub after : c.Chan SubstreamMessage
    pub consumed : c.contents t.inbound_stream ++ arrived ≡ ms ++ c.contents t'.inbound_stream
    pub serves : Serves t' id after (receive_all q (own id ms)).1
    pub forwarded : Forwarded ch after (receive_all q (own id ms)).0

  dial_stream :
      (id : ConnectionId) (address : f.Multiaddr) (t : NymTransport)
      → (dial id address t).1.inbound_stream ≡ t.inbound_stream
  unfolding dial multiaddress_to_nym_address
  dial_stream id address t = ground arith

  remove_listener_stream :
      (id : f.ListenerId) (t : NymTransport)
      → (remove_listener id t).1.inbound_stream ≡ t.inbound_stream
  unfolding remove_listener
  remove_listener_stream id t = ground arith

  module _ (laws : ChannelLaws) (id : ConnectionId) where
    polled-GetsInOrder :
        (ch : c.Chan SubstreamMessage) (q : MessageQueue) (arrived : List InboundMessage)
        (t t' t'' : NymTransport)
        → (g : GetsInOrder id ch q arrived t t')
        → Gets id g.after (receive_all q (own id g.ms)).1 t' t''
        → GetsInOrder id ch q arrived t t''
    polled-GetsInOrder ch q arrived t t' t'' g h =
        let both =
          ap (receive_all q) (own-append id g.ms h.ms)
          ∙ receive_all-append q (own id g.ms) (own id h.ms) in
        record {
          ms = g.ms ++ h.ms;
          after = h.after;
          consumed =
              g.consumed
              ∙ ap (λ ms. g.ms ++ ms) h.consumed
              ∙ sym (append_assoc g.ms h.ms (c.contents t''.inbound_stream));
          serves = rw both h.serves;
          forwarded = rw both (Forwarded-trans ch g.after h.after _ _ g.forwarded h.forwarded);
        }

    -- A step that changes neither the tables nor the stream.
    same-GetsInOrder :
        (ch : c.Chan SubstreamMessage) (q : MessageQueue) (arrived : List InboundMessage)
        (t t' t'' : NymTransport)
        → tables t'' ≡ tables t'
        → t''.inbound_stream ≡ t'.inbound_stream
        → GetsInOrder id ch q arrived t t'
        → GetsInOrder id ch q arrived t t''
    same-GetsInOrder ch q arrived t t' t'' e k g = record {
      ms = g.ms;
      after = g.after;
      consumed = g.consumed ∙ ap (λ s. g.ms ++ c.contents s) (sym k);
      serves = record {
        connection =
            ap
              (λ (p : HashMap ConnectionId (c.Chan SubstreamMessage)
                  × HashMap ConnectionId MessageQueue).
                HashMap.get id p.0)
              e
            ∙ g.serves.connection;
        opened = g.serves.opened;
        queue =
            ap
              (λ (p : HashMap ConnectionId (c.Chan SubstreamMessage)
                  × HashMap ConnectionId MessageQueue).
                queue_of (HashMap.get id p.1))
              e
            ∙ g.serves.queue;
      };
      forwarded = g.forwarded;
    }

    -- An established connection whose channel is open stays established over any number of polls,
    -- dials and removals of the listener, in any order and with anything arriving meanwhile, and
    -- gets exactly what its own transport messages among those that the polls have taken release, in
    -- that order.
    pub Life-GetsInOrder :
        (arrived : List InboundMessage) (t t' : NymTransport) (ch : c.Chan SubstreamMessage)
        (q : MessageQueue)
        → Life arrived t t'
        → Serves t id ch q
        → GetsInOrder id ch q arrived t t'
    unfolding receive_all messages_for
    Life-GetsInOrder _ _ _ ch q (Life.begins t) s = record {
      ms = [];
      after = ch;
      consumed = append-nil _;
      serves = s;
      forwarded = record { contents = sym (append-nil _); still_open = s.opened };
    }
    Life-GetsInOrder _ _ _ ch q (Life.polled {arrived = arrived} {t = t} {t' = t'} cx l) s =
        let g = Life-GetsInOrder arrived t t' ch q l s in
        polled-GetsInOrder ch q arrived t t' _ g (poll-Gets laws id cx t' g.after _ g.serves)
    Life-GetsInOrder _ _ _ ch q (Life.dialled {arrived = arrived} {t = t} {t' = t'} i address l) s =
        same-GetsInOrder ch q arrived t t' (dial i address t').1 (tables-dial i address t')
          (dial_stream i address t') (Life-GetsInOrder arrived t t' ch q l s)
    Life-GetsInOrder _ _ _ ch q (Life.removed {arrived = arrived} {t = t} {t' = t'} i l) s =
        same-GetsInOrder ch q arrived t t' (remove_listener i t').1 (tables-remove_listener i t')
          (remove_listener_stream i t') (Life-GetsInOrder arrived t t' ch q l s)
    Life-GetsInOrder _ _ _ ch q (Life.sent {arrived = arrived} {t = t} {t' = t'} m stream l e) s =
        let g = Life-GetsInOrder arrived t t' ch q l s in
        record {
          ms = g.ms;
          after = g.after;
          consumed =
              sym (append_assoc (c.contents t.inbound_stream) arrived (m ∷ []))
              ∙ ap (λ ms. ms ++ m ∷ []) g.consumed
              ∙ append_assoc g.ms (c.contents t'.inbound_stream) (m ∷ [])
              ∙ ap (λ ms. g.ms ++ ms) (sym (sent_contents laws m t'.inbound_stream stream e));
          serves = record {
            connection = g.serves.connection;
            opened = g.serves.opened;
            queue = g.serves.queue;
          };
          forwarded = g.forwarded;
        }
