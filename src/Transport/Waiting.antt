-- ===== src/Transport/Waiting.antt =====
-- src/transport.rs: a connection whose messages come before its handshake.
use rust_libp2p_nym.Prelude.{
  ◌≡◌, ◌≢◌, refl, sym, ap, ◌∙◌, subst, List, [], ◌∷◌, ◌++◌, Bool-cases, inl, inr, Option-cases,
  none,
}
use rust_libp2p_nym.Prelude.HashMap
use rust_libp2p_nym.Foreign.{Foreign}
use rust_libp2p_nym.Channel.{Channels}
use rust_libp2p_nym.Message.TransportMessage.{TransportMessage}
use rust_libp2p_nym.Message.ConnectionId
use rust_libp2p_nym.Message.ConnectionId.{ConnectionId, ConnectionId_key}
use rust_libp2p_nym.Queue.{MessageQueue, try_push}
use rust_libp2p_nym.Queue.Delivery.{receive, receive_all}
use rust_libp2p_nym.Transport.State.{NymTransport}
use rust_libp2p_nym.Transport.Opening.{drain}
use rust_libp2p_nym.Transport.Handlers.{queue_of, forward, handle_transport_message}
use rust_libp2p_nym.Transport.Delivery.{
  try_push_cases, receive_held, receive_passed, queued, handle_held, handle_passed,
  handle_transport_message-Untouched,
}
use rust_libp2p_nym.Transport.Isolation.{
  messages_for, messages_for_own, messages_for_other, other_id, handle_all,
}

front_nil : {A : Type 0} (xs ys : List A) → xs ++ ys ≡ [] → xs ≡ []
front_nil [] ys e = refl
front_nil (x ∷ xs) ys e = absurd (cc e)

back_nil : {A : Type 0} (xs ys : List A) → xs ++ ys ≡ [] → ys ≡ []
back_nil [] ys e = e
back_nil (x ∷ xs) ys e = absurd (cc e)

receive_nothing :
    (q : MessageQueue) (m : TransportMessage)
    → (receive q m).0 ≡ []
    → ((try_push q m).0 ≡ none) × ((receive q m).1 ≡ (try_push q m).1)
receive_nothing q m e = elim (try_push_cases q m) [
  | inl held ↦
      (held, ap (λ (r : List TransportMessage × MessageQueue). r.1) (receive_held q m held))
  | inr passed ↦
      absurd
        (cc (e, ap (λ (r : List TransportMessage × MessageQueue). r.0) (receive_passed q m passed)))
]

module _ ⦃f : Foreign⦄ ⦃c : Channels⦄ where
  -- The connection `id` is not there yet, and `q` is its queue.
  pub record Awaits (t : NymTransport) (id : ConnectionId) (q : MessageQueue) : Type 0 where
    pub connection : HashMap.get id t.connections ≡ none
    pub queue : queue_of (HashMap.get id t.message_queues) ≡ q

  forward_outbound :
      (m : TransportMessage) (q : MessageQueue) (t : NymTransport)
      → (forward m q t).1.outbound_tx ≡ t.outbound_tx
  unfolding forward drain
  forward_outbound m q t = elim (Option-cases (HashMap.get m.id t.connections)) [
    | inl e ↦ rw (forward, e) refl
    | inr (ch, e) ↦ elim (Option-cases (c.send m.message ch)) [
      | inl shut ↦ rw (forward, e) (rw shut refl)
      | inr (ch', sent) ↦ rw (forward, e) (rw sent refl)
    ]
  ]

  handle_outbound :
      (m : TransportMessage) (t : NymTransport)
      → (handle_transport_message m t).1.outbound_tx ≡ t.outbound_tx
  unfolding queued
  handle_outbound m t = elim (try_push_cases (queue_of (HashMap.get m.id t.message_queues)) m) [
    | inl held ↦ rw (handle_held m t held) refl
    | inr passed ↦ rw (handle_passed m t passed) (forward_outbound m _ (queued m t))
  ]

  pub handle_all-outbound_tx :
      (ms : List TransportMessage) (t : NymTransport)
      → (handle_all ms t).outbound_tx ≡ t.outbound_tx
  unfolding handle_all
  handle_all-outbound_tx [] t = refl
  handle_all-outbound_tx (m ∷ ms) t =
      handle_all-outbound_tx ms (handle_transport_message m t).1 ∙ handle_outbound m t

  held_lem :
      (m : TransportMessage) (t : NymTransport)
      → HashMap.get m.id t.connections ≡ none
      → (receive (queue_of (HashMap.get m.id t.message_queues)) m).0 ≡ []
      → Awaits
          (handle_transport_message m t).1
          m.id
          (receive (queue_of (HashMap.get m.id t.message_queues)) m).1
  unfolding queued
  held_lem m t e n =
      let (held, same) = receive_nothing (queue_of (HashMap.get m.id t.message_queues)) m n in
      rw (handle_held m t held, same)
        (record {
          connection = e;
          queue = ap queue_of (HashMap.get-insert_self m.id _ t.message_queues);
        })

  held-Awaits :
      (m : TransportMessage) (t : NymTransport) (id : ConnectionId) (q : MessageQueue)
      → m.id ≡ id
      → Awaits t id q
      → (receive q m).0 ≡ []
      → Awaits (handle_transport_message m t).1 id (receive q m).1
  held-Awaits m t id q e a n =
      subst (λ i. Awaits (handle_transport_message m t).1 i (receive q m).1) e
        (subst
          (λ x. (receive x m).0 ≡ [] → Awaits (handle_transport_message m t).1 m.id (receive x m).1)
          (ap (λ i. queue_of (HashMap.get i t.message_queues)) e ∙ a.queue)
          (held_lem m t (ap (λ i. HashMap.get i t.connections) e ∙ a.connection)) n)

  other-Awaits :
      (m : TransportMessage) (t : NymTransport) (id : ConnectionId) (q : MessageQueue)
      → m.id ≢ id
      → Awaits t id q
      → Awaits (handle_transport_message m t).1 id q
  other-Awaits m t id q ne a =
      let u = handle_transport_message-Untouched id m t ne in
      record { connection = u.connection ∙ a.connection; queue = ap queue_of u.queue ∙ a.queue }

  -- What comes too early changes only the queue.
  pub handle_all-Awaits :
      (id : ConnectionId) (ms : List TransportMessage) (t : NymTransport) (q : MessageQueue)
      → Awaits t id q
      → (receive_all q (messages_for id ms)).0 ≡ []
      → Awaits (handle_all ms t) id (receive_all q (messages_for id ms)).1
  unfolding handle_all receive_all
  handle_all-Awaits id [] t q a n = unfold messages_for in a
  handle_all-Awaits id (m ∷ ms) t q a n = elim (Bool-cases (ConnectionId.eq m.id id)) [
    | inl own ↦
        let e = messages_for_own m ms id own in
        let none_now = ap (λ l. (receive_all q l).0) (sym e) ∙ n in
        rw e (
          handle_all-Awaits id ms (handle_transport_message m t).1 (receive q m).1
            (held-Awaits m t id q ((ConnectionId.eq_iff m.id id).0 own) a (front_nil _ _ none_now))
            (back_nil _ _ none_now))
    | inr other ↦
        let e = messages_for_other m ms id other in
        rw e (
          handle_all-Awaits id ms (handle_transport_message m t).1 q
            (other-Awaits m t id q (other_id m id other) a)
            (ap (λ l. (receive_all q l).0) (sym e) ∙ n))
  ]
