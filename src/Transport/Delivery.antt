-- ===== src/Transport/Delivery.antt =====
-- src/transport.rs, `handle_transport_message`: what one connection gets of the messages of all.
use mathlib.Core.Path.{subst}
use rust_libp2p_nym.Prelude.{
  ◌≡◌, ◌≢◌, ◌⊎◌, refl, sym, ap, ◌∙◌, true, [], ◌∷◌, append-nil, append_assoc, none, some, arith,
  length, Option-cases, inl, inr, ok,
}
use rust_libp2p_nym.Prelude.HashMap
use rust_libp2p_nym.Prelude.HashMap.{Eq}
use rust_libp2p_nym.Foreign.{Foreign}
use rust_libp2p_nym.Channel.{Channels, ChannelLaws}
use rust_libp2p_nym.Message.SubstreamMessage.{SubstreamMessage}
use rust_libp2p_nym.Message.TransportMessage.{TransportMessage}
use rust_libp2p_nym.Message.ConnectionId.{ConnectionId, ConnectionId_key}
use rust_libp2p_nym.Queue.{MessageQueue, try_push}
use rust_libp2p_nym.Queue.Delivery.{pop_all, receive}
use rust_libp2p_nym.Transport.State.{NymTransport}
use rust_libp2p_nym.Transport.Opening.{drain, store}
use rust_libp2p_nym.Transport.Handlers.{queue_of, forward, handle_transport_message}
use rust_libp2p_nym.Transport.Forwarding.{Forwarded, forward_queued-pop_all}

pub try_push_cases :
    (q : MessageQueue) (m : TransportMessage)
    → ((try_push q m).0 ≡ none) ⊎ ((try_push q m).0 ≡ some m)
unfolding try_push
try_push_cases q m = ground arith

pub receive_held :
    (q : MessageQueue) (m : TransportMessage)
    → (try_push q m).0 ≡ none
    → receive q m ≡ ([], (try_push q m).1)
unfolding receive
receive_held q m e = ground arith

pub receive_passed :
    (q : MessageQueue) (m : TransportMessage)
    → (try_push q m).0 ≡ some m
    → let pushed = (try_push q m).1 in
      let rest = pop_all (length pushed.queue) pushed in receive q m ≡ (m ∷ rest.0, rest.1)
unfolding receive
receive_passed q m e = ground arith

module _ ⦃f : Foreign⦄ ⦃c : Channels⦄ where
  -- The connection `id` is established: `ch` is the open channel into it, and `q` its queue.
  pub record Serves (t : NymTransport) (id : ConnectionId) (ch : c.Chan SubstreamMessage)
      (q : MessageQueue) : Type 0 where
    pub connection : HashMap.get id t.connections ≡ some ch
    pub opened : c.is_open ch ≡ true
    pub queue : queue_of (HashMap.get id t.message_queues) ≡ q

  -- Nothing of the connection `id` has changed.
  pub record Untouched (id : ConnectionId) (t t' : NymTransport) : Type 0 where
    pub connection : HashMap.get id t'.connections ≡ HashMap.get id t.connections
    pub queue : HashMap.get id t'.message_queues ≡ HashMap.get id t.message_queues

  pub store-Untouched :
      (id own : ConnectionId) (q : MessageQueue) (ch : c.Chan SubstreamMessage) (t : NymTransport)
      → own ≢ id
      → Untouched id t (store own q ch t)
  store-Untouched id own q ch t ne = record {
    connection = HashMap.get-insert_ne own id ch t.connections ne;
    queue = HashMap.get-insert_ne own id q t.message_queues ne;
  }

  pub drain-Untouched :
      (id own : ConnectionId) (q : MessageQueue) (ch : c.Chan SubstreamMessage) (t : NymTransport)
      → own ≢ id
      → Untouched id t (drain own q ch t).1
  unfolding drain
  drain-Untouched id own q ch t ne = store-Untouched id own _ _ t ne

  forward-Untouched :
      (id : ConnectionId) (m : TransportMessage) (q : MessageQueue) (t : NymTransport)
      → m.id ≢ id
      → Untouched id t (forward m q t).1
  unfolding forward
  forward-Untouched id m q t ne = elim (Option-cases (HashMap.get m.id t.connections)) [
    | inl e ↦ rw (forward, e) (record { connection = refl; queue = refl })
    | inr (ch, e) ↦ elim (Option-cases (c.send m.message ch)) [
      | inl shut ↦ rw (forward, e) (rw shut (record { connection = refl; queue = refl }))
      | inr (ch', sent) ↦ rw (forward, e) (rw sent (drain-Untouched id m.id q ch' t ne))
    ]
  ]

  unfoldable pub queued : (m : TransportMessage) (t : NymTransport) → NymTransport
  queued m t = record t {
    message_queues =
        HashMap.insert m.id (try_push (queue_of (HashMap.get m.id t.message_queues)) m).1
          t.message_queues;
  }

  pub handle_held :
      (m : TransportMessage) (t : NymTransport)
      → (try_push (queue_of (HashMap.get m.id t.message_queues)) m).0 ≡ none
      → handle_transport_message m t ≡ (ok tt, queued m t)
  unfolding handle_transport_message queued
  handle_held m t e = rw (handle_transport_message, e)

  pub handle_passed :
      (m : TransportMessage) (t : NymTransport)
      → (try_push (queue_of (HashMap.get m.id t.message_queues)) m).0 ≡ some m
      → handle_transport_message m t
        ≡ forward m (try_push (queue_of (HashMap.get m.id t.message_queues)) m).1 (queued m t)
  unfolding handle_transport_message queued
  handle_passed m t e = rw (handle_transport_message, e)

  queued-Untouched :
      (id : ConnectionId) (m : TransportMessage) (t : NymTransport)
      → m.id ≢ id
      → Untouched id t (queued m t)
  unfolding queued
  queued-Untouched id m t ne = record {
    connection = refl;
    queue = HashMap.get-insert_ne m.id id _ t.message_queues ne;
  }

  -- A message for one connection, whatever becomes of it, changes neither the channel nor the queue of
  -- another.
  pub handle_transport_message-Untouched :
      (id : ConnectionId) (m : TransportMessage) (t : NymTransport)
      → m.id ≢ id
      → Untouched id t (handle_transport_message m t).1
  handle_transport_message-Untouched id m t ne =
      let q = queue_of (HashMap.get m.id t.message_queues) in
      let first = queued-Untouched id m t ne in
      elim (try_push_cases q m) [
        | inl held ↦ rw (handle_held m t held) first
        | inr passed ↦
            let second = forward-Untouched id m (try_push q m).1 (queued m t) ne in
            rw (handle_passed m t passed) (record {
              connection = second.connection ∙ first.connection;
              queue = second.queue ∙ first.queue;
            })
      ]

  pub Serves-Untouched :
      (id : ConnectionId) (t t' : NymTransport) (ch : c.Chan SubstreamMessage) (q : MessageQueue)
      → Untouched id t t'
      → Serves t id ch q
      → Serves t' id ch q
  Serves-Untouched id t t' ch q u s = record {
    connection = u.connection ∙ s.connection;
    opened = s.opened;
    queue = ap queue_of u.queue ∙ s.queue;
  }

  queued-Serves :
      (m : TransportMessage) (t : NymTransport) (ch : c.Chan SubstreamMessage)
      → HashMap.get m.id t.connections ≡ some ch
      → c.is_open ch ≡ true
      → Serves (queued m t) m.id ch (try_push (queue_of (HashMap.get m.id t.message_queues)) m).1
  unfolding queued
  queued-Serves m t ch e o = record {
    connection = e;
    opened = o;
    queue = ap queue_of (HashMap.get-insert_self m.id _ t.message_queues);
  }

  module _ (laws : ChannelLaws) where
    pub drain_lem :
        (id : ConnectionId) (q : MessageQueue) (ch : c.Chan SubstreamMessage) (t : NymTransport)
        → c.is_open ch ≡ true
        → let popped = pop_all (length q.queue) q in
          (ch' : c.Chan SubstreamMessage) × (drain id q ch t ≡ (ok tt, store id popped.1 ch' t))
          × Forwarded ch ch' popped.0
    unfolding drain
    drain_lem id q ch t o =
        let (ch', e, done) =
          forward_queued-pop_all laws (length q.queue) q.next_expected_nonce q.queue ch
            (omega arith) o in
        (ch', rw (drain, e), done)

    pub store-Serves :
        (id : ConnectionId) (q : MessageQueue) (ch : c.Chan SubstreamMessage) (t : NymTransport)
        → c.is_open ch ≡ true
        → Serves (store id q ch t) id ch q
    store-Serves id q ch t o = record {
      connection = HashMap.get-insert_self id ch t.connections;
      opened = o;
      queue = ap queue_of (HashMap.get-insert_self id q t.message_queues);
    }

    forward_lem :
        (m : TransportMessage) (q : MessageQueue) (ch : c.Chan SubstreamMessage) (t : NymTransport)
        → HashMap.get m.id t.connections ≡ some ch
        → c.is_open ch ≡ true
        → let popped = pop_all (length q.queue) q in
          (ch' : c.Chan SubstreamMessage) × (forward m q t ≡ (ok tt, store m.id popped.1 ch' t))
          × Forwarded ch ch' (m ∷ popped.0)
    unfolding forward
    forward_lem m q ch t e o =
        let (mid, sent, k, o') = laws.send_open m.message ch o in
        let (ch', drained, done) = drain_lem m.id q mid t o' in
        (
          ch',
          rw (forward, e) (rw sent drained),
          record { contents = done.contents ∙ rw (k, append_assoc); still_open = done.still_open },
        )

    served :
        (m : TransportMessage) (t : NymTransport) (ch : c.Chan SubstreamMessage)
        → HashMap.get m.id t.connections ≡ some ch
        → c.is_open ch ≡ true
        → let q = queue_of (HashMap.get m.id t.message_queues) in
          (ch' : c.Chan SubstreamMessage) × ((handle_transport_message m t).0 ≡ ok tt)
          × Serves (handle_transport_message m t).1 m.id ch' (receive q m).1
          × Forwarded ch ch' (receive q m).0
    served m t ch e o =
        let q = queue_of (HashMap.get m.id t.message_queues) in
        elim (try_push_cases q m) [
          | inl held ↦
              rw (handle_held m t held, receive_held q m held)
                (
                  ch,
                  refl,
                  queued-Serves m t ch e o,
                  record { contents = sym (append-nil _); still_open = o },
                )
          | inr passed ↦
              let (ch', handled, done) =
                forward_lem m (try_push q m).1 ch (queued m t) (queued-Serves m t ch e o).connection
                  o in
              rw (handle_passed m t passed, receive_passed q m passed, handled)
                (ch', refl, store-Serves m.id _ ch' (queued m t) done.still_open, done)
        ]

    -- A message for an established connection whose channel is open is handled without an error or a
    -- panic. The connection then has the queue that receiving the message leaves, and its channel
    -- has, behind what it had, the payloads of what that releases: the message and the queued ones
    -- behind it, or nothing.
    pub handle_transport_message-Serves :
        (m : TransportMessage) (t : NymTransport) (ch : c.Chan SubstreamMessage) (q : MessageQueue)
        → Serves t m.id ch q
        → (ch' : c.Chan SubstreamMessage) × ((handle_transport_message m t).0 ≡ ok tt)
          × Serves (handle_transport_message m t).1 m.id ch' (receive q m).1
          × Forwarded ch ch' (receive q m).0
    handle_transport_message-Serves m t ch q s =
        subst
          (λ x.
            (ch' : c.Chan SubstreamMessage) × ((handle_transport_message m t).0 ≡ ok tt)
            × Serves (handle_transport_message m t).1 m.id ch' (receive x m).1
            × Forwarded ch ch' (receive x m).0)
          s.queue (served m t ch s.connection s.opened)
