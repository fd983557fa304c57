-- ===== src/Transport/Safety.antt =====
-- src/transport.rs: the handlers do not panic as long as no message has the nonce 0. Here is the
-- invariant and the handler of transport messages.
pub mod Handshake
pub mod Polling
use rust_libp2p_nym.Prelude.{
  ℕ, zero, suc, ◌≤◌, ◌<◌, ◌≡◌, ◌≢◌, ◌⊎◌, refl, sym, ap, ◌∙◌, subst, List, [], ◌∷◌, some, none,
  Option-cases, Bool-cases, arith, inl, inr, Outcome, ok, err, panic, stuck, length, All, Bool,
  true, false, if◌then◌else◌,
}
use rust_libp2p_nym.Prelude.HashMap
use rust_libp2p_nym.Prelude.Exec.{modify, raise}
use rust_libp2p_nym.Prelude.Steps.{Safe, continue-Safe}
use rust_libp2p_nym.Foreign.{Foreign}
use rust_libp2p_nym.Channel.{Channels, ChannelLaws, Poll-cases, ready}
use rust_libp2p_nym.Error.{Error}
use rust_libp2p_nym.Message.SubstreamMessage.{SubstreamMessage}
use rust_libp2p_nym.Message.TransportMessage.{TransportMessage}
use rust_libp2p_nym.Message.ConnectionMessage.{ConnectionMessage}
use rust_libp2p_nym.Message.ConnectionId
use rust_libp2p_nym.Message.ConnectionId.{ConnectionId, ConnectionId_key}
use rust_libp2p_nym.Message.Wire.{
  Message, connection_request, connection_response, transport_message,
}
use rust_libp2p_nym.Queue.{MessageQueue, try_push, set_connection_message_received}
use rust_libp2p_nym.Connection.{Connection, PendingConnection}
use rust_libp2p_nym.Transport.State.{NymTransport}
use rust_libp2p_nym.Transport.Opening.{
  drain, open_queue, create_open_queue, handle_message_queue_on_connection_initiation,
}
use rust_libp2p_nym.Transport.Handlers.{
  wake, queue_of, insert_connection, resolve_dial, handle_connection_response, send_outbound,
  accept, handle_connection_request, forward, handle_transport_message,
}
use rust_libp2p_nym.Transport.Polling.{upgrade, handle_inbound}
use rust_libp2p_nym.Transport.Branches.{
  set_cases, request_without_recipient, request_connected, request_lem, undialled,
  response_connected, response_unasked, response_lem, forward_queued_returns,
}
use rust_libp2p_nym.Transport.Delivery.{
  Untouched, drain-Untouched, try_push_cases, queued, handle_held, handle_passed,
  handle_transport_message-Untouched,
}
use rust_libp2p_nym.Transport.Establishment.{initiation_of_insert}

held_of_zero :
    (q : MessageQueue) (m : TransportMessage)
    → q.next_expected_nonce ≡ 0
    → 1 ≤ m.nonce
    → ((try_push q m).0 ≡ none) × ((try_push q m).1.next_expected_nonce ≡ 0)
unfolding try_push
held_of_zero q m z n = ground arith

module _ ⦃f : Foreign⦄ ⦃c : Channels⦄ where
  -- The queue of `id` has not seen a connection message if there is no connection.
  abbrev HoldsBack : ConnectionId → NymTransport → Type 0
  HoldsBack id t =
      HashMap.get id t.connections ≡ none
      → (queue_of (HashMap.get id t.message_queues)).next_expected_nonce ≡ 0

  -- Only an established connection has a queue that expects another nonce than 0.
  abbrev pub IsHeldBack : NymTransport → Type 0
  IsHeldBack t = (id : ConnectionId) → HoldsBack id t

  Untouched-HoldsBack :
      (id : ConnectionId) (t t' : NymTransport)
      → Untouched id t t'
      → HoldsBack id t
      → HoldsBack id t'
  Untouched-HoldsBack id t t' u h k =
      ap (λ o. (queue_of o).next_expected_nonce) u.queue ∙ h (sym u.connection ∙ k)

  -- A call that touches one connection only keeps the invariant if it keeps it there.
  one-IsHeldBack :
      (own : ConnectionId) (t t' : NymTransport)
      → ((id : ConnectionId) → own ≢ id → Untouched id t t')
      → HoldsBack own t'
      → IsHeldBack t
      → IsHeldBack t'
  one-IsHeldBack own t t' others h all id = elim (Bool-cases (ConnectionId.eq own id)) [
    | inl same ↦ subst (λ i. HoldsBack i t') ((ConnectionId.eq_iff own id).0 same) h
    | inr differ ↦
        Untouched-HoldsBack id t t'
          (others id (λ e. absurd (cc (differ, (ConnectionId.eq_iff own id).1 e)))) (all id)
  ]

  drain_calm :
      (id : ConnectionId) (q : MessageQueue) (ch : c.Chan SubstreamMessage) (t : NymTransport)
      → (drain id q ch t).0 ≢ panic
  unfolding drain
  drain_calm id q ch t = elim (forward_queued_returns (suc (length q.queue)) q ch (omega arith)) [
    | inl e ↦ λ x. absurd (cc (e, x))
    | inr e ↦ λ x. absurd (cc (e, x))
  ]

  -- The message's own connection is connected before and behind it.
  forward_connected :
      (m : TransportMessage) (q : MessageQueue) (ch : c.Chan SubstreamMessage) (t : NymTransport)
      → HashMap.get m.id t.connections ≡ some ch
      → ((forward m q t).0 ≢ panic) × (HashMap.get m.id (forward m q t).1.connections ≢ none)
  unfolding forward
  forward_connected m q ch t e = elim (Option-cases (c.send m.message ch)) [
    | inl shut ↦ rw (forward, e) (rw shut (λ x. absurd (cc x), λ x. absurd (cc (e, x))))
    | inr (ch', sent) ↦ rw (forward, e) (rw sent (drain_calm m.id q ch' t, drained m.id q ch' t))
  ]
    where
      drained :
          (id : ConnectionId) (q : MessageQueue) (ch' : c.Chan SubstreamMessage) (t : NymTransport)
          → HashMap.get id (drain id q ch' t).1.connections ≢ none
      drained id q ch' t =
          unfold drain in λ x. absurd (cc (HashMap.get-insert_self id _ t.connections, x))

  connected-Safe :
      (m : TransportMessage) (ch : c.Chan SubstreamMessage) (t : NymTransport)
      → HashMap.get m.id t.connections ≡ some ch
      → IsHeldBack t
      → Safe IsHeldBack (handle_transport_message m t)
  unfolding queued
  connected-Safe m ch t e h =
      let kept = λ (other : HashMap.get m.id (handle_transport_message m t).1.connections ≢ none).
        one-IsHeldBack m.id t (handle_transport_message m t).1
          (λ id ne. handle_transport_message-Untouched id m t ne) (λ k. absurd (other k)) h in
      elim (try_push_cases (queue_of (HashMap.get m.id t.message_queues)) m) [
        | inl held ↦ record {
          calm = rw (handle_held m t held) (λ x. absurd (cc x));
          kept = kept (rw (handle_held m t held) (λ x. absurd (cc (e, x))));
        }
        | inr passed ↦
            let (calm, stays) = forward_connected m _ ch (queued m t) e in
            record {
              calm = rw (handle_passed m t passed) calm;
              kept = kept (rw (handle_passed m t passed) stays);
            }
      ]

  unconnected-Safe :
      (m : TransportMessage) (t : NymTransport)
      → HashMap.get m.id t.connections ≡ none
      → 1 ≤ m.nonce
      → IsHeldBack t
      → Safe IsHeldBack (handle_transport_message m t)
  unfolding queued
  unconnected-Safe m t e n h =
      let (held, zero_still) =
        held_of_zero (queue_of (HashMap.get m.id t.message_queues)) m (h m.id e) n in
      record {
        calm = rw (handle_held m t held) (λ x. absurd (cc x));
        kept =
            one-IsHeldBack m.id t (handle_transport_message m t).1
              (λ id ne. handle_transport_message-Untouched id m t ne)
              (λ k. rw (handle_held m t held) (
                ap (λ o. (queue_of o).next_expected_nonce)
                  (HashMap.get-insert_self m.id _ t.message_queues)
                ∙ zero_still))
              h;
      }

  handle_transport_message-Safe :
      (m : TransportMessage) (t : NymTransport)
      → 1 ≤ m.nonce
      → IsHeldBack t
      → Safe IsHeldBack (handle_transport_message m t)
  handle_transport_message-Safe m t n h = elim (Option-cases (HashMap.get m.id t.connections)) [
    | inl e ↦ unconnected-Safe m t e n h
    | inr (ch, e) ↦ connected-Safe m ch t e h
  ]
