-- ===== src/Transport/Branches.antt =====
-- src/transport.rs: what the handlers of requests and responses do on each branch of their guards, and
-- how the loop over the queue returns.
use rust_libp2p_nym.Prelude.{
  ℕ, zero, suc, ◌<◌, ◌≡◌, ◌⊎◌, refl, ◌==◌, some, none, Option-cases, Bool-cases, arith, inl, inr,
  ok, err, panic, length,
}
use rust_libp2p_nym.Prelude.HashMap
use rust_libp2p_nym.Foreign.{Foreign}
use rust_libp2p_nym.Channel.{Channels}
use rust_libp2p_nym.Error.{Error}
use rust_libp2p_nym.Message.SubstreamMessage.{SubstreamMessage}
use rust_libp2p_nym.Message.TransportMessage.{TransportMessage}
use rust_libp2p_nym.Message.ConnectionMessage.{ConnectionMessage}
use rust_libp2p_nym.Message.ConnectionId.{ConnectionId_key}
use rust_libp2p_nym.Queue.{MessageQueue, wrapping_inc, pop, set_connection_message_received}
use rust_libp2p_nym.Connection.{Connection, PendingConnection}
use rust_libp2p_nym.Transport.State.{NymTransport}
use rust_libp2p_nym.Transport.Opening.{forward_queued}
use rust_libp2p_nym.Transport.Handlers.{
  resolve_dial, handle_connection_response, accept, handle_connection_request,
}

pop_shorter :
    (q : MessageQueue) (m : TransportMessage)
    → (pop q).0 ≡ some m
    → length q.queue ≡ suc (length (pop q).1.queue)
unfolding pop
pop_shorter q m e = ground arith

pub set_cases :
    {E : Type 0} (q : MessageQueue)
    → ((q' : MessageQueue) × (set_connection_message_received {E = E} q ≡ ok q'))
      ⊎ (set_connection_message_received {E = E} q ≡ panic)
unfolding set_connection_message_received
set_cases {E} q = elim (Bool-cases (q.next_expected_nonce == 0)) [
  | inl e ↦ inl (record q { next_expected_nonce = wrapping_inc q.next_expected_nonce }, rw e refl)
  | inr e ↦ inr (rw e refl)
]

module _ ⦃f : Foreign⦄ ⦃c : Channels⦄ where
  -- The loop over the queue runs to its end, or stops at a channel whose receiver is gone.
  pub forward_queued_returns :
      (fuel : ℕ) (q : MessageQueue) (ch : c.Chan SubstreamMessage)
      → length q.queue < fuel
      → ((forward_queued fuel q ch).0 ≡ ok tt)
        ⊎ ((forward_queued fuel q ch).0 ≡ err (Error.inbound_send_error f.send_error_text))
  unfolding forward_queued
  forward_queued_returns zero q ch le = absurd (omega arith)
  forward_queued_returns (suc fuel) q ch le = elim (Option-cases (pop q).0) [
    | inl e ↦ rw (forward_queued, e) (inl refl)
    | inr (m, e) ↦ elim (Option-cases (c.send m.message ch)) [
      | inl shut ↦ rw (forward_queued, e) (rw shut (inr refl))
      | inr (ch', sent) ↦
          rw (forward_queued, e)
            (rw sent (forward_queued_returns fuel (pop q).1 ch' (omega (arith, pop_shorter q m e))))
    ]
  ]

  pub request_without_recipient :
      (msg : ConnectionMessage) (t : NymTransport)
      → msg.recipient ≡ none
      → handle_connection_request msg t ≡ (err Error.none_recipient_in_connection_request, t)
  unfolding handle_connection_request
  request_without_recipient msg t e = rw (handle_connection_request, e) refl

  pub request_connected :
      (msg : ConnectionMessage) (recipient : f.Recipient) (t : NymTransport)
      (ch : c.Chan SubstreamMessage)
      → msg.recipient ≡ some recipient
      → HashMap.get msg.id t.connections ≡ some ch
      → handle_connection_request msg t ≡ (err Error.connection_id_exists, t)
  unfolding handle_connection_request
  request_connected msg recipient t ch e k = rw e (rw (handle_connection_request, k) refl)

  pub request_lem :
      (msg : ConnectionMessage) (recipient : f.Recipient) (t : NymTransport)
      → msg.recipient ≡ some recipient
      → HashMap.get msg.id t.connections ≡ none
      → handle_connection_request msg t ≡ accept msg recipient t
  unfolding handle_connection_request
  request_lem msg recipient t e k = rw e (rw (handle_connection_request, k) refl)

  -- The transport with the dial `id` no longer pending.
  abbrev pub undialled : ConnectionMessage → NymTransport → NymTransport
  undialled msg t = record t { pending_dials = HashMap.remove msg.id t.pending_dials }

  pub response_connected :
      (msg : ConnectionMessage) (t : NymTransport) (ch : c.Chan SubstreamMessage)
      → HashMap.get msg.id t.connections ≡ some ch
      → handle_connection_response msg t ≡ (err Error.connection_already_established, t)
  unfolding handle_connection_response
  response_connected msg t ch e = rw (handle_connection_response, e) refl

  pub response_unasked :
      (msg : ConnectionMessage) (t : NymTransport)
      → HashMap.get msg.id t.connections ≡ none
      → HashMap.get msg.id t.pending_dials ≡ none
      → handle_connection_response msg t ≡ (err Error.no_connection_for_response, t)
  unfolding handle_connection_response
  response_unasked msg t e k = rw (handle_connection_response, e) (rw k refl)

  pub response_lem :
      (msg : ConnectionMessage) (dial : PendingConnection Connection) (t : NymTransport)
      → HashMap.get msg.id t.connections ≡ none
      → HashMap.get msg.id t.pending_dials ≡ some dial
      → handle_connection_response msg t ≡ resolve_dial msg dial (undialled msg t)
  unfolding handle_connection_response
  response_lem msg dial t e k = rw (handle_connection_response, e) (rw k refl)
