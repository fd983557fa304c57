-- ===== src/Connection/Gap.antt =====
-- src/substream.rs, src/connection.rs and src/queue.rs together: what closing a substream twice does to
-- the connection.
use mathlib.Core.List.{Perm}
use rust_libp2p_nym.Prelude.{
  ℕ, suc, ◌+◌, ◌^◌, ◌<◌, ◌≡◌, refl, ap, ◌∙◌, subst, true, List, [], ◌∷◌, ◌++◌, length,
  length-append, All, All-append, arith, ok,
}
use rust_libp2p_nym.Foreign.{Foreign}
use rust_libp2p_nym.Channel.{Channels, ChannelLaws}
use rust_libp2p_nym.Message.TransportMessage.{TransportMessage}
use rust_libp2p_nym.Message.Wire.{
  Message, transport_message, connection_request, connection_response, OutboundMessage,
}
use rust_libp2p_nym.Substream.{Substream, Link, Call, poll_close, take_nonce}
use rust_libp2p_nym.Substream.Nonce.{IsClosed}
use rust_libp2p_nym.Substream.Closed.{closed_close}
use rust_libp2p_nym.Connection.{first_nonce}
use rust_libp2p_nym.Connection.Nonces.{Numbers}
use rust_libp2p_nym.Connection.Sending.{
  Reaches, transport_messages, Reaches-Numbered, Numbers-Consecutive,
}
use rust_libp2p_nym.Queue.{MessageQueue}
use rust_libp2p_nym.Queue.Order.{Consecutive}
use rust_libp2p_nym.Queue.Delivery.{IsSmall}
use rust_libp2p_nym.Queue.Session.{session}
use rust_libp2p_nym.Queue.Gap.{session-gap}

module _ ⦃f : Foreign⦄ ⦃c : Channels⦄ where
  transport_messages-append :
      (xs ys : List OutboundMessage)
      → transport_messages (xs ++ ys) ≡ transport_messages xs ++ transport_messages ys
  transport_messages-append [] ys = refl
  transport_messages-append (x ∷ xs) ys = of_message x.message (transport_messages-append xs ys)
    where
      of_message :
          (m : Message)
          → transport_messages (xs ++ ys) ≡ transport_messages xs ++ transport_messages ys
          → transport_messages (record x { message = m } ∷ xs ++ ys)
            ≡ transport_messages (record x { message = m } ∷ xs) ++ transport_messages ys
      of_message (transport_message t) e = ap (λ ts. t ∷ ts) e
      of_message (connection_request r) e = e
      of_message (connection_response r) e = e

  Numbers-next :
      (n : ℕ) (ms : List OutboundMessage) (n' : ℕ)
      → n + length ms < 2 ^ 64
      → Numbers n ms n'
      → n' ≡ n + length ms
  Numbers-next n [] n' b h = omega (arith, h)
  Numbers-next n (m ∷ ms) n' b (e, h) = omega (
    arith,
    Numbers-next (suc n) ms n' (omega (arith, b))
        (subst (λ j. Numbers j ms n') (omega (arith, b)) h),
  )

  module _ (laws : ChannelLaws) where
    -- Two stretches of a connection's life with one nonce skipped between them.
    skipped :
        (l l1 l2 : Link) (s : Substream)
        → IsClosed s
        → Reaches l l1
        → Reaches (poll_close s l1).link l2
        → l.message_nonce ≡ first_nonce
        → c.is_open l.outbound_tx ≡ true
        → c.contents l.outbound_tx ≡ []
        → length (c.contents l2.outbound_tx) + 2 < 2 ^ 64
        → (later : List TransportMessage) × (transport_messages (c.contents l2.outbound_tx)
            ≡ transport_messages (c.contents l1.outbound_tx) ++ later)
          × Consecutive 1 (transport_messages (c.contents l1.outbound_tx))
          × Consecutive (2 + length (transport_messages (c.contents l1.outbound_tx))) later
          × All IsSmall (transport_messages (c.contents l1.outbound_tx) ++ later)
    skipped l l1 l2 s shut r r' e o empty b =
        let h = Reaches-Numbered laws l l1 r o in
        let moved = ap (λ (x : Call (Unit {0})). x.link) (closed_close s l1 shut) in
        let k =
          Reaches-Numbered laws (take_nonce l1) l2 (subst (λ x. Reaches x l2) moved r')
            h.still_open in
        let first = h.outbound ∙ ap (λ xs. xs ++ h.messages) empty in
        let total = ap length k.outbound ∙ length-append (c.contents l1.outbound_tx) k.messages in
        let size = ap length first in
        let next =
          Numbers-next 1 h.messages l1.message_nonce (omega (arith, b, total, size))
            (subst (λ n. Numbers n h.messages l1.message_nonce) e h.numbers) in
        let (all, run, small) =
          Numbers-Consecutive 1 h.messages l1.message_nonce (omega (arith, b, total, size))
            (subst (λ n. Numbers n h.messages l1.message_nonce) e h.numbers) in
        let (_, run', small') =
          Numbers-Consecutive (2 + length h.messages) k.messages l2.message_nonce
            (omega (arith, b, total, size))
            (subst (λ n. Numbers n k.messages l2.message_nonce)
              (omega (arith, next, b, total, size)) k.numbers) in
        let early = ap transport_messages first in
        (
          transport_messages k.messages,
          ap transport_messages k.outbound
              ∙ transport_messages-append (c.contents l1.outbound_tx) k.messages,
          rw early run,
          rw (early, all) run',
          rw early (
              All-append IsSmall (transport_messages h.messages) (transport_messages k.messages)
                small small'),
        )

    -- A connection begins with the nonce 1 and an open channel to the mixnet that is empty; it and
    -- its substreams are polled, opened, written to and closed; then a substream is closed whose flag
    -- is already set; and then they go on, with fewer than 2^64 - 2 messages in all and no other
    -- such closing. The mixnet delivers each of the messages once, in any order, some before the
    -- connection message and some after it. Then the receiver's queue does not panic, it hands on,
    -- in order, what was sent before the second closing, and none of what was sent after it; and it
    -- keeps waiting for the nonce that the second closing took.
    pub second_close_stalls :
        {E : Type 0} (l l1 l2 : Link) (s : Substream) (before after : List TransportMessage)
        → IsClosed s
        → Reaches l l1
        → Reaches (poll_close s l1).link l2
        → l.message_nonce ≡ first_nonce
        → c.is_open l.outbound_tx ≡ true
        → c.contents l.outbound_tx ≡ []
        → length (c.contents l2.outbound_tx) + 2 < 2 ^ 64
        → Perm (transport_messages (c.contents l2.outbound_tx)) (before ++ after)
        → let early = transport_messages (c.contents l1.outbound_tx) in
          (q : MessageQueue) × (session {E = E} before after ≡ ok (early, q))
          × (q.next_expected_nonce ≡ 1 + length early)
    second_close_stalls l l1 l2 s before after shut r r' e o empty b p =
        let early = transport_messages (c.contents l1.outbound_tx) in
        let (later, whole, run, run', small) = skipped l l1 l2 s shut r r' e o empty b in
        session-gap early later before after run run' small
          (subst (λ xs. Perm xs (before ++ after)) whole p)
