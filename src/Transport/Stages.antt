-- ===== src/Transport/Stages.antt =====
-- src/queue.rs, at a handshake: what the queue holds back before it, and what it hands on then and
-- later.
use mathlib.Core.List.{Perm}
use native.Mathlib.Bridge.{le_prop}
use rust_libp2p_nym.Prelude.{
  ◌≡◌, sym, ap, ◌∙◌, List, [], ◌++◌, arith, All, All-front, All-back, length, Outcome, ok, err,
  panic, stuck,
}
use rust_libp2p_nym.Message.TransportMessage.{TransportMessage}
use rust_libp2p_nym.Message.ConnectionId.{ConnectionId_key}
use rust_libp2p_nym.Queue
use rust_libp2p_nym.Queue.{MessageQueue, try_push}
use rust_libp2p_nym.Queue.Delivery.{receive_all, IsSmall, pop_all}
use rust_libp2p_nym.Queue.Order.{Consecutive, All-perm}
use rust_libp2p_nym.Queue.Session.{
  IsCounted, Consecutive-IsCounted, session_opens, session-in_order, nothing_early, still_zero,
  woken, later,
}
use rust_libp2p_nym.Transport.Establishment.{expecting_first}

abbrev handed :
    {E : Type 0} → Outcome E (List TransportMessage × MessageQueue) → List TransportMessage
handed (ok r) = r.0
handed (err e) = []
handed panic = []
handed stuck = []

-- The stages of a session: what is held back before the connection message, and what is handed on.
pub stages_in_order :
    (sent before after : List TransportMessage)
    → Consecutive 1 sent
    → All IsSmall sent
    → Perm sent (before ++ after)
    → let early = receive_all Queue.new before in
      let woken = pop_all (length early.1.queue) (expecting_first early.1) in
      (early.0 ≡ [])
      × (early.1.next_expected_nonce ≡ 0)
      × (woken.0 ++ (receive_all woken.1 after).0 ≡ sent)
stages_in_order sent before after consecutive small p =
    let counted = All-front IsCounted before after (
      All-perm IsCounted (λ m. le_prop) sent (before ++ after) p
        (Consecutive-IsCounted 1 sent (omega arith) consecutive)) in
    let smalls = All-perm IsSmall (λ m. le_prop) sent (before ++ after) p small in
    let first_small = All-front IsSmall before after smalls in
    let last_small = All-back IsSmall before after smalls in
    let (q, e) = session-in_order {E = Unit} sent before after consecutive small p in
    let none_early = nothing_early before after counted first_small last_small in
    (
      none_early,
      still_zero before after counted first_small last_small,
      sym (
            ap
              (λ l.
                l
                ++ ((woken before after counted first_small last_small).0
                    ++ (later before after counted first_small last_small).0))
              none_early)
          ∙ ap handed (sym (session_opens before after counted first_small last_small) ∙ e),
    )
