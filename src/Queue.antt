-- ===== src/Queue.antt =====
-- src/queue.rs: MessageQueue, which puts the messages of a connection in the order of their nonces.
-- The proofs are in the modules below.
pub mod Set
pub mod Delivery
pub mod Order
pub mod Session
pub mod Gap
use rust_libp2p_nym.Prelude.{
  ℕ, suc, ◌+◌, ◌%◌, ◌^◌, Bool, List, [], ◌∷◌, ◌++◌, Option, none, some, Outcome, ok, panic, ltb,
  ◌==◌, if◌then◌else◌,
}
use rust_libp2p_nym.Message.TransportMessage.{TransportMessage}
use Set.{insert}

pub record MessageQueue : Type 0 where
  pub next_expected_nonce : ℕ
  pub queue : List TransportMessage

-- `n.wrapping_add(1)` on a u64.
abbrev pub wrapping_inc : ℕ → ℕ
wrapping_inc n = (n + 1) % 2 ^ 64

abbrev pub new : MessageQueue
new = record { next_expected_nonce = 0; queue = [] }

unfoldable pub set_connection_message_received :
    {E : Type 0} → MessageQueue → Outcome E MessageQueue
set_connection_message_received q =
    if q.next_expected_nonce == 0
    then ok (record q { next_expected_nonce = wrapping_inc q.next_expected_nonce })
    else panic

-- Whether `insert` found a duplicate only changes what is logged.
unfoldable pub try_push : MessageQueue → TransportMessage → Option TransportMessage × MessageQueue
try_push q msg =
    if msg.nonce == q.next_expected_nonce
    then (some msg, record q { next_expected_nonce = wrapping_inc q.next_expected_nonce })
    else if ltb msg.nonce q.next_expected_nonce
    then (none, q)
    else (none, record q { queue = (insert msg q.queue).1 })

unfoldable pub pop : MessageQueue → Option TransportMessage × MessageQueue
pop q = elim q.queue [
  | [] ↦ (none, q)
  | head ∷ rest ↦
      if head.nonce == q.next_expected_nonce
      then (
        some head,
        record { next_expected_nonce = wrapping_inc q.next_expected_nonce; queue = rest },
      )
      else (none, q)
]
