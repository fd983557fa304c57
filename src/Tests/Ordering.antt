-- ===== src/Tests/Ordering.antt =====
-- The theorems on the order of messages, at messages that overtake each other.
use mathlib.Core.List.Perm
use rust_libp2p_nym.Prelude.{◌+◌, ◌≡◌, refl, List, [], ◌∷◌, length, ok, arith}
use rust_libp2p_nym.Message.TransportMessage.{TransportMessage}
use rust_libp2p_nym.Queue.{MessageQueue}
use rust_libp2p_nym.Queue.Delivery.{IsRun}
use rust_libp2p_nym.Queue.Session.{session, session-IsRun, session-in_order}
use rust_libp2p_nym.Tests.Data.{numbered, three}

-- The second message overtakes the first and the connection message.
session-in_order_example :
    (q : MessageQueue) × (session {E = Unit} (numbered 2 ∷ []) (numbered 1 ∷ numbered 3 ∷ [])
      ≡ ok (three, q))
session-in_order_example =
    session-in_order three (numbered 2 ∷ []) (numbered 1 ∷ numbered 3 ∷ [])
      (refl, (refl, (refl, tt))) (omega arith, (omega arith, (omega arith, tt)))
      (Perm.swap (numbered 2) (numbered 1) (numbered 3 ∷ []))

-- The third message never arrives, and the second arrives twice.
session-IsRun_example :
    (ds : List TransportMessage) × (q : MessageQueue) × (session {E = Unit}
        (numbered 2 ∷ [])
        (numbered 4 ∷ numbered 2 ∷ numbered 1 ∷ [])
      ≡ ok (ds, q))
    × IsRun 1 (numbered 2 ∷ numbered 4 ∷ numbered 2 ∷ numbered 1 ∷ []) ds
    × (q.next_expected_nonce ≡ 1 + length ds)
session-IsRun_example =
    session-IsRun (numbered 2 ∷ []) (numbered 4 ∷ numbered 2 ∷ numbered 1 ∷ []) (omega arith, tt)
      (omega arith, tt) (omega arith, (omega arith, (omega arith, tt)))
