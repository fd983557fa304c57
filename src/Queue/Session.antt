-- ===== src/Queue/Session.antt =====
-- A connection's whole life at the receiver: messages that overtake the connection message, the
-- connection message itself, and the messages behind it.
use mathlib.Core.Path.{subst}
use mathlib.Core.List.{Perm}
use native.Mathlib.Bridge.{le_prop}
use rust_libp2p_nym.Prelude.{
  ℕ, suc, ◌+◌, ◌≤◌, ◌≡◌, refl, sym, ap, ◌∙◌, List, [], ◌∷◌, ◌++◌, none, arith, length,
  length-append, All, All-front, All-back, Outcome, ok, ◌>>=◌,
}
use rust_libp2p_nym.Message.TransportMessage.{TransportMessage}
use rust_libp2p_nym.Queue.{MessageQueue, new, set_connection_message_received}
use rust_libp2p_nym.Queue.Set.{Above, Above-From, find, find_below}
use rust_libp2p_nym.Queue.Delivery.{
  pop_all, receive_all, Run, IsRun, IsSmall, Synced, Ready, Delivers, Run-append, Run-extend,
}
use rust_libp2p_nym.Queue.Delivery.Loop.{pop_all-Delivers}
use rust_libp2p_nym.Queue.Delivery.Arrivals.{receive_all-Delivers}
use rust_libp2p_nym.Queue.Order.{
  Consecutive, Run-transfer, IsRun-unique, Consecutive-IsRun, Consecutive-Distinct, Distinct,
  find_perm, All-perm,
}

unfoldable pub session :
    {E : Type 0}
    → List TransportMessage
    → List TransportMessage
    → Outcome E (List TransportMessage × MessageQueue)
session before after =
    let early = receive_all new before in
    set_connection_message_received early.1 >>= λ q.
    let woken = pop_all (length q.queue) q in
    let later = receive_all woken.1 after in ok (early.0 ++ (woken.0 ++ later.0), later.1)

-- The nonces of a connection start at 1.
abbrev pub IsCounted : TransportMessage → Type 0
IsCounted m = 1 ≤ m.nonce

no_zero : (ms : List TransportMessage) → All IsCounted ms → find 0 ms ≡ none
unfolding find
no_zero [] h = refl
no_zero (m ∷ ms) h = ground (arith, no_zero ms h.1)

no-Run : (ms ds : List TransportMessage) → All IsCounted ms → Run 0 ms ds → ds ≡ []
no-Run ms [] c h = refl
no-Run ms (d ∷ ds) c h = cc (no_zero ms c, h.0)

stopped :
    (p : List TransportMessage) (q : MessageQueue)
    → Synced p q
    → find q.next_expected_nonce p ≡ none
stopped p q s =
    sym (s.found q.next_expected_nonce (omega arith))
    ∙ find_below q.next_expected_nonce q.next_expected_nonce q.queue s.above (omega arith)

module _ (before after : List TransportMessage) (counted : All IsCounted before)
    (small : All IsSmall before) (small' : All IsSmall after) where
  early : Delivers before 0 (receive_all new before)
  early =
      receive_all-Delivers 0 [] [] before small
        (record { above = tt; found = λ k le. refl; small = tt })

  pub nothing_early : (receive_all new before).0 ≡ []
  nothing_early = no-Run before (receive_all new before).0 counted early.run

  pub still_zero : (receive_all new before).1.next_expected_nonce ≡ 0
  still_zero = omega (arith, early.next, ap length nothing_early)

  abbrev pub waiting : List TransportMessage
  waiting = (receive_all new before).1.queue

  abbrev pub opened : MessageQueue
  opened = record { next_expected_nonce = 1; queue = waiting }

  woken_Ready : Ready before opened
  woken_Ready = record {
    above = Above-From 0 waiting (subst (λ n. Above n waiting) still_zero early.synced.above);
    found = λ k le. early.synced.found k (omega (arith, still_zero));
    small = early.synced.small;
  }

  abbrev pub woken : List TransportMessage × MessageQueue
  woken = pop_all (length waiting) opened

  woken_Delivers : Delivers before 1 woken
  woken_Delivers = pop_all-Delivers (length waiting) 1 before waiting (omega arith) woken_Ready

  abbrev pub later : List TransportMessage × MessageQueue
  later = receive_all woken.1 after

  later_Delivers : Delivers (before ++ after) woken.1.next_expected_nonce later
  later_Delivers =
      receive_all-Delivers woken.1.next_expected_nonce before woken.1.queue after small'
        woken_Delivers.synced

  whole_Run : Run 1 (before ++ after) (woken.0 ++ later.0)
  whole_Run =
      Run-append 1 woken.1.next_expected_nonce (before ++ after) woken.0 later.0 woken_Delivers.next
        (Run-extend 1 before after woken.0 woken_Delivers.run) later_Delivers.run

  whole_next : 1 + length (woken.0 ++ later.0) ≡ later.1.next_expected_nonce
  whole_next =
      omega (arith, length-append woken.0 later.0, woken_Delivers.next, later_Delivers.next)

  pub session_opens :
      {E : Type 0}
      → session {E = E} before after
        ≡ ok ((receive_all new before).0 ++ (woken.0 ++ later.0), later.1)
  unfolding session set_connection_message_received
  session_opens = rw (session, still_zero)

  -- Messages of a connection arrive in any order and with any repetitions, some before the connection
  -- message, with no nonce 0, and some after it, and none has the nonce 2^64 - 1 or a greater one.
  -- Then the queue does not panic, and what is handed on is the first arrival with nonce 1, the first
  -- with nonce 2 and so on, up to the first nonce that has not arrived, which is the one that the
  -- queue expects next.
  pub session-IsRun :
      {E : Type 0}
      → (ds : List TransportMessage) × (q : MessageQueue) × (session {E = E} before after
          ≡ ok (ds, q))
        × IsRun 1 (before ++ after) ds
        × (q.next_expected_nonce ≡ 1 + length ds)
  session-IsRun = (
    woken.0 ++ later.0,
    later.1,
    rw (session_opens, nothing_early),
    (
      whole_Run,
      subst (λ n. find n (before ++ after) ≡ none) (sym whole_next)
          (stopped (before ++ after) later.1 later_Delivers.synced),
    ),
    sym whole_next,
  )

pub Consecutive-IsCounted :
    (n : ℕ) (ms : List TransportMessage) → 1 ≤ n → Consecutive n ms → All IsCounted ms
Consecutive-IsCounted n [] h c = tt
Consecutive-IsCounted n (m ∷ ms) h c =
    (omega arith, Consecutive-IsCounted (suc n) ms (omega arith) c.1)

-- Messages with different nonces, delivered in any order around the connection message, are handed on
-- as the run that they make.
pub session_run :
    {E : Type 0} (sent before after ds : List TransportMessage)
    → Distinct sent
    → All IsCounted sent
    → All IsSmall sent
    → Perm sent (before ++ after)
    → IsRun 1 sent ds
    → (q : MessageQueue) × (session {E = E} before after ≡ ok (ds, q))
      × (q.next_expected_nonce ≡ 1 + length ds)
session_run {E} sent before after ds distinct count small p whole =
    let counted = All-perm IsCounted (λ m. le_prop) sent (before ++ after) p count in
    let smalls = All-perm IsSmall (λ m. le_prop) sent (before ++ after) p small in
    let (es, q, e, run, next) =
      session-IsRun before after (All-front IsCounted before after counted)
        (All-front IsSmall before after smalls) (All-back IsSmall before after smalls) {E = E} in
    let same = find_perm sent (before ++ after) p distinct in
    let kept : IsRun 1 (before ++ after) ds = (
      Run-transfer 1 sent (before ++ after) ds same whole.0,
      sym (same (1 + length ds)) ∙ whole.1,
    ) in
    let one = IsRun-unique 1 (before ++ after) es ds run kept in
    (q, e ∙ ap (λ xs. ok (xs, q)) one, next ∙ ap (λ xs. 1 + length xs) one)

-- A peer sent messages with the nonces 1, 2, 3 and so on, none of them 2^64 - 1, and the mixnet
-- delivers each of them once, in any order, some before the connection message and some after it.
-- Then the queue does not panic, and the messages are handed on in the order in which they were
-- sent, all of them.
pub session-in_order :
    {E : Type 0} (sent before after : List TransportMessage)
    → Consecutive 1 sent
    → All IsSmall sent
    → Perm sent (before ++ after)
    → (q : MessageQueue) × (session {E = E} before after ≡ ok (sent, q))
session-in_order {E} sent before after c small p =
    let (q, e, _) =
      session_run {E = E} sent before after sent (Consecutive-Distinct 1 sent c)
        (Consecutive-IsCounted 1 sent (omega arith) c) small p (Consecutive-IsRun 1 sent c) in
    (q, e)
