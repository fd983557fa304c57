-- ===== src/Channel.antt =====
-- tokio's channels, std's Poll and Context, and io errors. The unbounded mpsc and the oneshot
-- channels are third-party code, so they are parameters. A component of the model holds its own end
-- of a channel; what the other end does between two calls is a step of the environment.
use rust_libp2p_nym.Prelude.{
  ◌≡◌, ◌≢◌, ◌⊎◌, inl, inr, refl, List, [], ◌∷◌, ◌++◌, Option, none, some, Bool, true, false, String,
  Bool-cases,
}

-- `std::task::Poll`
pub data Poll (A : Type 0) : Type 0 where
  ready : A → Poll A
  pending : Poll A

pub Poll-cases :
    {A : Type 0} (p : Poll (Option A))
    → ((a : A) × (p ≡ ready (some a))) ⊎ ((p ≡ ready none) ⊎ (p ≡ pending))
Poll-cases (ready (some a)) = inl (a, refl)
Poll-cases (ready none) = inr (inl refl)
Poll-cases pending = inr (inr refl)

-- `std::io::Error` of kind Other, with its message.
pub data IoError : Type 0 where
  other : String → IoError

pub record Channels : Type 1 where
  -- an end of an `unbounded_channel`; `send` fails with a SendError, and `poll_recv` is `none`
  -- inside a `ready` when the channel is closed and empty
  pub Chan : Type 0 → Type 0
  pub unbounded_channel : {A : Type 0} → Chan A
  pub send : {A : Type 0} → A → Chan A → Option (Chan A)
  pub poll_recv : {A : Type 0} → Chan A → Poll (Option A) × Chan A
  -- an end of a `oneshot::channel`; `oneshot_send` says whether the receiver is still there, and
  -- `sent_into` is its end behind the send. `try_recv` gives the value if it has been sent, and a
  -- poll of the receiver is `none` inside a `ready` when the sender is gone
  pub Oneshot : Type 0 → Type 0
  pub oneshot_channel : {A : Type 0} → Oneshot A
  pub oneshot_send : {A : Type 0} → A → Oneshot A → Bool
  pub sent_into : {A : Type 0} → A → Oneshot A → Oneshot A
  pub try_recv : {A : Type 0} → Oneshot A → Option A × Oneshot A
  pub poll_oneshot : {A : Type 0} → Oneshot A → Poll (Option A)
  -- views of a channel, for statements: what has been sent and not yet received, and whether the
  -- receiver is there
  pub contents : {A : Type 0} → Chan A → List A
  pub is_open : {A : Type 0} → Chan A → Bool

-- The documented behaviour: a channel is first in, first out; sending fails exactly when the
-- receiver is gone; and a poll may be pending although something has been sent.
pub record ChannelLaws ⦃c : Channels⦄ : Type 1 where
  pub contents-new : {A : Type 0} → c.contents (c.unbounded_channel {A = A}) ≡ []
  pub is_open-new : {A : Type 0} → c.is_open (c.unbounded_channel {A = A}) ≡ true
  pub send_open :
      {A : Type 0} (a : A) (ch : c.Chan A)
      → c.is_open ch ≡ true
      → (ch' : c.Chan A) × (c.send a ch ≡ some ch')
        × (c.contents ch' ≡ c.contents ch ++ a ∷ [])
        × (c.is_open ch' ≡ true)
  pub send_closed : {A : Type 0} (a : A) (ch : c.Chan A) → c.is_open ch ≡ false → c.send a ch ≡ none
  pub received :
      {A : Type 0} (a : A) (ch ch' : c.Chan A)
      → c.poll_recv ch ≡ (ready (some a), ch')
      → c.contents ch ≡ a ∷ c.contents ch'
  pub not_received :
      {A : Type 0} (ch : c.Chan A)
      → ((a : A) → (c.poll_recv ch).0 ≢ ready (some a))
      → c.contents (c.poll_recv ch).1 ≡ c.contents ch
  pub poll_open : {A : Type 0} (ch : c.Chan A) → c.is_open (c.poll_recv ch).1 ≡ c.is_open ch
  -- a oneshot's receiver is there from the start, and has what is sent
  pub oneshot_open : {A : Type 0} (a : A) → c.oneshot_send a c.oneshot_channel ≡ true
  pub oneshot_arrives :
      {A : Type 0} (a : A) (o : c.Oneshot A) → c.poll_oneshot (c.sent_into a o) ≡ ready (some a)

module _ ⦃c : Channels⦄ where
  -- A send that succeeds appends.
  pub sent_contents :
      (laws : ChannelLaws) {A : Type 0} (a : A) (ch tx : c.Chan A)
      → c.send a ch ≡ some tx
      → c.contents tx ≡ c.contents ch ++ a ∷ []
  sent_contents laws a ch tx e = elim (Bool-cases (c.is_open ch)) [
    | inl h ↦
        let (ch', sent, holds, _) = laws.send_open a ch h in
        let same : ch' ≡ tx = cc (e, sent) in rw (← same) holds
    | inr h ↦ absurd (cc (e, laws.send_closed a ch h))
  ]
