-- ===== src/Tests/World.antt =====
-- The third-party interfaces filled in by small concrete functions: recipients and peers are
-- numbers, and a channel is a list. The laws hold of them.
use rust_libp2p_nym.Prelude.{
  ℕ, ◌≡◌, ◌≢◌, refl, Bool, true, List, [], ◌∷◌, ◌++◌, Option, none, some, ◌⊎◌, inl, inr,
  if◌then◌else◌, arith,
}
use rust_libp2p_nym.Foreign.{Foreign, CodecLaws, Protocol}
use rust_libp2p_nym.Channel.{Channels, ChannelLaws, Poll, ready, pending}

abbrev one_byte : List ℕ → ℕ ⊎ Unit {0}
one_byte [] = inr tt
one_byte (b ∷ []) = inl b
one_byte (b ∷ b' ∷ bytes) = inr tt

instance abbrev pub foreign : Foreign
foreign = record {
  Recipient = ℕ;
  PeerId = ℕ;
  Keypair = ℕ;
  Multiaddr = List Protocol;
  ListenerId = ℕ;
  Waker = Unit {0};
  MultiaddrError = Unit {0};
  WsError = Unit {0};
  NymError = Unit {0};
  MultihashError = Unit {0};
  RecipientFormattingError = Unit {0};
  OneshotRecvError = Unit {0};
  Elapsed = Unit {0};
  recipient_len = 1;
  recipient_to_bytes = λ r. r ∷ [];
  recipient_try_from_bytes = one_byte;
  recipient_to_string = λ r. "recipient";
  recipient_from_str = λ s. inl 5;
  multiaddr_from_str = λ s. inl [];
  multiaddr_pop = λ a. elim a [ [] ↦ none | p ∷ ps ↦ some p ];
  listener_id_eq = λ a b. true;
  peer_id_to_bytes = λ p. p ∷ [];
  peer_id_from_bytes = one_byte;
  peer_id_of = λ k. k;
  nym_error_to_string = λ e. "nym error";
  send_error_text = "channel closed";
}

pub codec_laws : CodecLaws
codec_laws = record {
  recipient_length = λ r. refl;
  recipient_round_trip = λ r. refl;
  peer_id_nonempty = λ p. omega arith;
  peer_id_round_trip = λ p. refl;
}

pub record Queued (A : Type 0) : Type 0 where
  pub items : List A
  pub has_receiver : Bool

pub record Once (A : Type 0) : Type 0 where
  pub value : Option A
  pub has_receiver : Bool

abbrev receive_from : {A : Type 0} → List A → Bool → Poll (Option A) × Queued A
receive_from [] o = (pending, record { items = []; has_receiver = o })
receive_from (a ∷ items) o = (ready (some a), record { items = items; has_receiver = o })

instance abbrev pub channels : Channels
channels = record {
  Chan = Queued;
  unbounded_channel = record { items = []; has_receiver = true };
  send = λ a ch. if ch.has_receiver then some (record ch { items = ch.items ++ a ∷ [] }) else none;
  poll_recv = λ ch. receive_from ch.items ch.has_receiver;
  Oneshot = Once;
  oneshot_channel = record { value = none; has_receiver = true };
  oneshot_send = λ a o. o.has_receiver;
  sent_into = λ a o. record o { value = some a };
  try_recv = λ o. (o.value, o);
  poll_oneshot = λ o. elim o.value [ none ↦ pending | some a ↦ ready (some a) ];
  contents = λ ch. ch.items;
  is_open = λ ch. ch.has_receiver;
}

received_lem :
    {A : Type 0} (a : A) (items : List A) (o : Bool) (ch : Queued A)
    → receive_from items o ≡ (ready (some a), ch)
    → items ≡ a ∷ ch.items
received_lem a [] o ch e = absurd (cc e)
received_lem a (b ∷ items) o ch e = cc e

not_received_lem :
    {A : Type 0} (items : List A) (o : Bool)
    → ((a : A) → (receive_from items o).0 ≢ ready (some a))
    → (receive_from items o).1.items ≡ items
not_received_lem [] o h = refl
not_received_lem (a ∷ items) o h = absurd (h a refl)

poll_open_lem : {A : Type 0} (items : List A) (o : Bool) → (receive_from items o).1.has_receiver ≡ o
poll_open_lem [] o = refl
poll_open_lem (a ∷ items) o = refl

pub channel_laws : ChannelLaws
channel_laws = record {
  contents-new = refl;
  is_open-new = refl;
  send_open = λ a ch o. (record ch { items = ch.items ++ a ∷ [] }, rw o refl, refl, o);
  send_closed = λ a ch o. rw o refl;
  received = λ a ch ch' e. received_lem a ch.items ch.has_receiver ch' e;
  not_received = λ ch h. not_received_lem ch.items ch.has_receiver h;
  poll_open = λ ch. poll_open_lem ch.items ch.has_receiver;
  oneshot_open = λ a. refl;
  oneshot_arrives = λ a o. refl;
}
