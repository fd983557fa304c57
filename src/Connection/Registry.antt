-- ===== src/Connection/Registry.antt =====
-- src/connection.rs: the two maps that a connection keeps of its substreams have the same keys.
use rust_libp2p_nym.Prelude.{
  ℕ, zero, suc, ◌≡◌, refl, sym, ap, ◌∙◌, Bool, true, false, List, Option, none, some, Option-cases,
  Bool-cases, inl, inr, Outcome, ok, err, panic, stuck, arith,
}
use rust_libp2p_nym.Prelude.HashMap
use rust_libp2p_nym.Prelude.HashMap.{Eq, HashMap}
use rust_libp2p_nym.Prelude.Exec.{continue}
use rust_libp2p_nym.Foreign.{Foreign}
use rust_libp2p_nym.Channel.{Channels, Poll-cases}
use rust_libp2p_nym.Error.{Error}
use rust_libp2p_nym.Message.SubstreamId.{SubstreamId, SubstreamId_key}
use rust_libp2p_nym.Message.SubstreamMessage.{
  SubstreamMessage, SubstreamMessageType, open_request, open_response, close, payload,
}
use rust_libp2p_nym.Connection.{
  Connection, Muxer, fetch_nonce, send_outbound, new_substream, signal_close, notify_closed,
  handle_close, offer_inbound, handle_open_request, handle_data, handle_message, poll_loop, poll,
  Method, update,
}

abbrev pub is_some : {A : Type 0} → Option A → Bool
is_some none = false
is_some (some a) = true

module _ {K A B : Type 0} ⦃e : Eq K⦄ where
  -- The same keys.
  abbrev Paired : HashMap K A → HashMap K B → Type 0
  Paired xs ys = (k : K) → is_some (HashMap.get k xs) ≡ is_some (HashMap.get k ys)

  pub insert-Paired :
      (xs : HashMap K A) (ys : HashMap K B) (k : K) (a : A) (b : B)
      → Paired xs ys
      → Paired (HashMap.insert k a xs) (HashMap.insert k b ys)
  insert-Paired xs ys k a b p j =
      ground (arith, p j, HashMap.get-insert k j a xs, HashMap.get-insert k j b ys)

  remove-Paired :
      (xs : HashMap K A) (ys : HashMap K B) (k : K)
      → Paired xs ys
      → Paired (HashMap.remove k xs) (HashMap.remove k ys)
  remove-Paired xs ys k p j =
      ground (arith, p j, HashMap.get-remove k j xs, HashMap.get-remove k j ys)

  replace-Paired :
      (xs : HashMap K A) (ys : HashMap K B) (k : K) (a a' : A)
      → HashMap.get k xs ≡ some a
      → Paired xs ys
      → Paired (HashMap.insert k a' xs) ys
  replace-Paired xs ys k a a' h p j = elim (Bool-cases (e.eq k j)) [
    | inl same ↦
        let here = ap (λ i. HashMap.get i xs) (sym ((e.eq_iff k j).0 same)) ∙ h in
        rw (HashMap.get-insert, same) (ap is_some (sym here) ∙ p j)
    | inr differ ↦ rw (HashMap.get-insert, differ) (p j)
  ]

module _ ⦃f : Foreign⦄ ⦃c : Channels⦄ where
  -- A substream has a channel for its data exactly when it has one for its closing.
  abbrev pub IsPaired : Connection → Type 0
  IsPaired conn =
      (id : SubstreamId)
      → is_some (HashMap.get id conn.substream_inbound_txs)
        ≡ is_some (HashMap.get id conn.substream_close_txs)

  new_substream-IsPaired :
      (id : SubstreamId) (m : Muxer)
      → IsPaired m.connection
      → IsPaired (new_substream id m).1.connection
  unfolding new_substream
  new_substream-IsPaired id m p =
      elim (Option-cases (HashMap.get id m.connection.substream_inbound_txs)) [
        | inl e ↦ rw (new_substream, e) (insert-Paired _ _ id _ _ p)
        | inr (tx, e) ↦ rw (new_substream, e) p
      ]

  continue-IsPaired :
      {A B : Type 0} (r : Outcome Error A × Muxer) (g : A → Method B)
      → IsPaired r.1.connection
      → ((a : A) → IsPaired (g a r.1).1.connection)
      → IsPaired (continue r g).1.connection
  continue-IsPaired (ok a, m) g h k = k a
  continue-IsPaired (err e, m) g h k = h
  continue-IsPaired (panic, m) g h k = h
  continue-IsPaired (stuck, m) g h k = h

  send_outbound_connection :
      (message : SubstreamMessage) (n : ℕ) (m : Muxer)
      → (send_outbound message n m).1.connection ≡ m.connection
  unfolding send_outbound
  send_outbound_connection message n m = ground arith

  offer_inbound-IsPaired :
      (s : _) (m : Muxer) → IsPaired m.connection → IsPaired (offer_inbound s m).1.connection
  unfolding offer_inbound
  offer_inbound-IsPaired s m p = elim (Option-cases (c.send s m.connection.inbound_open)) [
    | inl e ↦ rw (offer_inbound, e) p
    | inr (ch, e) ↦ rw (offer_inbound, e) p
  ]

  handle_open_request-IsPaired :
      (id : SubstreamId) (m : Muxer)
      → IsPaired m.connection
      → IsPaired (handle_open_request id m).1.connection
  unfolding handle_open_request fetch_nonce
  handle_open_request-IsPaired id m p =
      continue-IsPaired (new_substream id m) _ (new_substream-IsPaired id m p) λ s.
        continue-IsPaired (send_outbound _ _ _) _
          (rw send_outbound_connection (new_substream-IsPaired id m p))
          λ _.
            offer_inbound-IsPaired s _ (rw send_outbound_connection (new_substream-IsPaired id m p))

  signal_close_same : (tx : Option (c.Oneshot (Unit {0}))) (m : Muxer) → (signal_close tx m).1 ≡ m
  unfolding signal_close
  signal_close_same none m = refl
  signal_close_same (some tx) m = elim (Bool-cases (c.oneshot_send tt tx)) [
    | inl e ↦ rw e refl
    | inr e ↦ rw e refl
  ]

  notify_closed-IsPaired :
      (id : SubstreamId) (m : Muxer)
      → IsPaired m.connection
      → IsPaired (notify_closed id m).1.connection
  unfolding notify_closed
  notify_closed-IsPaired id m p = elim (Option-cases (c.send id m.connection.close_chan)) [
    | inl e ↦ rw (notify_closed, e) p
    | inr (ch, e) ↦ rw (notify_closed, e) p
  ]

  handle_close-IsPaired :
      (id : SubstreamId) (m : Muxer)
      → IsPaired m.connection
      → IsPaired (handle_close id m).1.connection
  unfolding handle_close
  handle_close-IsPaired id m p =
      let removed =
        update
          (λ conn. record conn {
            substream_inbound_txs = HashMap.remove id conn.substream_inbound_txs;
            substream_close_txs = HashMap.remove id conn.substream_close_txs;
          })
          m in
      let p' : IsPaired removed.connection = remove-Paired _ _ id p in
      elim (Option-cases (HashMap.get id m.connection.substream_inbound_txs)) [
        | inl e ↦ rw (handle_close, e) p
        | inr (tx, e) ↦
            rw (handle_close, e)
              (continue-IsPaired
                (signal_close (HashMap.get id m.connection.substream_close_txs) removed) _
                (rw signal_close_same p')
                λ _. notify_closed-IsPaired id _ (rw signal_close_same p'))
      ]

  handle_data-IsPaired :
      (id : SubstreamId) (bytes : List ℕ) (m : Muxer)
      → IsPaired m.connection
      → IsPaired (handle_data id bytes m).1.connection
  unfolding handle_data
  handle_data-IsPaired id bytes m p =
      elim (Option-cases (HashMap.get id m.connection.substream_inbound_txs)) [
        | inl e ↦ rw (handle_data, e) p
        | inr (tx, e) ↦ elim (Option-cases (c.send bytes tx)) [
          | inl shut ↦ rw (handle_data, e) (rw shut p)
          | inr (tx', sent) ↦ rw (handle_data, e) (rw sent (replace-Paired _ _ id tx tx' e p))
        ]
      ]

  handle_message-IsPaired :
      (id : SubstreamId) (type : SubstreamMessageType) (m : Muxer)
      → IsPaired m.connection
      → IsPaired (handle_message id type m).1.connection
  unfolding handle_message
  handle_message-IsPaired id open_request m p = handle_open_request-IsPaired id m p
  handle_message-IsPaired id open_response m p = p
  handle_message-IsPaired id close m p = handle_close-IsPaired id m p
  handle_message-IsPaired id (payload bytes) m p = handle_data-IsPaired id bytes m p

  poll_loop-IsPaired :
      (fuel : ℕ) (cx : f.Waker) (m : Muxer)
      → IsPaired m.connection
      → IsPaired (poll_loop fuel cx m).1.connection
  unfolding poll_loop
  poll_loop-IsPaired zero cx m p = p
  poll_loop-IsPaired (suc fuel) cx m p = elim (Poll-cases (c.poll_recv m.connection.inbound_rx).0) [
    | inl (msg, e) ↦
        let m' = update (λ conn. record conn { inbound_rx = (c.poll_recv conn.inbound_rx).1 }) m in
        let h = handle_message-IsPaired msg.substream_id msg.message_type m' p in
        rw (poll_loop, e)
          (continue-IsPaired (handle_message msg.substream_id msg.message_type m') _ h
            λ _. poll_loop-IsPaired fuel cx _ h)
    | inr (inl e) ↦ rw (poll_loop, e) p
    | inr (inr e) ↦ rw (poll_loop, e) p
  ]

  -- Polling a connection keeps the invariant, whatever has been received and however the poll ends: a
  -- substream has a channel for its data exactly when it has one for its closing.
  pub poll-IsPaired :
      (cx : f.Waker) (m : Muxer) → IsPaired m.connection → IsPaired (poll cx m).1.connection
  unfolding poll
  poll-IsPaired cx m p = poll_loop-IsPaired _ cx m p
