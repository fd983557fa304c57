-- ===== src/Mixnet/Answer.antt =====
-- src/mixnet.rs: what `get_self_address` returns, by the frames that arrive.
use rust_libp2p_nym.Prelude.{
  ℕ, zero, suc, ◌<◌, ◌≡◌, ◌⊎◌, refl, sym, ap, ◌∙◌, subst, inl, inr, String, Option-cases, List, [],
  ◌∷◌, ◌++◌, All, length, Option, none, some, ok, err, panic, stuck, arith,
}
use rust_libp2p_nym.Foreign.{Foreign}
use rust_libp2p_nym.Error.{Result, Error}
use rust_libp2p_nym.Mixnet.{parse_nym_message, deserialized}
use rust_libp2p_nym.Mixnet.Client.{
  WsMessage, text, binary, other_ws_message, ServerResponse, Frame, Websocket, WebsocketLaws,
}
use rust_libp2p_nym.Mixnet.Address.{
  address_in, read_frame, return_or, address_loop, address_request, get_self_address,
}

module _ ⦃f : Foreign⦄ ⦃w : Websocket⦄ where
  -- The bytes that the client sends in a text frame and in a binary one.
  pub data Carries : WsMessage → List ℕ → Type 0 where
    in_text : (str : String) → Carries (text str) (w.into_bytes str)
    in_binary : (bytes : List ℕ) → Carries (binary bytes) bytes

  -- What the frames of a stream say of the address, if it ends behind the last one: the result, and
  -- the frames that stay on the stream. The cases are those of a frame and of the client's response.
  pub data Answers : List Frame → Result f.Recipient → List Frame → Type 0 where
    ended : Answers [] (err Error.recv_error) []
    broken :
        (e : f.WsError) (frames : List Frame)
        → Answers (inr e ∷ frames) (err (Error.websocket_stream_error e)) frames
    unknown :
        (frames : List Frame)
        → Answers (inl other_ws_message ∷ frames) (err Error.unknown_nym_message) frames
    undecodable :
        {m : WsMessage} {bytes : List ℕ} (e : f.NymError) (frames : List Frame)
        → Carries m bytes
        → w.deserialize bytes ≡ inr e
        → Answers (inl m ∷ frames) (err (Error.nym_message_error (f.nym_error_to_string e))) frames
    refused :
        {m : WsMessage} {bytes : List ℕ} (e : f.NymError) (frames : List Frame)
        → Carries m bytes
        → w.deserialize bytes ≡ inl (ServerResponse.error e)
        → Answers (inl m ∷ frames) (err (Error.nym_message_error (f.nym_error_to_string e))) frames
    told :
        {m : WsMessage} {bytes : List ℕ} (recipient : f.Recipient) (frames : List Frame)
        → Carries m bytes
        → w.deserialize bytes ≡ inl (ServerResponse.self_address recipient)
        → Answers (inl m ∷ frames) (ok recipient) frames
    skipped_message :
        {m : WsMessage} {bytes inner : List ℕ} {frames left : List Frame} {r : Result f.Recipient}
        → Carries m bytes
        → w.deserialize bytes ≡ inl (ServerResponse.received inner)
        → Answers frames r left
        → Answers (inl m ∷ frames) r left
    skipped_other :
        {m : WsMessage} {bytes : List ℕ} {frames left : List Frame} {r : Result f.Recipient}
        → Carries m bytes
        → w.deserialize bytes ≡ inl ServerResponse.other_response
        → Answers frames r left
        → Answers (inl m ∷ frames) r left

  -- The result, and the frames that are left, if the first frame says `found`, `frames` follow, and
  -- `rest` is the answer of these.
  abbrev found :
      Result (Option f.Recipient)
      → List Frame
      → Result f.Recipient × List Frame
      → Result f.Recipient × List Frame
  found (ok (some recipient)) frames rest = (ok recipient, frames)
  found (ok none) frames rest = rest
  found (err e) frames rest = (err e, frames)
  found panic frames rest = (panic, frames)
  found stuck frames rest = (stuck, frames)

  -- The first frame that is not passed over decides.
  abbrev pub answer_of : List Frame → Result f.Recipient × List Frame
  answer_of [] = (err Error.recv_error, [])
  answer_of (frame ∷ frames) = found (read_frame frame) frames (answer_of frames)

  decoded-cases :
      (decoded : ServerResponse ⊎ f.NymError)
      → ((e : f.NymError) × (decoded ≡ inr e)) ⊎ ((r : ServerResponse) × (decoded ≡ inl r))
  decoded-cases (inl r) = inr (r, refl)
  decoded-cases (inr e) = inl (e, refl)

  -- A frame with these bytes, and the answer of the frames behind it.
  bytes_answer :
      (m : WsMessage) (bytes : List ℕ) (frames : List Frame)
      → Carries m bytes
      → parse_nym_message m ≡ deserialized bytes
      → Answers frames (answer_of frames).0 (answer_of frames).1
      → Answers (inl m ∷ frames) (answer_of (inl m ∷ frames)).0 (answer_of (inl m ∷ frames)).1
  bytes_answer m bytes frames carries parsed rest = elim (decoded-cases (w.deserialize bytes)) [
    | inl (e, k) ↦ rw (parsed) (rw k (Answers.undecodable e frames carries k))
    | inr (response, k) ↦ rw (parsed) (rw k (decided response k))
  ]
    where
      decided :
          (response : ServerResponse)
          → w.deserialize bytes ≡ inl response
          → let r = found (address_in response) frames (answer_of frames) in
            Answers (inl m ∷ frames) r.0 r.1
      decided (ServerResponse.self_address recipient) k = Answers.told recipient frames carries k
      decided (ServerResponse.error e) k = Answers.refused e frames carries k
      decided (ServerResponse.received inner) k = Answers.skipped_message carries k rest
      decided ServerResponse.other_response k = Answers.skipped_other carries k rest

  answer_of-Answers :
      (frames : List Frame) → Answers frames (answer_of frames).0 (answer_of frames).1
  unfolding parse_nym_message
  answer_of-Answers [] = Answers.ended
  answer_of-Answers (inr e ∷ frames) = Answers.broken e frames
  answer_of-Answers (inl (text str) ∷ frames) =
      bytes_answer (text str) (w.into_bytes str) frames (Carries.in_text str) refl
        (answer_of-Answers frames)
  answer_of-Answers (inl (binary bytes) ∷ frames) =
      bytes_answer (binary bytes) bytes frames (Carries.in_binary bytes) refl
        (answer_of-Answers frames)
  answer_of-Answers (inl other_ws_message ∷ frames) = Answers.unknown frames

  -- The result and the frames that are left on the socket.
  abbrev pub outcome : Result f.Recipient × w.Socket → Result f.Recipient × List Frame
  outcome (r, s) = (r, w.incoming s)

  module _ (wlaws : WebsocketLaws) where
    return_or_lem :
        (r : Result (Option f.Recipient)) (s : w.Socket)
        (rest : w.Socket → Result f.Recipient × w.Socket) (answer : Result f.Recipient × List Frame)
        → outcome (rest s) ≡ answer
        → outcome (return_or r s rest) ≡ found r (w.incoming s) answer
    return_or_lem (ok (some recipient)) s rest answer h = refl
    return_or_lem (ok none) s rest answer h = h
    return_or_lem (err e) s rest answer h = refl
    return_or_lem panic s rest answer h = refl
    return_or_lem stuck s rest answer h = refl

    address_loop_lem :
        (fuel : ℕ) (s : w.Socket) (frames : List Frame)
        → w.incoming s ≡ frames
        → length frames < fuel
        → outcome (address_loop fuel s) ≡ answer_of frames
    unfolding address_loop
    address_loop_lem zero s frames e h = absurd (omega arith)
    address_loop_lem (suc fuel) s [] e h =
        let (over, left) = wlaws.next_end s e in rw (address_loop, over, left) refl
    address_loop_lem (suc fuel) s (frame ∷ frames) e h =
        let (yields, left) = wlaws.next_frame s frame frames e in
        rw (address_loop, yields)
          (return_or_lem (read_frame frame) (w.next s).1 (address_loop fuel) (answer_of frames)
              (address_loop_lem fuel (w.next s).1 frames left (omega arith))
            ∙ ap (λ k. found (read_frame frame) k (answer_of frames)) left)

    -- If the request is sent, the loop decides by the first frame that it does not pass over.
    get_self_address-answer_of :
        (s : w.Socket)
        → (w.send_message address_request s).0 ≡ none
        → outcome (get_self_address s) ≡ answer_of (w.incoming s)
    unfolding get_self_address
    get_self_address-answer_of s e =
        let sent = (w.send_message address_request s).1 in
        rw (get_self_address, e)
          (address_loop_lem _ sent (w.incoming sent) refl (omega arith)
            ∙ ap answer_of (wlaws.send_incoming address_request s))

    -- If the request cannot be sent, `get_self_address` returns the socket's error. If it is sent, then
    -- for frames that the stream yields until it ends: those that carry a received message or a
    -- response without an address and an error are passed over; the first other one decides, which
    -- gives its address or its error and is taken off the stream, with the frames behind it left
    -- there; and at the end of the stream the error is `recv_error`.
    pub get_self_address-Answers :
        (s : w.Socket)
        → let r = get_self_address s in
          ((e : f.WsError) × ((w.send_message address_request s).0 ≡ some e)
            × (r.0 ≡ err (Error.websocket_stream_error e)))
          ⊎ (((w.send_message address_request s).0 ≡ none)
              × Answers (w.incoming s) r.0 (w.incoming r.1))
    get_self_address-Answers s = elim (Option-cases (w.send_message address_request s).0) [
      | inr (e, failed) ↦
          inl (e, failed, unfold get_self_address in rw (get_self_address, failed) refl)
      | inl sent ↦ inr (
        sent,
        subst (λ (a : Result f.Recipient × List Frame). Answers (w.incoming s) a.0 a.1)
            (sym (get_self_address-answer_of s sent)) (answer_of-Answers (w.incoming s)),
      )
    ]

    answer_of-address :
        (before : List Frame) (msg : WsMessage) (after : List Frame) (recipient : f.Recipient)
        → All (λ frame. read_frame frame ≡ ok none) before
        → parse_nym_message msg ≡ ok (ServerResponse.self_address recipient)
        → answer_of (before ++ inl msg ∷ after) ≡ (ok recipient, after)
    answer_of-address [] msg after recipient h e = rw e refl
    answer_of-address (frame ∷ before) msg after recipient h e =
        rw h.0 (answer_of-address before msg after recipient h.1 e)

    -- If the request is sent and an address comes, behind any number of responses that are no errors
    -- and no address, `get_self_address` returns this address and leaves what comes behind it.
    pub get_self_address_waits :
        (s : w.Socket) (before : List Frame) (msg : WsMessage) (after : List Frame)
        (recipient : f.Recipient)
        → (w.send_message address_request s).0 ≡ none
        → w.incoming s ≡ before ++ inl msg ∷ after
        → All (λ frame. read_frame frame ≡ ok none) before
        → parse_nym_message msg ≡ ok (ServerResponse.self_address recipient)
        → outcome (get_self_address s) ≡ (ok recipient, after)
    get_self_address_waits s before msg after recipient sent e h k =
        get_self_address-answer_of s sent
        ∙ ap answer_of e
        ∙ answer_of-address before msg after recipient h k
