-- ===== src/Substream/Closed.antt =====
-- src/substream.rs: what is left of a substream whose flag is set.
use rust_libp2p_nym.Prelude.{ℕ, zero, suc, ◌≡◌, refl, ap, ◌∙◌, List, err, arith}
use rust_libp2p_nym.Foreign.{Foreign}
use rust_libp2p_nym.Channel.{Channels}
use rust_libp2p_nym.Substream.{
  Substream, Link, Read, Call, poll_read, poll_write, poll_flush, poll_close, check_closed,
  stream_closed, fetch_add, take_nonce,
}
use rust_libp2p_nym.Substream.Nonce.{IsClosed}

module _ ⦃f : Foreign⦄ ⦃c : Channels⦄ where
  -- The application calls the operations of a substream, in any order; `n` of the calls are closings.
  pub data Uses : ℕ → Substream → Link → Substream → Link → Type 0 where
    unused : (s : Substream) (l : Link) → Uses zero s l s l
    read :
        {n : ℕ} {s s' : Substream} {l l' : Link} (buf : List ℕ)
        → Uses n (poll_read s buf).stream l s' l'
        → Uses n s l s' l'
    write :
        {n : ℕ} {s s' : Substream} {l l' : Link} (buf : List ℕ)
        → Uses n (poll_write s buf l).stream (poll_write s buf l).link s' l'
        → Uses n s l s' l'
    flush :
        {n : ℕ} {s s' : Substream} {l l' : Link}
        → Uses n (poll_flush s l).stream (poll_flush s l).link s' l'
        → Uses n s l s' l'
    shut :
        {n : ℕ} {s s' : Substream} {l l' : Link}
        → Uses n (poll_close s l).stream (poll_close s l).link s' l'
        → Uses (suc n) s l s' l'

  -- The counter when `n` nonces have been taken.
  abbrev pub advanced : ℕ → ℕ → ℕ
  advanced zero nonce = nonce
  advanced (suc n) nonce = advanced n (fetch_add nonce)

  -- The substream but for the receiver of the close signal, which is polled.
  abbrev polled : Substream → Substream
  polled s = record s { close_rx = (c.try_recv s.close_rx).1 }

  closed_read :
      (s : Substream) (buf : List ℕ)
      → IsClosed s
      → poll_read s buf ≡ record { result = err stream_closed; buf = buf; stream = polled s }
  unfolding poll_read check_closed
  closed_read s buf h = ground arith

  closed_write :
      (s : Substream) (buf : List ℕ) (l : Link)
      → IsClosed s
      → poll_write s buf l ≡ record { result = err stream_closed; stream = polled s; link = l }
  unfolding poll_write check_closed
  closed_write s buf l h = ground arith

  closed_flush :
      (s : Substream) (l : Link)
      → IsClosed s
      → poll_flush s l ≡ record { result = err stream_closed; stream = polled s; link = l }
  unfolding poll_flush check_closed
  closed_flush s l h = ground arith

  pub closed_close :
      (s : Substream) (l : Link)
      → IsClosed s
      → poll_close s l ≡ record { result = err stream_closed; stream = s; link = take_nonce l }
  unfolding poll_close
  closed_close s l h = rw (poll_close, h) refl

  -- What no use of a closed substream changes: its data and its flag, and the mixnet's channel. The
  -- counter has moved on by the closings.
  pub record Unmoved (n : ℕ) (s : Substream) (l : Link) (s' : Substream) (l' : Link) : Type 0 where
    pub closed : IsClosed s'
    pub stream : s' ≡ record s { close_rx = s'.close_rx }
    pub nothing_sent : l'.outbound_tx ≡ l.outbound_tx
    pub nonces : l'.message_nonce ≡ advanced n l.message_nonce

  -- A first call that only polls the receiver.
  Unmoved-before :
      (n : ℕ) (s s1 s' : Substream) (l l1 l' : Link)
      → s1 ≡ polled s
      → l1 ≡ l
      → Unmoved n s1 l1 s' l'
      → Unmoved n s l s' l'
  Unmoved-before n s s1 s' l l1 l' e k u = record {
    closed = u.closed;
    stream = u.stream ∙ ap (λ (x : Substream). record x { close_rx = s'.close_rx }) e;
    nothing_sent = u.nothing_sent ∙ ap (λ (x : Link). x.outbound_tx) k;
    nonces = u.nonces ∙ ap (λ (x : Link). advanced n x.message_nonce) k;
  }

  polled-IsClosed : (s s1 : Substream) → IsClosed s → s1 ≡ polled s → IsClosed s1
  polled-IsClosed s s1 h e = ap (λ (x : Substream). x.closed) e ∙ h

  Uses-Unmoved :
      (n : ℕ) (s s' : Substream) (l l' : Link) → Uses n s l s' l' → IsClosed s → Unmoved n s l s' l'
  Uses-Unmoved _ _ _ _ _ (Uses.unused s l) h = record {
    closed = h;
    stream = refl;
    nothing_sent = refl;
    nonces = refl;
  }
  Uses-Unmoved n s s' l l' (Uses.read buf u) h =
      let e = ap (λ (r : Read). r.stream) (closed_read s buf h) in
      Unmoved-before n s _ s' l l l' e refl (Uses-Unmoved n _ s' l l' u (polled-IsClosed s _ h e))
  Uses-Unmoved n s s' l l' (Uses.write buf u) h =
      let e = ap (λ (r : Call ℕ). r.stream) (closed_write s buf l h) in
      Unmoved-before n s _ s' l _ l' e (ap (λ (r : Call ℕ). r.link) (closed_write s buf l h))
        (Uses-Unmoved n _ s' _ l' u (polled-IsClosed s _ h e))
  Uses-Unmoved n s s' l l' (Uses.flush u) h =
      let e = ap (λ (r : Call (Unit {0})). r.stream) (closed_flush s l h) in
      Unmoved-before n s _ s' l _ l' e (ap (λ (r : Call (Unit {0})). r.link) (closed_flush s l h))
        (Uses-Unmoved n _ s' _ l' u (polled-IsClosed s _ h e))
  Uses-Unmoved _ s s' l l' (Uses.shut {n = n} u) h =
      let e = ap (λ (r : Call (Unit {0})). r.stream) (closed_close s l h) in
      let e' = ap (λ (r : Call (Unit {0})). r.link) (closed_close s l h) in
      let k = Uses-Unmoved n _ s' _ l' u (ap (λ (x : Substream). x.closed) e ∙ h) in
      record {
        closed = k.closed;
        stream = k.stream ∙ ap (λ (x : Substream). record x { close_rx = s'.close_rx }) e;
        nothing_sent = k.nothing_sent ∙ ap (λ (x : Link). x.outbound_tx) e';
        nonces = k.nonces ∙ ap (λ (x : Link). advanced n x.message_nonce) e';
      }

  -- Once the flag of a substream is set, then after any sequence of reads, writes, flushes and
  -- closings: the flag is still set, its unread data and its inbound channel are as they were, no
  -- message has been sent, and the counter has moved on by one nonce for each closing and by no
  -- other; and a further read, write, flush or closing returns the error `stream closed`, the read
  -- with the buffer as it was.
  pub closed_for_good :
      (n : ℕ) (s s' : Substream) (l l' : Link) (buf : List ℕ)
      → IsClosed s
      → Uses n s l s' l'
      → Unmoved n s l s' l'
        × ((poll_read s' buf).result ≡ err stream_closed)
        × ((poll_read s' buf).buf ≡ buf)
        × ((poll_write s' buf l').result ≡ err stream_closed)
        × ((poll_flush s' l').result ≡ err stream_closed)
        × ((poll_close s' l').result ≡ err stream_closed)
  closed_for_good n s s' l l' buf h u =
      let k = Uses-Unmoved n s s' l l' u h in
      (
        k,
        ap (λ (r : Read). r.result) (closed_read s' buf k.closed),
        ap (λ (r : Read). r.buf) (closed_read s' buf k.closed),
        ap (λ (r : Call ℕ). r.result) (closed_write s' buf l' k.closed),
        ap (λ (r : Call (Unit {0})). r.result) (closed_flush s' l' k.closed),
        ap (λ (r : Call (Unit {0})). r.result) (closed_close s' l' k.closed),
      )
