-- ===== src/Substream/Bounds.antt =====
-- src/substream.rs, `poll_read`: it stays within the caller's buffer.
use rust_libp2p_nym.Prelude.{
  ℕ, ◌-◌, min, ltb, if◌then◌else◌, Bool-cases, ◌≤◌, ◌≡◌, ◌≢◌, refl, List, ◌++◌, Option, none, some,
  Option-cases, inl, inr, ok, panic, arith, length, length-append, take, drop, length-take,
  length-drop,
}
use rust_libp2p_nym.Foreign.{Foreign}
use rust_libp2p_nym.Channel.{Channels, Poll, ready, pending}
use rust_libp2p_nym.Substream.{Substream, Read, check_closed, poll_read}
use rust_libp2p_nym.Substream.Reading.{overwrite, arrived, returned, read_result, read_unread_lem}

length-overwrite : (buf bytes : List ℕ) → length (overwrite buf bytes) ≡ length buf
length-overwrite buf bytes = omega (
  arith,
  length-append (take (length buf) bytes) (drop (length bytes) buf),
  length-take (length buf) bytes,
  length-drop (length bytes) buf,
)

module _ ⦃f : Foreign⦄ ⦃c : Channels⦄ where
  counted_fits :
      (k n count : ℕ) → k ≤ n → (if ltb 0 k then ready k else pending) ≡ ready count → count ≤ n
  counted_fits k n count h e = elim (Bool-cases (ltb 0 k)) [
    | inl some_bytes ↦ let same : k ≡ count = cc (e, some_bytes) in omega arith
    | inr no_bytes ↦ absurd (cc (e, no_bytes))
  ]

  returned_fits :
      (u n count : ℕ) (inbound : Poll (Option (List ℕ)))
      → returned u n inbound ≡ ready count
      → count ≤ n
  returned_fits u n count (ready (some bytes)) e =
      let same : (if ltb u n then min (n - u) (length bytes) else n) ≡ count = cc e in ground arith
  returned_fits u n count (ready none) e = counted_fits (min u n) n count (omega arith) e
  returned_fits u n count pending e = counted_fits (min u n) n count (omega arith) e

  record IsWithin (buf : List ℕ) (r : Read) : Type 0 where
    same_length : length r.buf ≡ length buf
    calm : r.result ≢ panic
    fits : (n : ℕ) → r.result ≡ ok (ready n) → n ≤ length buf

  read_result-IsWithin :
      (s : Substream) (u buf : List ℕ) (inbound : Poll (Option (List ℕ)))
      → IsWithin buf (read_result s u buf inbound)
  read_result-IsWithin s u buf inbound = record {
    same_length = length-overwrite buf (u ++ arrived inbound);
    calm = λ x. absurd (cc x);
    fits = λ n e. returned_fits (length u) (length buf) n inbound (cc e);
  }

  poll_read-IsWithin : (s : Substream) (buf : List ℕ) → IsWithin buf (poll_read s buf)
  unfolding poll_read
  poll_read-IsWithin s buf = elim (Option-cases (check_closed s).0) [
    | inr (e, k) ↦
        rw (poll_read, k)
          (record { same_length = refl; calm = λ x. absurd (cc x); fits = λ n x. absurd (cc x) })
    | inl k ↦
        let s' = (check_closed s).1 in
        let polled = c.poll_recv s'.inbound_rx in
        let ready_to_read = record s' { inbound_rx = polled.1 } in
        rw (poll_read, k)
          (rw (read_unread_lem ready_to_read s'.unread_data buf polled.0)
            (read_result-IsWithin ready_to_read s'.unread_data buf polled.0))
  ]

  -- A read, open or closed, does not panic, whatever the buffer and the data: the buffer keeps its
  -- length, and a count that is returned is at most this length.
  pub poll_read-bounds :
      (s : Substream) (buf : List ℕ)
      → ((poll_read s buf).result ≢ panic)
        × (length (poll_read s buf).buf ≡ length buf)
        × ((n : ℕ) → (poll_read s buf).result ≡ ok (ready n) → n ≤ length buf)
  poll_read-bounds s buf = let w = poll_read-IsWithin s buf in (w.calm, w.same_length, w.fits)
