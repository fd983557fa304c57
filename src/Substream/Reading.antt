-- ===== src/Substream/Reading.antt =====
-- src/substream.rs, `poll_read`: which bytes reach the buffer, which are kept, and which count is
-- returned.
use rust_libp2p_nym.Prelude.{
  ℕ, ◌+◌, ◌-◌, ◌≤◌, ◌<◌, min, ◌≡◌, ◌≢◌, refl, sym, List, [], ◌∷◌, ◌++◌, Option, none, some, arith,
  length, take, drop, length-take, length-drop, length-append, take-length, drop-length, append-nil,
  append_assoc, ltb, if◌then◌else◌, ok, Bool-cases, ltb-false, ltb_lt, ltb_ge, ==_ne, ==_refl,
  take-min, drop-min, drop_behind, take-append, drop-drop, take-append_ge, take-append_le,
  drop-append_ge, drop-append_le, le_or_lt, inl, inr,
}
use rust_libp2p_nym.Foreign.{Foreign}
use rust_libp2p_nym.Channel.{Channels, Poll, ready, pending}
use rust_libp2p_nym.Substream.{Substream, Read, copy_into, read_inbound, read_unread}

-- The buffer after `bytes` has been written over its front, as far as it has room.
abbrev pub overwrite : List ℕ → List ℕ → List ℕ
overwrite buf bytes = take (length buf) bytes ++ drop (length bytes) buf

-- What does not fit the room is kept.
extra_kept :
    (room : ℕ) (bytes : List ℕ)
    → (if ltb room (length bytes) then drop room bytes else []) ≡ drop room bytes
extra_kept room bytes = elim (Bool-cases (ltb room (length bytes))) [
  | inl more ↦ rw more
  | inr fits ↦ rw fits (sym (drop-length room bytes (ltb-false room (length bytes) fits)))
]

-- The second copy, behind the unread data `u` in the buffer.
second_copy :
    (u buf bytes : List ℕ)
    → length u < length buf
    → let front = u ++ drop (length u) buf in
      let copy = take (min (length buf - length u) (length bytes)) bytes in
      take (length u) front ++ (copy ++ drop (length u + length copy) front)
      ≡ overwrite buf (u ++ bytes)
second_copy u buf bytes lt =
    let room = length buf - length u in
    let front = u ++ drop (length u) buf in
    let copy = take (min room (length bytes)) bytes in
    let size = length-take (min room (length bytes)) bytes in
    let past : length u + length copy - length u ≡ length copy = omega arith in
    let swap : min room (length bytes) ≡ min (length bytes) room = omega arith in
    cc (
      take-append u (drop (length u) buf),
      drop-append_ge (length u + length copy) u (drop (length u) buf) (omega arith),
      past,
      drop-drop (length copy) (length u) buf,
      drop_behind (length u + length copy) (u ++ bytes) buf
          (omega (arith, size, length-append u bytes)),
      take-append_ge (length buf) u bytes (omega arith),
      take-min room bytes,
      swap,
      append_assoc u copy (drop (length u + length copy) buf),
    )

module _ ⦃f : Foreign⦄ ⦃c : Channels⦄ where
  copy_into_fits :
      (buf : List ℕ) (at : ℕ) (bytes : List ℕ)
      → at + length bytes ≤ length buf
      → copy_into buf at bytes ≡ ok (take at buf ++ (bytes ++ drop (at + length bytes) buf))
  unfolding copy_into
  copy_into_fits buf at bytes h = ground arith

  abbrev pub with_unread : Substream → List ℕ → Substream
  with_unread s u = record s { unread_data = u }

  -- After the first part the front of the buffer holds the unread data, as far as it has room.
  read_unread-overwrite :
      (s : Substream) (u buf : List ℕ) (inbound : Poll (Option (List ℕ)))
      → read_unread (with_unread s u) buf inbound
        ≡ read_inbound
            (with_unread s (drop (length buf) u))
            (overwrite buf u)
            (min (length u) (length buf))
            inbound
  unfolding read_unread drop take
  read_unread-overwrite s [] buf inbound = rw (
    drop-length {A = ℕ} (length buf) [] (omega arith),
    take-length {A = ℕ} (length buf) [] (omega arith),
    no_room,
  )
    where
      no_room : min 0 (length buf) ≡ 0
      no_room = omega arith
  read_unread-overwrite s (x ∷ u) buf inbound =
      let all = x ∷ u in
      let k = min (length all) (length buf) in
      let prefix = take k all in
      let size : length prefix ≡ k = omega (arith, length-take k all) in
      rw (ltb_lt 0 (length all) (omega arith), copy_into_fits buf 0 prefix (omega arith))
        (cc (
          drop-min (length buf) all,
          take-min (length buf) all,
          drop_behind (0 + length prefix) all buf (omega arith),
        ))

  -- With inbound bytes behind the unread ones: `v` is still unread, and the first `k` bytes of the
  -- buffer are filled.
  read_inbound_room :
      (s : Substream) (u buf bytes : List ℕ)
      → length u < length buf
      → read_inbound (with_unread s []) (u ++ drop (length u) buf) (length u) (ready (some bytes))
        ≡ record {
          result = ok (ready (min (length buf - length u) (length bytes)));
          buf = overwrite buf (u ++ bytes);
          stream = with_unread s (drop (length buf - length u) bytes);
        }
  unfolding read_inbound
  read_inbound_room s u buf bytes lt =
      let whole : length (u ++ drop (length u) buf) ≡ length buf =
        omega (arith, length-append u (drop (length u) buf), length-drop (length u) buf) in
      let room = length buf - length u in
      let copied = min room (length bytes) in
      rw
        (
          whole,
          ==_ne (length u) (length buf) (omega arith),
          copy_into_fits (u ++ drop (length u) buf) (length u) (take copied bytes)
              (omega (arith, length-take copied bytes)),
          whole,
        )
        (cc (second_copy u buf bytes lt, extra_kept room bytes))

  -- With the buffer full of unread data, the inbound bytes are kept behind it.
  read_inbound_full :
      (s : Substream) (u buf bytes : List ℕ)
      → length buf ≤ length u
      → read_inbound
          (with_unread s (drop (length buf) u))
          (overwrite buf u)
          (length buf)
          (ready (some bytes))
        ≡ record {
          result = ok (ready (length buf));
          buf = overwrite buf (u ++ bytes);
          stream = with_unread s (drop (length buf) (u ++ bytes));
        }
  unfolding read_inbound
  read_inbound_full s u buf bytes le =
      let whole : length (overwrite buf u) ≡ length buf = omega (
        arith,
        length-append (take (length buf) u) (drop (length u) buf),
        length-take (length buf) u,
        length-drop (length u) buf,
      ) in
      rw (whole, ==_refl (length buf))
        (cc (
          drop-append_le (length buf) u bytes le,
          take-append_le (length buf) u bytes le,
          drop-length (length u) buf le,
          drop-length (length (u ++ bytes)) buf (omega (arith, length-append u bytes)),
        ))

  -- The bytes that a poll of the channel brings.
  abbrev pub arrived : Poll (Option (List ℕ)) → List ℕ
  arrived (ready (some bytes)) = bytes
  arrived _ = []

  -- The poll's result for `u` unread bytes and a buffer of `n` bytes.
  abbrev pub returned : ℕ → ℕ → Poll (Option (List ℕ)) → Poll ℕ
  returned u n (ready (some bytes)) = ready (if ltb u n then min (n - u) (length bytes) else n)
  returned u n _ = if ltb 0 (min u n) then ready (min u n) else pending

  abbrev pub read_result : Substream → List ℕ → List ℕ → Poll (Option (List ℕ)) → Read
  read_result s u buf inbound = record {
    result = ok (returned (length u) (length buf) inbound);
    buf = overwrite buf (u ++ arrived inbound);
    stream = with_unread s (drop (length buf) (u ++ arrived inbound));
  }

  read_unread_data :
      (s : Substream) (u buf bytes : List ℕ)
      → read_unread (with_unread s u) buf (ready (some bytes))
        ≡ read_result s u buf (ready (some bytes))
  read_unread_data s u buf bytes = elim (le_or_lt (length buf) (length u)) [
    | inl full ↦
        let k : min (length u) (length buf) ≡ length buf = omega arith in
        rw (
          read_unread-overwrite s u buf (ready (some bytes)),
          k,
          read_inbound_full s u buf bytes full,
          ltb_ge (length u) (length buf) full,
        )
    | inr room ↦
        let k : min (length u) (length buf) ≡ length u = omega arith in
        rw (
          read_unread-overwrite s u buf (ready (some bytes)),
          k,
          drop-length (length buf) u (omega arith),
          take-length (length buf) u (omega arith),
          read_inbound_room s u buf bytes room,
          ltb_lt (length u) (length buf) room,
          drop-append_ge (length buf) u bytes (omega arith),
        )
  ]

  -- Without data from the channel: the unread bytes alone.
  read_unread_alone :
      (s : Substream) (u buf : List ℕ) (inbound : Poll (Option (List ℕ)))
      → ((bytes : List ℕ) → inbound ≢ ready (some bytes))
      → read_unread (with_unread s u) buf inbound ≡ read_result s u buf inbound
  unfolding read_inbound
  read_unread_alone s u buf (ready (some bytes)) no_data = absurd (no_data bytes refl)
  read_unread_alone s u buf (ready none) no_data =
      rw (read_unread-overwrite s u buf (ready none), append-nil) (ground arith)
  read_unread_alone s u buf pending no_data =
      rw (read_unread-overwrite s u buf pending, append-nil) (ground arith)

  pub read_unread_lem :
      (s : Substream) (u buf : List ℕ) (inbound : Poll (Option (List ℕ)))
      → read_unread (with_unread s u) buf inbound ≡ read_result s u buf inbound
  read_unread_lem s u buf (ready (some bytes)) = read_unread_data s u buf bytes
  read_unread_lem s u buf (ready none) = read_unread_alone s u buf (ready none) (λ b e. cc)
  read_unread_lem s u buf pending = read_unread_alone s u buf pending (λ b e. cc)
