-- ===== src/Message/SubstreamId.antt =====
-- src/message.rs: SubstreamId, an array of 32 random bytes.
use rust_libp2p_nym.Prelude.{
  ℕ, ◌≤◌, ◌≡◌, ◌↔◌, ap, List, Bool, true, ◌∙◌, length, take, take-length, length-take, Outcome, ok,
  ◌>>=◌, slice, copy_from_slice, arith, slice_prefix, copy_from_slice_fits,
}
use rust_libp2p_nym.Prelude.Bytes.{bytes_eq, bytes_eq_iff}
use rust_libp2p_nym.Prelude.HashMap.{Eq}

abbrev pub substream_id_length : ℕ
substream_id_length = 32

-- `struct SubstreamId([u8; 32])`
pub record SubstreamId : Type 0 where
  pub bytes : List ℕ

-- The bound of the array type.
abbrev pub IsSubstreamId : SubstreamId → Type 0
IsSubstreamId id = length id.bytes ≡ substream_id_length

-- The random bytes that OsRng fills in are the argument.
pub generate : List ℕ → SubstreamId
generate random = record { bytes = random }

unfoldable pub from_bytes : {E : Type 0} → List ℕ → Outcome E SubstreamId
from_bytes bytes = do
  source ← slice bytes 0 substream_id_length
  id ← copy_from_slice substream_id_length source
  ok (record { bytes = id })

-- The derived `PartialEq`.
unfoldable pub eq : SubstreamId → SubstreamId → Bool
eq a b = bytes_eq a.bytes b.bytes

pub eq_iff : (a b : SubstreamId) → (eq a b ≡ true) ↔ (a ≡ b)
unfolding eq
eq_iff a b = (
  λ e. sound ((bytes_eq_iff a.bytes b.bytes).0 e),
  λ e. (bytes_eq_iff a.bytes b.bytes).1 (ap (λ (x : SubstreamId). x.bytes) e),
)
  where
    sound : a.bytes ≡ b.bytes → a ≡ b
    sound e = λ i. record { bytes = e i }

-- With 32 bytes or more no index is out of range.
pub from_bytes_prefix :
    {E : Type 0} (bytes : List ℕ)
    → substream_id_length ≤ length bytes
    → from_bytes {E = E} bytes ≡ ok (record { bytes = take substream_id_length bytes })
unfolding from_bytes
from_bytes_prefix bytes h = rw (
  slice_prefix substream_id_length bytes h,
  copy_from_slice_fits substream_id_length (take substream_id_length bytes)
      (omega (arith, length-take substream_id_length bytes)),
)

pub from_bytes_array :
    {E : Type 0} (id : SubstreamId) → IsSubstreamId id → from_bytes {E = E} id.bytes ≡ ok id
from_bytes_array id h =
    from_bytes_prefix id.bytes (omega arith)
    ∙ ap (λ bytes. ok (record { bytes = bytes }))
        (take-length substream_id_length id.bytes (omega arith))

-- The key of a map.
instance abbrev pub SubstreamId_key : Eq SubstreamId
SubstreamId_key = record { eq = eq; eq_iff = eq_iff }
