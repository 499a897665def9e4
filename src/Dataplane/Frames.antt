-- ===== src/Dataplane/Frames.antt =====
-- `extract_crypto_data` of src/dataplane/quic.rs: the CRYPTO frames of a decrypted payload.
pub mod Encode
pub mod Laws
use v6proxy.Prelude.{
  ℕ, zero, suc, ◌+◌, ◌≤◌, Bool, true, false, ◌||◌, ◌++◌, List, [], ◌∷◌, if◌then◌else◌, leb, ltb,
  ◌==◌, eq_ℕ, length, is_empty,
}
use v6proxy.Dataplane.Bytes.{Bytes, Parse, found, missing, stuck, ◌>>=◌, index, slice}
use v6proxy.Dataplane.Varint.{read_varint}

-- After the loop: `None` if nothing was collected.
abbrev pub finish : Bytes → Parse Bytes
finish crypto = if is_empty crypto then missing else found crypto

-- The loop; every round reads the frame's type byte. `crypto` is the data collected so far.
crypto_loop : ℕ → Bytes → ℕ → Bytes → Parse Bytes
crypto_loop zero payload pos crypto = stuck
crypto_loop (suc fuel) payload pos crypto =
    let skip = crypto_loop fuel payload (pos + 1) crypto in
    let behind_offset = λ (pos' : ℕ). (do
      rest ← slice payload pos' (length payload)
      (len, consumed) ← read_varint rest
      let start = pos' + consumed
      let take_data = (do
        bytes ← slice payload start (start + len)
        crypto_loop fuel payload (start + len) (crypto ++ bytes))
      if ltb (length payload) (start + len) then finish crypto else take_data) in
    let crypto_frame = (do
      rest ← slice payload (pos + 1) (length payload)
      (offset, consumed) ← read_varint rest
      if leb (length payload) (pos + 1 + consumed)
          then finish crypto
          else behind_offset (pos + 1 + consumed)) in
    let crypto_or_end = if leb (length payload) (pos + 1) then finish crypto else crypto_frame in
    let round = index payload pos >>= λ frame_type.
    if frame_type == 0 || frame_type == 1
    then skip
    else if frame_type == 6
    then crypto_or_end
    else finish crypto in
    if ltb pos (length payload) then round else finish crypto

unfoldable pub extract_crypto_data : Bytes → Parse Bytes
unfolding crypto_loop
extract_crypto_data payload = crypto_loop (suc (length payload)) payload 0 []
