-- ===== src/Dataplane/Frames/Encode.antt =====
-- The frames of an Initial packet's payload, written out.
use v6proxy.Prelude.{ℕ, ◌<◌, ◌≡◌, false, ◌||◌, ◌++◌, List, [], ◌∷◌, ◌==◌, eq_ℕ, length, ◌^◌}
use v6proxy.Dataplane.Bytes.{Bytes}
use v6proxy.Dataplane.Varint.Encode.{encode_varint}

-- The frames that the reader goes through.
pub data Frame : Type 0 where
  padding : Frame
  ping : Frame
  crypto_frame : ℕ → Bytes → Frame

-- The encoding of the frames, with `rest` behind them.
unfoldable pub encode_frames : List Frame → Bytes → Bytes
encode_frames [] rest = rest
encode_frames (padding ∷ frames) rest = 0 ∷ encode_frames frames rest
encode_frames (ping ∷ frames) rest = 1 ∷ encode_frames frames rest
encode_frames (crypto_frame offset bytes ∷ frames) rest =
    6 ∷ encode_varint offset
    ++ (encode_varint (length bytes) ++ (bytes ++ encode_frames frames rest))

-- The end of the payload, or a frame of another type, such as ACK.
abbrev pub IsEnd : Bytes → Type 0
IsEnd [] = Unit
IsEnd (frame_type ∷ more) =
    ((frame_type == 0 || frame_type == 1) ≡ false) × ((frame_type == 6) ≡ false)

-- The data of the CRYPTO frames in the order of the frames, whatever their offsets.
unfoldable pub collect : List Frame → Bytes
collect [] = []
collect (padding ∷ frames) = collect frames
collect (ping ∷ frames) = collect frames
collect (crypto_frame offset bytes ∷ frames) = bytes ++ collect frames

abbrev pub IsEncodable : Frame → Type 0
IsEncodable padding = Unit
IsEncodable ping = Unit
IsEncodable (crypto_frame offset bytes) = (offset < 2 ^ 62) × (length bytes < 2 ^ 62)
