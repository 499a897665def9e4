-- ===== src/Dataplane/Frames/Laws.antt =====
-- The frame loop: no panic, and what it collects.
use mathlib.Core.List.{append-nil, append_assoc}
use v6proxy.Prelude.{
  ℕ, zero, suc, ◌+◌, ◌≤◌, ◌<◌, ◌≡◌, refl, false, ◌||◌, ◌++◌, List, [], ◌∷◌, leb, ltb, ◌==◌, eq_ℕ,
  length, lt→ltb, arith, ltb→lt, All, length-append, sym, ap, ◌∙◌,
}
use v6proxy.Dataplane.Bytes.{Bytes, IsSafe}
use v6proxy.Dataplane.Bytes.At.{index_at, slice_rest, slice_part}
use v6proxy.Dataplane.Bytes.Safe.{index-IsSafe, slice-IsSafe, bind-IsSafe, if-IsSafe}
use v6proxy.Dataplane.Varint.{read_varint}
use v6proxy.Dataplane.Varint.Encode.{read_varint-IsSafe, encode_varint, read_varint-encode_varint}
use v6proxy.Dataplane.Frames.Encode.{
  Frame, padding, ping, crypto_frame, encode_frames, IsEnd, collect, IsEncodable,
}
use v6proxy.Dataplane.Frames.{finish, crypto_loop, extract_crypto_data}

finish-IsSafe : (crypto : Bytes) → IsSafe (finish crypto)
finish-IsSafe [] = tt
finish-IsSafe (b ∷ crypto) = tt

crypto_loop-IsSafe :
    (fuel : ℕ) (payload : Bytes) (pos : ℕ) (crypto : Bytes)
    → 0 < fuel
    → length payload < pos + fuel
    → IsSafe (crypto_loop fuel payload pos crypto)
unfolding crypto_loop
crypto_loop-IsSafe zero payload pos crypto some_fuel enough = absurd (omega arith)
crypto_loop-IsSafe (suc fuel) payload pos crypto some_fuel enough =
    if-IsSafe (ltb pos (length payload)) _ _
      (λ more.
        let more' : pos < length payload = ltb→lt pos (length payload) more in
        index-IsSafe payload pos _ more' λ frame_type.
          if-IsSafe (frame_type == 0 || frame_type == 1) _ _
            (λ _. crypto_loop-IsSafe fuel payload (pos + 1) crypto (omega arith) (omega arith))
            (λ _.
              if-IsSafe (frame_type == 6) _ _
                (λ _.
                  if-IsSafe (leb (length payload) (pos + 1)) _ _ (λ _. finish-IsSafe crypto)
                    (λ _.
                      slice-IsSafe payload (pos + 1) (length payload) _ (omega arith) (omega arith)
                        λ rest size.
                          bind-IsSafe (read_varint rest) _ (read_varint-IsSafe rest) λ offset _.
                            if-IsSafe (leb (length payload) (pos + 1 + offset.1)) _ _
                              (λ _. finish-IsSafe crypto)
                              (λ inside.
                                let inside' : pos + 1 + offset.1 < length payload = ground arith in
                                slice-IsSafe payload (pos + 1 + offset.1) (length payload) _
                                  (omega arith) (omega arith)
                                  λ rest' _.
                                    bind-IsSafe (read_varint rest') _ (read_varint-IsSafe rest')
                                      λ len _.
                                        let start = pos + 1 + offset.1 + len.1 in
                                        if-IsSafe (ltb (length payload) (start + len.0)) _ _
                                          (λ _. finish-IsSafe crypto)
                                          (λ whole.
                                            let whole' : start + len.0 ≤ length payload =
                                              ground arith in
                                            slice-IsSafe payload start (start + len.0) _
                                              (omega arith) (omega arith)
                                              λ bytes _.
                                                crypto_loop-IsSafe fuel payload (start + len.0)
                                                  (crypto ++ bytes) (omega arith) (omega arith)))))
                (λ _. finish-IsSafe crypto)))
      (λ _. finish-IsSafe crypto)

-- No decrypted payload makes the frame parser slice out of bounds or run out of fuel.
pub extract_crypto_data-IsSafe : (payload : Bytes) → IsSafe (extract_crypto_data payload)
unfolding extract_crypto_data
extract_crypto_data-IsSafe payload =
    crypto_loop-IsSafe (suc (length payload)) payload 0 [] (omega arith) (omega arith)

encode_varint_pos : (v : ℕ) → 0 < length (encode_varint v)
unfolding encode_varint
encode_varint_pos v = ground arith

-- The loop, where the frames that it goes through have ended.
crypto_loop-end :
    (rest : Bytes)
    → IsEnd rest
    → (fuel : ℕ) (payload before : Bytes) (pos : ℕ) (got : Bytes) → payload ≡ before ++ rest
    → pos ≡ length before
    → crypto_loop (suc fuel) payload pos got ≡ finish got
unfolding crypto_loop
crypto_loop-end [] ends fuel payload before pos got e at =
    let size : length payload ≡ length before = ap length (e ∙ append-nil before) in
    let over : ltb pos (length payload) ≡ false = ground arith in rw over refl
crypto_loop-end (frame_type ∷ more) ends fuel payload before pos got e at =
    let size : length payload ≡ length before + suc (length more) =
      ap length e ∙ length-append before (frame_type ∷ more) in
    rw
      (
        lt→ltb pos (length payload) (omega arith),
        index_at payload before pos frame_type more e at,
        ends.0,
        ends.1,
      )
      refl

-- The loop, at a place behind which the encoded frames stand.
crypto_loop-encode_frames :
    (rest : Bytes)
    → IsEnd rest
    → (fuel : ℕ) (frames : List Frame) (payload before : Bytes) (pos : ℕ) (got : Bytes)
    → All IsEncodable frames
    → payload ≡ before ++ encode_frames frames rest
    → pos ≡ length before
    → length payload < pos + fuel
    → 0 < fuel
    → crypto_loop fuel payload pos got ≡ finish (got ++ collect frames)
unfolding crypto_loop encode_frames collect
crypto_loop-encode_frames rest ends zero frames payload before pos got h e at enough some_fuel =
    absurd (omega arith)
crypto_loop-encode_frames rest ends (suc fuel) [] payload before pos got h e at enough some_fuel =
    crypto_loop-end rest ends fuel payload before pos got e at ∙ ap finish (sym (append-nil got))
crypto_loop-encode_frames rest ends (suc fuel) (padding ∷ frames) payload before pos got h e at
      enough some_fuel =
    let e' : payload ≡ (before ++ 0 ∷ []) ++ encode_frames frames rest =
      e ∙ sym (append_assoc before (0 ∷ []) (encode_frames frames rest)) in
    let size : length payload ≡ length before + suc (length (encode_frames frames rest)) =
      ap length e ∙ length-append before (0 ∷ encode_frames frames rest) in
    let size' : length (before ++ 0 ∷ []) ≡ length before + 1 = length-append before (0 ∷ []) in
    rw
      (
        lt→ltb pos (length payload) (omega arith),
        index_at payload before pos 0 (encode_frames frames rest) e at,
      )
      (crypto_loop-encode_frames rest ends fuel frames payload (before ++ 0 ∷ []) (pos + 1) got h.1
        e' (omega arith) (omega arith) (omega arith))
crypto_loop-encode_frames rest ends (suc fuel) (ping ∷ frames) payload before pos got h e at enough
      some_fuel =
    let e' : payload ≡ (before ++ 1 ∷ []) ++ encode_frames frames rest =
      e ∙ sym (append_assoc before (1 ∷ []) (encode_frames frames rest)) in
    let size : length payload ≡ length before + suc (length (encode_frames frames rest)) =
      ap length e ∙ length-append before (1 ∷ encode_frames frames rest) in
    let size' : length (before ++ 1 ∷ []) ≡ length before + 1 = length-append before (1 ∷ []) in
    rw
      (
        lt→ltb pos (length payload) (omega arith),
        index_at payload before pos 1 (encode_frames frames rest) e at,
      )
      (crypto_loop-encode_frames rest ends fuel frames payload (before ++ 1 ∷ []) (pos + 1) got h.1
        e' (omega arith) (omega arith) (omega arith))
crypto_loop-encode_frames rest ends (suc fuel) (crypto_frame offset bytes ∷ frames) payload before
      pos got h e at enough some_fuel =
    let a = encode_varint offset in
    let b = encode_varint (length bytes) in
    let tail = encode_frames frames rest in
    let p1 = before ++ 6 ∷ [] in
    let p2 = p1 ++ a in
    let p3 = p2 ++ b in
    let e1 : payload ≡ p1 ++ (a ++ (b ++ (bytes ++ tail))) =
      e ∙ sym (append_assoc before (6 ∷ []) (a ++ (b ++ (bytes ++ tail)))) in
    let e2 : payload ≡ p2 ++ (b ++ (bytes ++ tail)) =
      e1 ∙ sym (append_assoc p1 a (b ++ (bytes ++ tail))) in
    let e3 : payload ≡ p3 ++ (bytes ++ tail) = e2 ∙ sym (append_assoc p2 b (bytes ++ tail)) in
    let e4 : payload ≡ (p3 ++ bytes) ++ tail = e3 ∙ sym (append_assoc p3 bytes tail) in
    let l1 : length p1 ≡ length before + 1 = length-append before (6 ∷ []) in
    let l2 : length p2 ≡ length p1 + length a = length-append p1 a in
    let l3 : length p3 ≡ length p2 + length b = length-append p2 b in
    let l4 : length (p3 ++ bytes) ≡ length p3 + length bytes = length-append p3 bytes in
    let l5 : length payload ≡ length (p3 ++ bytes) + length tail =
      ap length e4 ∙ length-append (p3 ++ bytes) tail in
    let pa : 0 < length a = encode_varint_pos offset in
    let pb : 0 < length b = encode_varint_pos (length bytes) in
    let more : leb (length payload) (pos + 1) ≡ false = ground arith in
    let more' : leb (length payload) (pos + 1 + length a) ≡ false = ground arith in
    let fits : ltb (length payload) (pos + 1 + length a + length b + length bytes) ≡ false =
      ground arith in
    rw
      (
        lt→ltb pos (length payload) (omega arith),
        index_at payload before pos 6 (a ++ (b ++ (bytes ++ tail))) e at,
        more,
        slice_rest payload p1 (pos + 1) (a ++ (b ++ (bytes ++ tail))) e1 (omega arith),
        read_varint-encode_varint offset (b ++ (bytes ++ tail)) h.0.0,
        more',
        slice_rest payload p2 (pos + 1 + length a) (b ++ (bytes ++ tail)) e2 (omega arith),
        read_varint-encode_varint (length bytes) (bytes ++ tail) h.0.1,
        fits,
        slice_part payload p3 (pos + 1 + length a + length b) bytes tail
            (pos + 1 + length a + length b + length bytes) e3 (omega arith) refl,
      )
      (crypto_loop-encode_frames rest ends fuel frames payload (p3 ++ bytes)
          (pos + 1 + length a + length b + length bytes) (got ++ bytes) h.1 e4 (omega arith)
          (omega arith) (omega arith)
        ∙ ap finish (append_assoc got bytes (collect frames)))

-- From PADDING, PING and CRYPTO frames, whose offsets and lengths a varint can hold, with the end
-- of the payload or a frame of another type behind them, what is extracted is the data of these
-- CRYPTO frames in the order of the frames, whatever their offsets, or nothing when there is none;
-- what follows the frame of another type is not read.
pub extract_crypto_data-encode_frames :
    (frames : List Frame) (rest : Bytes)
    → All IsEncodable frames
    → IsEnd rest
    → extract_crypto_data (encode_frames frames rest) ≡ finish (collect frames)
unfolding extract_crypto_data
extract_crypto_data-encode_frames frames rest h ends =
    crypto_loop-encode_frames rest ends (suc (length (encode_frames frames rest))) frames
      (encode_frames frames rest) [] 0 [] h refl refl (omega arith) (omega arith)
