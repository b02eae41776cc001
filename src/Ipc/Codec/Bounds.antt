-- ===== src/Ipc/Codec/Bounds.antt =====
-- Which values fit in a frame.
use cadder.Base.{
  ℕ, ◌-◌, ◌≤◌, ◌<◌, ◌≡◌, refl, sym, String, Bool, false, List, [], ◌∷◌, ◌++◌, Result, ok, err,
  length, length-append, append_assoc, append_nil, concat, arith, if-elim, ltb, if◌then◌else◌,
  subst,
}
use cadder.Ipc.Codec.{
  IpcCodecError, BoundedFrameBuffer, write, write_chunks, framed, encode_json_frame,
}

-- What a frame is made of, by the bytes that are to be written.
abbrev pub Encodes : List ℕ → Result (Unit {0}) String → Result (List ℕ) IpcCodecError → Type 0
Encodes bytes end (ok frame) =
    (end ≡ ok tt) × (length bytes ≤ 1048576) × (frame ≡ bytes ++ b'\n' ∷ [])
Encodes bytes end (err IpcCodecError.frame_too_large) = 1048576 < length bytes
Encodes bytes end (err (IpcCodecError.serialization e)) = (end ≡ err e) × (length bytes ≤ 1048576)

abbrev going :
    List (List ℕ)
    → Result (Unit {0}) String
    → BoundedFrameBuffer × Bool
    → Result (List ℕ) IpcCodecError
unfolding write_chunks
going chunks end (b, taken) =
    framed
      (if taken then write_chunks chunks end b else (b, err "serialized IPC frame exceeds 1 MiB"))

-- From a buffer that has some bytes.
write_chunks-Encodes :
    (chunks : List (List ℕ)) (end : Result (Unit {0}) String) (bytes : List ℕ)
    → length bytes ≤ 1048576
    → Encodes
        (bytes ++ concat chunks)
        end
        (framed (write_chunks chunks end (record { bytes = bytes; exceeded = false })))
unfolding write_chunks write
write_chunks-Encodes [] (ok u) bytes h =
    subst (λ xs. Encodes xs (ok u) (ok (bytes ++ b'\n' ∷ []))) (sym (append_nil bytes))
      (refl, h, refl)
write_chunks-Encodes [] (err e) bytes h =
    subst (λ xs. Encodes xs (err e) (err (IpcCodecError.serialization e))) (sym (append_nil bytes))
      (refl, h)
write_chunks-Encodes (chunk ∷ chunks) end bytes h =
    if-elim (λ p. Encodes (bytes ++ (chunk ++ concat chunks)) end (going chunks end p))
      (ltb (1048576 - length bytes) (length chunk))
      (λ over.
        let whole = length-append bytes (chunk ++ concat chunks) in
        let rest = length-append chunk (concat chunks) in ground (arith, over, whole, rest, h))
      (λ fits.
        subst
          (λ xs. Encodes xs end (
            framed (write_chunks chunks end (record { bytes = bytes ++ chunk; exceeded = false }))))
          (append_assoc bytes chunk (concat chunks))
          (write_chunks-Encodes chunks end (bytes ++ chunk)
            (let more = length-append bytes chunk in ground (arith, fits, more, h))))

-- A frame is made exactly of a value that serializes to at most 1 MiB: it is those bytes and a line
-- feed. A value that is longer is refused as too large, whatever comes of its serialization, and one
-- that fits is refused only with the error of its serialization.
pub encode_json_frame-Encodes :
    (chunks : List (List ℕ)) (end : Result (Unit {0}) String)
    → Encodes (concat chunks) end (encode_json_frame chunks end)
unfolding encode_json_frame
encode_json_frame-Encodes chunks end = write_chunks-Encodes chunks end [] (omega arith)
