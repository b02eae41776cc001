-- ===== src/Ipc/Codec.antt =====
-- crates/cadder-daemon/src/ipc_codec.rs: frames of JSON that end with a line feed and are bounded.
pub mod Bounds
use cadder.Base.{
  ℕ, ◌+◌, ◌-◌, ◌*◌, String, Bool, true, false, List, [], ◌∷◌, ◌++◌, Option, none, some, Result, ok,
  err, length, ltb, if◌then◌else◌,
}

abbrev pub max_ipc_frame_length : ℕ
max_ipc_frame_length = 1024 * 1024

pub data IpcCodecError : Type 0 where
  frame_too_large : IpcCodecError
  serialization : String → IpcCodecError

pub record BoundedFrameBuffer : Type 0 where
  pub bytes : List ℕ
  pub exceeded : Bool

abbrev pub new_buffer : BoundedFrameBuffer
new_buffer = record { bytes = []; exceeded = false }

-- `BoundedFrameBuffer::write`, and whether it took the bytes.
unfoldable pub write : List ℕ → BoundedFrameBuffer → BoundedFrameBuffer × Bool
write chunk b =
    if ltb (max_ipc_frame_length - length b.bytes) (length chunk)
    then (record b { exceeded = true }, false)
    else (record b { bytes = b.bytes ++ chunk }, true)

-- `serde_json::to_writer`: the chunks that it writes until a write fails, and then its own end.
write_chunks :
    List (List ℕ)
    → Result (Unit {0}) String
    → BoundedFrameBuffer
    → BoundedFrameBuffer × Result (Unit {0}) String
unfolding write
write_chunks [] end b = (b, end)
write_chunks (chunk ∷ chunks) end b =
    let (b', taken) = write chunk b in
    if taken then write_chunks chunks end b' else (b', err "serialized IPC frame exceeds 1 MiB")

abbrev framed : BoundedFrameBuffer × Result (Unit {0}) String → Result (List ℕ) IpcCodecError
framed (b, ok _) = ok (b.bytes ++ b'\n' ∷ [])
framed (b, err e) =
    if b.exceeded then err IpcCodecError.frame_too_large else err (IpcCodecError.serialization e)

unfoldable pub encode_json_frame :
    List (List ℕ) → Result (Unit {0}) String → Result (List ℕ) IpcCodecError
unfolding write_chunks
encode_json_frame chunks end = framed (write_chunks chunks end new_buffer)
