-- ===== src/Docker.antt =====
-- internal/docker/manager.go: the stream of an attached container, and what a container's environment says.
pub mod Frames
mod Examples
use kariz.Prelude.{
  ℕ, zero, suc, ◌+◌, ◌*◌, ◌==◌, Bool, Option, none, some, List, [], ◌∷◌, Bytes, length,
  if◌then◌else◌,
}

pub data StreamName : Type 0 where
  stdout stderr : StreamName

-- `Data` by its bytes.
pub record OutputChunk : Type 0 where
  pub stream : StreamName
  pub data_bytes : Bytes
  pub timestamp : ℕ

-- In each round of the loop: whether the context is done at its start, whether the chunk is sent before the
-- context is done, and the time.
pub record Rounds : Type 0 where
  pub is_done : ℕ → Bool
  pub is_sent : ℕ → Bool
  pub time : ℕ → ℕ

abbrev pub onto : ℕ → Option (Bytes × Bytes) → Option (Bytes × Bytes)
onto b none = none
onto b (some r) = some (b ∷ r.0, r.1)

-- `io.ReadFull` into a buffer of `n` bytes: what it read and what is left, or none if the stream ends before.
unfoldable pub read_full : ℕ → Bytes → Option (Bytes × Bytes)
read_full zero bytes = some ([], bytes)
read_full (suc n) [] = none
read_full (suc n) (b ∷ bytes) = onto b (read_full n bytes)

unfoldable pub stream_name : Bytes → StreamName
stream_name [] = stdout
stream_name (b ∷ header) = if b == 2 then stderr else stdout

-- `binary.BigEndian.Uint32(header[4:8])`.
unfoldable pub payload_size : Bytes → ℕ
payload_size (_ ∷ _ ∷ _ ∷ _ ∷ b4 ∷ b5 ∷ b6 ∷ b7 ∷ _) = ((b4 * 256 + b5) * 256 + b6) * 256 + b7
payload_size _ = 0

abbrev pub chunk_at : StreamName → Bytes → ℕ → OutputChunk
chunk_at name payload now = record { stream = name; data_bytes = payload; timestamp = now }

module _ (rounds : Rounds) (n : ℕ) (next : Bytes → List OutputChunk) where
  unfoldable pub send : StreamName → Option (Bytes × Bytes) → List OutputChunk
  send name none = []
  send name (some r) =
      let rest = next r.1 in
      if rounds.is_sent n then chunk_at name r.0 (rounds.time n) ∷ rest else []

  unfoldable pub receive : Option (Bytes × Bytes) → List OutputChunk
  receive none = []
  receive (some r) =
      let size = payload_size r.0 in
      if size == 0 then next r.1 else send (stream_name r.0) (read_full size r.1)

module _ (rounds : Rounds) where
  -- The rounds of the loop from the `n`th on. Each reads a header of 8 bytes.
  unfoldable pub demux_from : ℕ → ℕ → Bytes → List OutputChunk
  demux_from zero n bytes = []
  demux_from (suc fuel) n bytes =
      let next = demux_from fuel (suc n) in
      if rounds.is_done n then [] else receive rounds n next (read_full 8 bytes)

  -- The chunks sent to the channel, which is closed after them.
  unfoldable pub demux_stream : Bytes → List OutputChunk
  demux_stream bytes = demux_from (suc (length bytes)) 0 bytes
