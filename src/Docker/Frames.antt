-- ===== src/Docker/Frames.antt =====
-- Docker's multiplexed stream, and what `demuxStream` of internal/docker/manager.go makes of it.
use kariz.Prelude.{
  ℕ, zero, suc, ◌≡◌, ◌<◌, ◌≤◌, refl, ◌+◌, ◌*◌, ◌/◌, ◌%◌, ◌==◌, true, false, none, some, List, [],
  ◌∷◌, ◌++◌, Bytes, All, length, length-append, if◌then◌else◌, arith,
}
use kariz.Docker.{
  StreamName, stdout, stderr, OutputChunk, chunk_at, Rounds, read_full, stream_name, payload_size,
  send, receive, demux_from, demux_stream,
}

-- A frame: byte 0 of its header, bytes 1 to 3, and the payload.
pub record Frame : Type 0 where
  pub kind : ℕ
  pub byte1 : ℕ
  pub byte2 : ℕ
  pub byte3 : ℕ
  pub payload : Bytes

-- The size in four bytes, the most significant first.
abbrev pub big_endian : ℕ → Bytes
big_endian n = n / 16777216 % 256 ∷ n / 65536 % 256 ∷ n / 256 % 256 ∷ n % 256 ∷ []

abbrev pub header : Frame → Bytes
header f = f.kind ∷ f.byte1 ∷ f.byte2 ∷ f.byte3 ∷ big_endian (length f.payload)

abbrev pub encode : List Frame → Bytes → Bytes
encode [] tail = tail
encode (f ∷ fs) tail = header f ++ (f.payload ++ encode fs tail)

-- The chunks of the frames whose payload is not empty, from the `n`th round on.
abbrev pub chunks : (ℕ → ℕ) → ℕ → List Frame → List OutputChunk
chunks time n [] = []
chunks time n (f ∷ fs) =
    let rest = chunks time (suc n) fs in
    if length f.payload == 0
    then rest
    else chunk_at (if f.kind == 2 then stderr else stdout) f.payload (time n) ∷ rest

read_full-append : (p rest : Bytes) → read_full (length p) (p ++ rest) ≡ some (p, rest)
unfolding read_full
read_full-append [] rest = refl
read_full-append (b ∷ p) rest = rw (read_full-append p rest) refl

read_full_short : (n : ℕ) (p : Bytes) → length p < n → read_full n p ≡ none
unfolding read_full
read_full_short zero p h = absurd (omega arith)
read_full_short (suc n) [] h = refl
read_full_short (suc n) (b ∷ p) h = rw (read_full_short n p (omega arith)) refl

read_header : (f : Frame) (rest : Bytes) → read_full 8 (header f ++ rest) ≡ some (header f, rest)
read_header f rest = read_full-append (header f) rest

big_endian_size :
    (n : ℕ)
    → n < 4294967296
    → ((n / 16777216 % 256 * 256 + n / 65536 % 256) * 256 + n / 256 % 256) * 256 + n % 256 ≡ n
big_endian_size n h = omega arith

payload_size-header :
    (f : Frame) → length f.payload < 4294967296 → payload_size (header f) ≡ length f.payload
unfolding payload_size
payload_size-header f h = big_endian_size (length f.payload) h

stream_name-header : (f : Frame) → stream_name (header f) ≡ (if f.kind == 2 then stderr else stdout)
unfolding stream_name
stream_name-header f = refl

-- A frame's payload fits the four bytes.
abbrev pub IsSized : Frame → Type 0
IsSized f = length f.payload < 4294967296

module _ (rounds : Rounds) (n : ℕ) (next : Bytes → List OutputChunk)
    (sent : rounds.is_sent n ≡ true) where
  sent_or_skipped :
      (name : StreamName) (p rest : Bytes)
      → (if length p == 0
          then next (p ++ rest)
          else if rounds.is_sent n
          then chunk_at name p (rounds.time n) ∷ next rest
          else [])
        ≡ (if length p == 0 then next rest else chunk_at name p (rounds.time n) ∷ next rest)
  sent_or_skipped name [] rest = refl
  sent_or_skipped name (b ∷ p) rest = rw sent (ground arith)

  receive-frame :
      (f : Frame) (rest : Bytes)
      → IsSized f
      → receive rounds n next (some (header f, f.payload ++ rest)) ≡ (
          if length f.payload == 0
          then next rest
          else chunk_at (if f.kind == 2 then stderr else stdout) f.payload (rounds.time n)
            ∷ next rest)
  unfolding receive send
  receive-frame f rest h =
      rw (payload_size-header f h, stream_name-header f, read_full-append f.payload rest)
        (sent_or_skipped _ f.payload rest)

receive_end :
    (rounds : Rounds) (n : ℕ) (next : Bytes → List OutputChunk) → receive rounds n next none ≡ []
unfolding receive
receive_end rounds n next = refl

module _ (rounds : Rounds) (running : (n : ℕ) → rounds.is_done n ≡ false)
    (sent : (n : ℕ) → rounds.is_sent n ≡ true) where
  demux_from-frames :
      (fs : List Frame) (fuel n : ℕ) (tail : Bytes)
      → All IsSized fs
      → length tail < 8
      → length fs < fuel
      → demux_from rounds fuel n (encode fs tail) ≡ chunks rounds.time n fs
  unfolding demux_from
  demux_from-frames fs zero n tail sized short h = absurd (omega arith)
  demux_from-frames [] (suc fuel) n tail sized short h =
      rw (running n, read_full_short 8 tail short) (receive_end rounds n _)
  demux_from-frames (f ∷ fs) (suc fuel) n tail sized short h =
      rw
        (
          running n,
          read_header f (f.payload ++ encode fs tail),
          receive-frame rounds n (demux_from rounds fuel (suc n)) (sent n) f (encode fs tail)
              sized.0,
          demux_from-frames fs fuel (suc n) tail sized.1 short (omega arith),
        )
        refl

  length-encode : (fs : List Frame) (tail : Bytes) → length fs ≤ length (encode fs tail)
  length-encode [] tail = omega arith
  length-encode (f ∷ fs) tail =
      omega (arith, length-append f.payload (encode fs tail), length-encode fs tail)

  -- While the context is not done and each chunk is taken, the demultiplexer sends, for a stream of whole frames with
  -- payloads below 4 GiB and at most a part of a header after them, the payloads that are not empty, in order, each
  -- under the name of its stream (a kind other than 2 is stdout), and then ends.
  pub demux_stream-frames :
      (fs : List Frame) (tail : Bytes)
      → All IsSized fs
      → length tail < 8
      → demux_stream rounds (encode fs tail) ≡ chunks rounds.time 0 fs
  unfolding demux_stream
  demux_stream-frames fs tail sized short =
      demux_from-frames fs (suc (length (encode fs tail))) 0 tail sized short
        (omega (arith, length-encode fs tail))
