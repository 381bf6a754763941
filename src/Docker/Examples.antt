-- ===== src/Docker/Examples.antt =====
-- Tests and instances for internal/docker/manager.go.
use kariz.Prelude.{ℕ, ◌≡◌, refl, ◌+◌, true, false, List, [], ◌∷◌, Bytes, arith}
use kariz.Docker.{
  stdout, stderr, chunk_at, Rounds, read_full, stream_name, payload_size, send, receive, demux_from,
  demux_stream,
}
use kariz.Docker.Frames.{Frame, encode, demux_stream-frames}

abbrev rounds : Rounds
rounds = record { is_done = (λ n. false); is_sent = (λ n. true); time = (λ n. 100 + n) }

abbrev frame : ℕ → Bytes → Frame
frame kind payload = record { kind = kind; byte1 = 0; byte2 = 0; byte3 = 0; payload = payload }

-- "hi" on stdout, nothing, and "no" on stderr.
abbrev frames : List Frame
frames = frame 1 (104 ∷ 105 ∷ []) ∷ frame 1 [] ∷ frame 2 (110 ∷ 111 ∷ []) ∷ []

demux_stream-frames_example :
    demux_stream rounds (encode frames (1 ∷ 0 ∷ []))
    ≡ chunk_at stdout (104 ∷ 105 ∷ []) 100 ∷ chunk_at stderr (110 ∷ 111 ∷ []) 102 ∷ []
demux_stream-frames_example =
    demux_stream-frames rounds (λ n. refl) (λ n. refl) frames (1 ∷ 0 ∷ [])
      (omega arith, (omega arith, (omega arith, tt))) (omega arith)

-- A payload that is cut short is dropped.
cut_run : demux_stream rounds (1 ∷ 0 ∷ 0 ∷ 0 ∷ 0 ∷ 0 ∷ 0 ∷ 3 ∷ 104 ∷ 105 ∷ []) ≡ []
unfolding demux_stream demux_from receive send read_full stream_name payload_size
cut_run = refl
