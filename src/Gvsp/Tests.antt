-- ===== src/Gvsp/Tests.antt =====
-- Runs of the stream's thread on small packet buffers.
use multiprocessor.Gvsp.{begin, datagram, Event, run, timeout, get_timestamp, Stream, parse, Frame}
use multiprocessor.Common.{
  ◌≤◌, ◌∷◌, true, replicate, ℕ, ok, ◌++◌, List, refl, false, arith, [], Bool, ◌≡◌,
}
use multiprocessor.Gvsp.Groups.{packets}
use multiprocessor.Gvsp.Frames.{run-groups, in_progress}
use multiprocessor.Gvsp.Timestamp.{get_timestamp-eq}

abbrev unset_frame : Frame
unset_frame = record {
  is_started = true;
  content = 7 ∷ [];
  leader_is_image = false;
  frame_id = 9;
  n_packets = 3;
  error_packets_received = 2;
  last_valid_packet = 0;
  packet_data = [];
}

-- A packet buffer of 12 bytes.
abbrev small_buffer : List ℕ
small_buffer = replicate 12 0

-- Two blocks of frame 1, the second cut short, half a second, the trailer, and a block of frame 2.
abbrev two_frames : List Event
two_frames =
    datagram (0 ∷ 0 ∷ 0 ∷ 1 ∷ 3 ∷ 0 ∷ 0 ∷ 1 ∷ 10 ∷ 11 ∷ 12 ∷ 13 ∷ [])
    ∷ datagram (0 ∷ 0 ∷ 0 ∷ 1 ∷ 3 ∷ 0 ∷ 0 ∷ 2 ∷ 20 ∷ 21 ∷ [])
    ∷ timeout
    ∷ datagram (0 ∷ 0 ∷ 0 ∷ 1 ∷ 2 ∷ 0 ∷ 0 ∷ 3 ∷ [])
    ∷ datagram (0 ∷ 0 ∷ 0 ∷ 2 ∷ 3 ∷ 0 ∷ 0 ∷ 1 ∷ 30 ∷ 31 ∷ 32 ∷ 33 ∷ [])
    ∷ []

-- The second block has the two last bytes of the first one: the thread takes all of the buffer.
abbrev their_frames : List (ℕ × List ℕ)
their_frames = (1, 10 ∷ 11 ∷ 12 ∷ 13 ∷ 20 ∷ 21 ∷ 12 ∷ 13 ∷ []) ∷ (2, 30 ∷ 31 ∷ 32 ∷ 33 ∷ []) ∷ []

run-groups_example :
    (last : Stream) × (alive : Bool) × (run true two_frames (begin unset_frame small_buffer)
      ≡ ok (last, alive))
    × (last.delivered ++ in_progress last ≡ their_frames)
unfolding packets parse
run-groups_example =
    let block_is : 3 ≡ 1 → 4 ≤ 4 = λ e. absurd (omega (arith, e)) in
    let trailer_is : 2 ≡ 1 → 4 ≤ 4 = λ e. absurd (omega (arith, e)) in
    run-groups unset_frame small_buffer two_frames _ refl
      (block_is, (block_is, (trailer_is, (block_is, tt)))) (omega arith, (omega arith, tt))

get_timestamp-eq_example : get_timestamp 1 500 125000000 ≡ 34359742368
get_timestamp-eq_example =
    get_timestamp-eq 1 500 125000000 (omega arith) (omega arith) (omega arith)
