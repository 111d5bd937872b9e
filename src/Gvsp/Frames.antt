-- ===== src/Gvsp/Frames.antt =====
-- `gvsp_thread` of capture/src/camera.c puts the frames together as its packets say.
use mathlib.Core.Option.{none-ne-some}
use mathlib.Core.Path.{subst}
use multiprocessor.Gvsp.Groups.{skip_zero, AllReadable, packets, groups, AllRoom}
use multiprocessor.Common.{
  if◌then◌else◌, ◌>>=◌, some-injective, Option-cases, some, ◌∷◌, ℕ, Bool, ◌∙◌, sym, [], List, ap,
  true, ◌==◌, ◌++◌, inr, ◌+◌, refl, ok, ◌≡◌, Bool-cases, inl, false,
}
use multiprocessor.Gvsp.{
  Frame, overlay, parse, receive, accept, begin_frame, Stream, Packet, Event, datagram, timeout,
  recv_failed, run, begin,
}
use multiprocessor.Gvsp.Accept.{Live, Idle, current, packet_lem, first_packet_lem, idle_packet_lem}

-- The frame that is under way, if there is one.
abbrev pub in_progress : Stream → List (ℕ × List ℕ)
in_progress s = if s.frame.is_started then (s.last_frame_id, s.frame.content) ∷ [] else []

-- The run of the loop, and the frames of its end: those handed over and the one under way.
record Followed (events : List Event) (s : Stream) (all : List (ℕ × List ℕ)) : Type 0 where
  pub last : Stream
  pub alive : Bool
  pub ran : run true events s ≡ ok (last, alive)
  pub frames : last.delivered ++ in_progress last ≡ all

record Seen (bytes buffer : List ℕ) (events : List Event) (ps : List Packet) : Type 0 where
  pub first : Packet
  pub later : List Packet
  pub parsed : parse (overlay bytes buffer) ≡ some first
  pub rest : packets (overlay bytes buffer) events ≡ some later
  pub all : ps ≡ first ∷ later

packets_lem :
    (bytes buffer : List ℕ) (events : List Event) (ps : List Packet)
    → packets buffer (datagram bytes ∷ events) ≡ some ps
    → Seen bytes buffer events ps
unfolding packets
packets_lem bytes buffer events ps seen = elim (Option-cases (parse (overlay bytes buffer))) [
  | inl missing ↦ absurd (none-ne-some ps (sym (rw (packets, missing) refl) ∙ seen))
  | inr (p, parsed) ↦ elim (Option-cases (packets (overlay bytes buffer) events)) [
    | inl missing ↦ absurd (none-ne-some ps (sym (rw (packets, parsed, missing) refl) ∙ seen))
    | inr (later, rest) ↦ record {
      first = p;
      later = later;
      parsed = parsed;
      rest = rest;
      all = some-injective (sym seen ∙ rw (packets, parsed, rest) refl);
    }
  ]
]

receive_lem :
    (p : Packet) (bytes : List ℕ) (s s' : Stream)
    → parse (overlay bytes s.packet) ≡ some p
    → accept p (
        begin_frame true p (record s {
          packet = overlay bytes s.packet;
          n_received_packets = s.n_received_packets + 1;
        }))
      ≡ ok s'
    → receive true bytes s ≡ ok s'
unfolding receive
receive_lem p bytes s s' parsed ran = rw (receive, parsed) ran

datagram_lem :
    (bytes : List ℕ) (events : List Event) (s s' : Stream) (all : List (ℕ × List ℕ)) (p : Packet)
    → parse (overlay bytes s.packet) ≡ some p
    → accept p (
        begin_frame true p (record s {
          packet = overlay bytes s.packet;
          n_received_packets = s.n_received_packets + 1;
        }))
      ≡ ok s'
    → Followed events s' all
    → Followed (datagram bytes ∷ events) s all
unfolding run
datagram_lem bytes events s s' all p parsed taken f = record {
  last = f.last;
  alive = f.alive;
  ran = ap (λ r. r >>= run true events) (receive_lem p bytes s s' parsed taken) ∙ f.ran;
  frames = f.frames;
}

-- A frame under way, and the packets that follow.
run-Live :
    (events : List Event) (s : Stream) (ps : List Packet)
    → Live s
    → packets s.packet events ≡ some ps
    → AllReadable ps
    → AllRoom (current s (groups ps))
    → Followed events s (s.delivered ++ current s (groups ps))
unfolding run packets
run-Live [] s ps live seen readable room = record {
  last = s;
  alive = true;
  ran = refl;
  frames = rw (live.under_way, ← some-injective seen) refl;
}
run-Live (timeout ∷ events) s ps live seen readable room =
    let f = run-Live events s ps live seen readable room in
    record { last = f.last; alive = f.alive; ran = f.ran; frames = f.frames }
run-Live (recv_failed ∷ events) s ps live seen readable room = record {
  last = s;
  alive = false;
  ran = refl;
  frames = rw (live.under_way, ← some-injective seen) refl;
}
run-Live (datagram bytes ∷ events) s ps live seen readable room =
    let h = packets_lem bytes s.packet events ps seen in
    let t : Stream = record s {
      packet = overlay bytes s.packet;
      n_received_packets = s.n_received_packets + 1;
    } in
    let readable' = rw h.all at readable in
    let room' = rw h.all at room in
    let (s', taken, live', same, left, kept) =
      packet_lem h.first h.later t
        (record { under_way = live.under_way; none_counted = live.none_counted }) readable'.0
        room' in
    let f = run-Live events s' h.later live' (rw same h.rest) readable'.1 left in
    subst (λ qs. Followed (datagram bytes ∷ events) s (s.delivered ++ current s (groups qs)))
      (sym h.all) (datagram_lem bytes events s s' _ h.first h.parsed taken (rw (← kept) f))

run-Idle :
    (events : List Event) (s : Stream) (ps : List Packet)
    → Idle s
    → packets s.packet events ≡ some ps
    → AllReadable ps
    → AllRoom (groups (skip_zero ps))
    → Followed events s (s.delivered ++ groups (skip_zero ps))
unfolding run packets
run-Idle [] s ps idle seen readable room = record {
  last = s;
  alive = true;
  ran = refl;
  frames = rw (idle.waiting, ← some-injective seen) refl;
}
run-Idle (timeout ∷ events) s ps idle seen readable room =
    let f = run-Idle events s ps idle seen readable room in
    record { last = f.last; alive = f.alive; ran = f.ran; frames = f.frames }
run-Idle (recv_failed ∷ events) s ps idle seen readable room = record {
  last = s;
  alive = false;
  ran = refl;
  frames = rw (idle.waiting, ← some-injective seen) refl;
}
run-Idle (datagram bytes ∷ events) s ps idle seen readable room =
    let h = packets_lem bytes s.packet events ps seen in
    let t : Stream = record s {
      packet = overlay bytes s.packet;
      n_received_packets = s.n_received_packets + 1;
    } in
    let idle' : Idle t = record { waiting = idle.waiting; no_id = idle.no_id } in
    let readable' = rw h.all at readable in
    let room' = rw h.all at room in
    subst (λ qs. Followed (datagram bytes ∷ events) s (s.delivered ++ groups (skip_zero qs)))
      (sym h.all)
      (elim (Bool-cases (h.first.frame_id == 0)) [
        | inl zero_id ↦
            let u : Stream = record t { n_ignored_packets = s.n_ignored_packets + 1 } in
            let f =
              run-Idle events u h.later (record { waiting = idle.waiting; no_id = idle.no_id })
                h.rest readable'.1 (rw zero_id at room') in
            datagram_lem bytes events s u _ h.first h.parsed
              (idle_packet_lem h.first t idle' zero_id) (rw zero_id f)
        | inr nonzero ↦
            let (s', taken, live', same, left, kept) =
              first_packet_lem h.first h.later t idle' readable'.0 nonzero (rw nonzero at room') in
            let f = run-Live events s' h.later live' (rw same h.rest) readable'.1 left in
            datagram_lem bytes events s s' _ h.first h.parsed taken (rw (nonzero, ← kept) f)
      ])

-- Let every datagram that comes be long enough to have its header, every leader be long enough to be
-- read, and every frame fit the buffer. Then the loop runs without a fault, and the frames that it
-- hands over, with the one under way after them, are the groups of packets next to one another with
-- one frame number: each with the bytes of its blocks, in the order in which they came. The packets
-- before the first frame number that is not 0 are left out.
pub run-groups :
    (unset : Frame) (buffer : List ℕ) (events : List Event) (ps : List Packet)
    → packets buffer events ≡ some ps
    → AllReadable ps
    → AllRoom (groups (skip_zero ps))
    → (last : Stream) × (alive : Bool) × (run true events (begin unset buffer) ≡ ok (last, alive))
      × (last.delivered ++ in_progress last ≡ groups (skip_zero ps))
unfolding begin
run-groups unset buffer events ps seen readable room =
    let f =
      run-Idle events (begin unset buffer) ps (record { waiting = refl; no_id = refl }) seen
        readable room in
    (f.last, f.alive, f.ran, f.frames)
