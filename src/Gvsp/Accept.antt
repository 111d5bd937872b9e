-- ===== src/Gvsp/Accept.antt =====
-- `gvsp_thread` of capture/src/camera.c adds each packet to the frame that it belongs to.
use mathlib.Core.Bool.{not}
use mathlib.Core.List.{append_assoc}
use mathlib.Core.List.{append-nil}
use multiprocessor.Gvsp.Groups.{
  join-join_ne, join-AllRoom, join-join_same, groups, AllRoom, join, block, Readable,
}
use multiprocessor.Common.{
  zero, ◌∷◌, suc, ◌^◌, ◌%◌, ℕ, Bool, ◌-◌, ◌∙◌, sym, [], List, ap, true, ◌==◌, arith, leb, ◌++◌, inr,
  ◌+◌, length, refl, ok, length-append, ◌≡◌, Bool-cases, ◌≤◌, inl, false,
}
use multiprocessor.Gvsp.{
  leader_read, mark, is_duplicate, accept, track, begin_frame, data_trailer, data_block,
  data_leader, max_frame_size, type_error, Stream, Packet, run, dispatch,
}

-- A frame is under way; the number of its packets is never set.
pub record Live (s : Stream) : Type 0 where
  pub under_way : s.frame.is_started ≡ true
  pub none_counted : s.frame.n_packets ≡ 0

-- What accepting a packet leaves.
record Accepted (p : Packet) (s s' : Stream) : Type 0 where
  pub live : Live s'
  pub same_id : s'.last_frame_id ≡ s.last_frame_id
  pub same_buffer : s'.packet ≡ s.packet
  pub same_delivered : s'.delivered ≡ s.delivered
  pub grown : s'.frame.content ≡ s.frame.content ++ block p

changes_content :
    (p : Packet) (s s' : Stream)
    → Live s
    → s'.frame.is_started ≡ s.frame.is_started
    → s'.frame.n_packets ≡ s.frame.n_packets
    → s'.last_frame_id ≡ s.last_frame_id
    → s'.packet ≡ s.packet
    → s'.delivered ≡ s.delivered
    → s'.frame.content ≡ s.frame.content ++ block p
    → Accepted p s s'
changes_content p s s' live a b c d e f = record {
  live = record { under_way = a ∙ live.under_way; none_counted = b ∙ live.none_counted };
  same_id = c;
  same_buffer = d;
  same_delivered = e;
  grown = f;
}

adds_nothing :
    (p : Packet) (s : Stream) → block p ≡ [] → s.frame.content ≡ s.frame.content ++ block p
adds_nothing p s e = rw e (sym (append-nil s.frame.content))

leb-true : (m n : ℕ) → m ≤ n → leb m n ≡ true
leb-true m n h = ground (arith, h)

dispatch-Accepted :
    (p : Packet) (s : Stream)
    → Live s
    → Readable p
    → (p.packet_type == type_error) ≡ false
    → length s.frame.content + length (block p) ≤ max_frame_size
    → (s' : Stream) × (dispatch p s ≡ ok s') × Accepted p s s'
unfolding dispatch
dispatch-Accepted p s live readable fine room = elim (Bool-cases (p.content_type == data_leader)) [
  | inl leader ↦
      let leads : p.content_type ≡ data_leader = ground arith in
      let long : leb (leader_read p) (length p.payload) ≡ true =
        leb-true (leader_read p) (length p.payload) (readable leads) in
      rw leader (
        rw long (
          _,
          refl,
          changes_content p s _ live refl refl refl refl refl (adds_nothing p s (ground arith)),
        ))
  | inr not_leader ↦ elim (Bool-cases (p.content_type == data_block)) [
    | inl is_block ↦
        let all : block p ≡ p.payload = ground arith in
        let fits : leb (length s.frame.content + length p.payload) max_frame_size ≡ true =
          ground (arith, room, ap length all) in
        rw not_leader (
          rw is_block
            (rw fits (_, refl, changes_content p s _ live refl refl refl refl refl (rw all refl))))
    | inr other ↦
        let nothing = adds_nothing p s (ground arith) in
        elim (Bool-cases (p.content_type == data_trailer)) [
          | inl trailer ↦ rw not_leader (
              rw other
                (rw trailer (_, refl, changes_content p s s live refl refl refl refl refl nothing)))
          | inr ignored ↦ rw not_leader (
              rw other
                (rw ignored (_, refl, changes_content p s _ live refl refl refl refl refl nothing)))
        ]
  ]
]

track_none : (flags : List Bool) (n i : ℕ) → n ≡ 0 → track n flags n i ≡ ok i
unfolding track
track_none flags zero i e = refl
track_none flags (suc n) i e = absurd (omega arith)

accept-Accepted :
    (p : Packet) (s : Stream)
    → Live s
    → Readable p
    → length s.frame.content + length (block p) ≤ max_frame_size
    → (s' : Stream) × (accept p s ≡ ok s') × Accepted p s s'
unfolding accept
accept-Accepted p s live readable room =
    let new : is_duplicate p.packet_id s.frame ≡ false = ground (arith, live) in
    let unmarked : mark p.packet_id s.frame ≡ s.frame = ground (arith, live) in
    let i = (s.frame.last_valid_packet + 1) % 2 ^ 32 in
    let going : not s.frame.is_started ≡ false = ap not live.under_way in
    let tracked = track_none s.frame.packet_data s.frame.n_packets i live.none_counted in
    elim (Bool-cases (p.packet_type == type_error)) [
      | inl wrong ↦
          let t : Stream = record s {
            n_error_packets = s.n_error_packets + 1;
            frame = record s.frame { error_packets_received = s.frame.error_packets_received + 1 };
          } in
          (
            t,
            rw going (rw wrong refl),
            changes_content p s t live refl refl refl refl refl (adds_nothing p s (ground arith)),
          )
      | inr fine ↦
          let t : Stream = record s {
            frame = record s.frame { last_valid_packet = (i + 2 ^ 32 - 1) % 2 ^ 32 };
          } in
          let (s', run, h) =
            dispatch-Accepted p t
              (record { under_way = live.under_way; none_counted = live.none_counted }) readable
              fine room in
          (
            s',
            rw going (rw fine (rw new (rw unmarked (rw tracked run)))),
            record {
              live = h.live;
              same_id = h.same_id;
              same_buffer = h.same_buffer;
              same_delivered = h.same_delivered;
              grown = h.grown;
            },
          )
    ]

abbrev pub current : Stream → List (ℕ × List ℕ) → List (ℕ × List ℕ)
current s gs = join s.last_frame_id s.frame.content gs

-- One packet of a frame that is under way or of the next one.
pub packet_lem :
    (p : Packet) (ps : List Packet) (s : Stream)
    → Live s
    → Readable p
    → AllRoom (current s (groups (p ∷ ps)))
    → (s' : Stream) × (accept p (begin_frame true p s) ≡ ok s')
      × Live s'
      × (s'.packet ≡ s.packet)
      × AllRoom (current s' (groups ps))
      × (s'.delivered ++ current s' (groups ps) ≡ s.delivered ++ current s (groups (p ∷ ps)))
unfolding begin_frame
packet_lem p ps s live readable room = elim (Bool-cases (s.last_frame_id == p.frame_id)) [
  | inl same ↦
      let id : s.last_frame_id ≡ p.frame_id = ground arith in
      let joined : current s (groups (p ∷ ps))
          ≡ join s.last_frame_id (s.frame.content ++ block p) (groups ps) =
        rw (← id) (join-join_same s.last_frame_id s.frame.content (block p) (groups ps)) in
      let room' = rw joined at room in
      let short = join-AllRoom s.last_frame_id (s.frame.content ++ block p) (groups ps) room' in
      let (s', run, h) =
        accept-Accepted p s live readable
          (omega (arith, short, length-append s.frame.content (block p))) in
      let now : current s' (groups ps)
          ≡ join s.last_frame_id (s.frame.content ++ block p) (groups ps) =
        rw (h.same_id, h.grown) refl in
      (s', rw same run, h.live, h.same_buffer, rw now room', cc (now, joined, h.same_delivered))
  | inr other ↦
      let t : Stream = record s {
        frame = record s.frame {
          content = [];
          frame_id = p.frame_id;
          last_valid_packet = 2 ^ 32 - 1;
          is_started = true;
          n_packets = 0;
          error_packets_received = 0;
        };
        last_frame_id = p.frame_id;
        delivered = s.delivered ++ (s.last_frame_id, s.frame.content) ∷ [];
      } in
      let joined : current s (groups (p ∷ ps))
          ≡ (s.last_frame_id, s.frame.content) ∷ join p.frame_id (block p) (groups ps) =
        join-join_ne s.last_frame_id p.frame_id s.frame.content (block p) (groups ps) other in
      let room' = rw joined at room in
      let short = join-AllRoom p.frame_id (block p) (groups ps) room'.1 in
      let (s', run, h) =
        accept-Accepted p t (record { under_way = refl; none_counted = refl }) readable
          (omega (arith, short)) in
      let now : current s' (groups ps) ≡ join p.frame_id (block p) (groups ps) =
        rw (h.same_id, h.grown) refl in
      (
        s',
        rw other (rw live.under_way run),
        h.live,
        h.same_buffer,
        rw now room'.1,
        cc (
          now,
          joined,
          h.same_delivered,
          append_assoc s.delivered ((s.last_frame_id, s.frame.content) ∷ [])
              (join p.frame_id (block p) (groups ps)),
        ),
      )
]

-- No frame was seen yet.
pub record Idle (s : Stream) : Type 0 where
  pub waiting : s.frame.is_started ≡ false
  pub no_id : s.last_frame_id ≡ 0

pub first_packet_lem :
    (p : Packet) (ps : List Packet) (s : Stream)
    → Idle s
    → Readable p
    → (p.frame_id == 0) ≡ false
    → AllRoom (groups (p ∷ ps))
    → (s' : Stream) × (accept p (begin_frame true p s) ≡ ok s')
      × Live s'
      × (s'.packet ≡ s.packet)
      × AllRoom (current s' (groups ps))
      × (s'.delivered ++ current s' (groups ps) ≡ s.delivered ++ groups (p ∷ ps))
unfolding begin_frame
first_packet_lem p ps s idle readable nonzero room =
    let t : Stream = record s {
      frame = record s.frame {
        content = [];
        frame_id = p.frame_id;
        last_valid_packet = 2 ^ 32 - 1;
        is_started = true;
        n_packets = 0;
        error_packets_received = 0;
      };
      last_frame_id = p.frame_id;
    } in
    let changed : (s.last_frame_id == p.frame_id) ≡ false = ground (arith, idle.no_id) in
    let short = join-AllRoom p.frame_id (block p) (groups ps) room in
    let (s', run, h) =
      accept-Accepted p t (record { under_way = refl; none_counted = refl }) readable
        (omega (arith, short)) in
    let now : current s' (groups ps) ≡ groups (p ∷ ps) = rw (h.same_id, h.grown) refl in
    (
      s',
      rw changed (rw idle.waiting run),
      h.live,
      h.same_buffer,
      rw now room,
      rw (now, h.same_delivered) refl,
    )

pub idle_packet_lem :
    (p : Packet) (s : Stream)
    → Idle s
    → (p.frame_id == 0) ≡ true
    → accept p (begin_frame true p s)
      ≡ ok (record s { n_ignored_packets = s.n_ignored_packets + 1 })
unfolding begin_frame accept
idle_packet_lem p s idle zero_id =
    let kept : (s.last_frame_id == p.frame_id) ≡ true = ground (arith, idle.no_id) in
    let ignored : not s.frame.is_started ≡ true = ap not idle.waiting in rw kept (rw ignored refl)
