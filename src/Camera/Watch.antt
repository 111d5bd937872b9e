-- ===== src/Camera/Watch.antt =====
-- What `gige_camera_test` of capture/src/camera.c sends where the camera answers.
use mathlib.Core.Path.{subst}
use multiprocessor.Common.{
  ◌^◌, [], map, ℕ, ◌∙◌, sym, length, arith, ◌∷◌, ◌++◌, zero, ap, ok, ◌<◌, List, suc, ◌≡◌, refl,
}
use mathlib.Core.List.{append_assoc, append-nil}
use multiprocessor.Gvcp.{Received, datagram, encode}
use multiprocessor.Gvcp.Register.{ack}
use multiprocessor.Gvcp.Sequence.Identifiers.{AllFull, headings, requests}
use multiprocessor.Gvcp.Sequence.Answers.{watchdog_ops, watchdog_lem}
use multiprocessor.Gvcp.Sequence.Sessions.{start_stream_lem, stop_stream_lem}
use multiprocessor.Gvcp.Sequence.{bump, wire_id, start_ops, stop_ops}
use multiprocessor.Interfaces.{no_fd}
use multiprocessor.Camera.{Camera, State, next_id, counted, watch, gige_camera_test}

-- The answers to one round of the watchdog: the privilege, and what else comes.
pub record Round : Type 0 where
  pub privilege : ℕ
  pub command : ℕ
  pub id : ℕ
  pub replies : List (List ℕ)

-- Each round is answered in full.
abbrev pub AllAnswered : List Round → Type 0
AllAnswered [] = Unit
AllAnswered (r ∷ rounds) =
    (r.privilege < 2 ^ 32)
    × (suc (length r.replies) ≡ length (watchdog_ops r.privilege))
    × AllFull r.replies
    × AllAnswered rounds

abbrev pub answers_of : List Round → List Received → List Received
answers_of [] rest = rest
answers_of (r ∷ rounds) rest =
    datagram (encode (ack r.command r.id r.privilege)) ∷ map datagram r.replies
    ++ answers_of rounds rest

-- What the rounds ask for, each from the identifier behind that of the one before.
abbrev pub watch_requests : List Round → (last : ℕ) → List (ℕ × ℕ)
watch_requests [] last = []
watch_requests (r ∷ rounds) last =
    requests (watchdog_ops r.privilege) (wire_id (bump last)) ++ watch_requests rounds (bump last)

abbrev pub bumps : ℕ → ℕ → ℕ
bumps zero last = last
bumps (suc n) last = bumps n (bump last)

-- What some sequences leave of a camera.
pub record Left (cam : Camera) (asked : List (ℕ × ℕ)) (last : ℕ) (rest : List Received)
    (cam' : Camera) : Type 0 where
  pub sent : headings cam'.wire ≡ headings cam.wire ++ asked
  pub incoming : cam'.wire.incoming ≡ rest
  pub epolls : cam'.wire.fds ≡ cam.wire.fds
  pub id : cam'.last_gvcp_packet_id ≡ last
  pub gvcp : cam'.gvcp_fd ≡ cam.gvcp_fd
  pub gvsp : cam'.gvsp_fd ≡ cam.gvsp_fd

Left-trans :
    (cam cam' cam'' : Camera) (asked asked' : List (ℕ × ℕ)) (last last' : ℕ)
    (rest rest' : List Received)
    → Left cam asked last rest cam'
    → Left cam' asked' last' rest' cam''
    → Left cam (asked ++ asked') last' rest' cam''
Left-trans cam cam' cam'' asked asked' last last' rest rest' l l' = record {
  sent = l'.sent ∙ ap (λ t. t ++ asked') l.sent ∙ append_assoc (headings cam.wire) asked asked';
  incoming = l'.incoming;
  epolls = l'.epolls ∙ l.epolls;
  id = l'.id;
  gvcp = l'.gvcp ∙ l.gvcp;
  gvsp = l'.gvsp ∙ l.gvsp;
}

watch_lem :
    (rounds : List Round) (cam : Camera) (rest : List Received)
    → cam.wire.incoming ≡ answers_of rounds rest
    → AllAnswered rounds
    → (cam' : Camera) × (watch (length rounds) cam ≡ ok cam')
      × Left cam
          (watch_requests rounds cam.last_gvcp_packet_id)
          (bumps (length rounds) cam.last_gvcp_packet_id)
          rest
          cam'
unfolding watch
watch_lem [] cam rest e all = (
  cam,
  refl,
  record {
    sent = sym (append-nil (headings cam.wire));
    incoming = e;
    epolls = refl;
    id = refl;
    gvcp = refl;
    gvsp = refl;
  },
)
watch_lem (r ∷ rounds) cam rest e (small, number, full, all) =
    let (s, ran, asked, left, closed) =
      watchdog_lem (next_id cam) r.command r.id r.privilege cam.wire r.replies
        (answers_of rounds rest) small e number full in
    let first : Left cam (requests (watchdog_ops r.privilege) (next_id cam))
        (bump cam.last_gvcp_packet_id) (answers_of rounds rest) (counted s.wire cam) =
      record {
        sent = asked;
        incoming = left;
        epolls = closed;
        id = refl;
        gvcp = refl;
        gvsp = refl;
      } in
    let (cam', ran', later) = watch_lem rounds (counted s.wire cam) rest left all in
    (
      cam',
      rw ran ran',
      Left-trans cam (counted s.wire cam) cam' (requests (watchdog_ops r.privilege) (next_id cam))
          (watch_requests rounds (bump cam.last_gvcp_packet_id)) (bump cam.last_gvcp_packet_id)
          (bumps (length rounds) (bump cam.last_gvcp_packet_id)) (answers_of rounds rest) rest first
          later,
    )

-- The answers to a whole test.
pub record Answered (cam : Camera) (rounds : List Round) (rest : List Received) : Type 0 where
  pub started : List (List ℕ)
  pub ended : List (List ℕ)
  pub incoming :
      cam.wire.incoming ≡ map datagram started ++ answers_of rounds (map datagram ended ++ rest)
  pub ten : length rounds ≡ 10
  pub all : AllAnswered rounds
  pub all_started : length started ≡ length start_ops
  pub full_started : AllFull started
  pub all_ended : length ended ≡ length stop_ops
  pub full_ended : AllFull ended

-- Where all of its packets are answered `gige_camera_test` runs to its end: it sends reads and writes in
-- the order of `gvcp_start`, of ten rounds of the watchdog and of `gvcp_stop`, of each of which the
-- command and the identifier are stated, each of these sequences numbered from the identifier behind the
-- one that the sequence before it began with; it takes the answers and no more, and closes both sockets.
pub gige_camera_test_lem :
    (cam : Camera) (rounds : List Round) (rest : List Received)
    → Answered cam rounds rest
    → (cam' : Camera) × (gige_camera_test cam ≡ ok (cam', cam.gvcp_fd ∷ cam.gvsp_fd ∷ []))
      × (headings cam'.wire
          ≡ headings cam.wire
            ++ requests start_ops (next_id cam)
            ++ watch_requests rounds (bump cam.last_gvcp_packet_id)
            ++ requests stop_ops (wire_id (bumps 12 cam.last_gvcp_packet_id)))
      × (cam'.wire.incoming ≡ rest)
      × (cam'.wire.fds ≡ cam.wire.fds)
      × (cam'.gvcp_fd ≡ no_fd)
      × (cam'.gvsp_fd ≡ no_fd)
unfolding gige_camera_test
gige_camera_test_lem cam rounds rest a =
    let later = map datagram a.ended ++ rest in
    let (s, ran, asked, left, closed) =
      start_stream_lem (next_id cam) cam.wire a.started (answers_of rounds later) a.incoming
        a.all_started a.full_started in
    let started : Camera = record (counted s.wire cam) { state = State.live } in
    let (cam₁, ran₁, l) = watch_lem rounds started later left a.all in
    let ten_rounds : watch 10 started ≡ ok cam₁ =
      subst (λ n. watch n started ≡ ok cam₁) a.ten ran₁ in
    let last : cam₁.last_gvcp_packet_id ≡ bumps 10 (bump cam.last_gvcp_packet_id) =
      l.id ∙ ap (λ n. bumps n (bump cam.last_gvcp_packet_id)) a.ten in
    let (t, ran₂, asked₂, left₂, closed₂) =
      stop_stream_lem (next_id cam₁) cam₁.wire a.ended rest l.incoming a.all_ended a.full_ended in
    (
      record (counted t.wire cam₁) { state = State.stopped; gvcp_fd = no_fd; gvsp_fd = no_fd },
      rw (ran, ten_rounds, ran₂, l.gvcp, l.gvsp) refl,
      asked₂
          ∙ ap (λ h. h ++ requests stop_ops (next_id cam₁)) l.sent
          ∙ ap
              (λ h.
                h
                ++ watch_requests rounds (bump cam.last_gvcp_packet_id)
                ++ requests stop_ops (next_id cam₁))
              asked
          ∙ ap
              (λ n.
                headings cam.wire
                ++ requests start_ops (next_id cam)
                ++ watch_requests rounds (bump cam.last_gvcp_packet_id)
                ++ requests stop_ops (wire_id (bump n)))
              last,
      left₂,
      closed₂ ∙ l.epolls ∙ closed,
      refl,
      refl,
    )

-- The second packet of one sequence has the identifier of the first packet of the next one.
pub identifiers_repeat :
    (last : ℕ)
    → wire_id (bump (bump (wire_id (bump last)))) ≡ wire_id (bump (wire_id (bump (bump last))))
identifiers_repeat last = omega arith
