-- ===== src/Camera/Sockets.antt =====
-- What `gige_camera_init` of capture/src/camera.c leaves open, and what `gige_camera_destroy` closes.
use multiprocessor.Common.{
  ◌≡◌, ◌∷◌, Bool-cases, inl, ◌≤◌, length, inr, ◌^◌, map, ok, List, ◌==◌, refl, none, false, ℕ,
  arith, [], some, true, ◌<◌, ◌++◌, ◌⊎◌,
}
use multiprocessor.Gvcp.{Received, datagram, encode}
use multiprocessor.Gvcp.Register.{ack}
use multiprocessor.Gvcp.Sequence.Identifiers.{AllFull}
use multiprocessor.Gvcp.Sequence.Sessions.{init_lem}
use multiprocessor.Gvcp.Sequence
use multiprocessor.Camera.{
  Camera, State, Opening, Opened, first_packet_id, connect_camera, gige_camera_init,
  gige_camera_destroy,
}

-- Both sockets can be made and used.
pub record IsOpen (o : Opening) (gvcp_fd gvsp_fd : ℕ) : Type 0 where
  pub device : o.has_device ≡ true
  pub memory : o.has_memory ≡ true
  pub command : o.command_socket ≡ some gvcp_fd
  pub bound : o.command_bound ≡ true
  pub connected : o.connected ≡ true
  pub stream : o.data_socket ≡ some gvsp_fd
  pub stream_bound : o.data_bound ≡ true

-- A camera answers the six packets of `gvcp_init`, the last with a packet size.
pub record IsAnswered (o : Opening) (size : ℕ) (rest : List Received) : Type 0 where
  pub first : List ℕ
  pub replies : List (List ℕ)
  pub command : ℕ
  pub id : ℕ
  pub incoming :
      o.incoming
      ≡ datagram first ∷ map datagram replies ++ datagram (encode (ack command id size)) ∷ rest
  pub first_full : 12 ≤ length first
  pub four : length replies ≡ 4
  pub full : AllFull replies
  pub small : size < 2 ^ 32

-- What comes of it: a camera with the packet size and both sockets, which `gige_camera_destroy` closes;
-- or `NULL`, with both sockets open, where the size is 0.
pub record IsOpened (o : Opening) (size gvcp_fd gvsp_fd : ℕ) (rest : List Received) (r : Opened)
    : Type 0 where
  pub sockets : r.sockets ≡ gvcp_fd ∷ gvsp_fd ∷ []
  pub camera :
      ((size ≡ 0) × (r.camera ≡ none))
      ⊎ ((cam : Camera) × (0 < size)
          × (r.camera ≡ some cam)
          × (cam.packet_size ≡ size)
          × (gige_camera_destroy cam ≡ gvsp_fd ∷ gvcp_fd ∷ [])
          × (cam.wire.incoming ≡ rest))

connect_camera_lem :
    (o : Opening) (size gvcp_fd gvsp_fd : ℕ) (rest : List Received)
    → IsAnswered o size rest
    → (r : Opened) × (connect_camera o gvcp_fd gvsp_fd ≡ ok r)
      × IsOpened o size gvcp_fd gvsp_fd rest r
unfolding connect_camera gige_camera_destroy
connect_camera_lem o size gvcp_fd gvsp_fd rest a =
    let (w, ran, left, _) =
      init_lem (Sequence.bump first_packet_id) o.ip o.port a.command a.id size
        (record { sent = []; incoming = o.incoming; fds = 0 }) a.first a.replies rest a.small
        a.incoming a.first_full a.four a.full in
    let cam : Camera = record {
      state = State.unassigned;
      gvcp_fd = gvcp_fd;
      gvsp_fd = gvsp_fd;
      last_gvcp_packet_id = Sequence.bump first_packet_id;
      packet_size = size;
      wire = w;
    } in
    let sockets = gvcp_fd ∷ gvsp_fd ∷ [] in
    elim (Bool-cases (size == 0)) [
      | inl zero_size ↦ (
        record { camera = none; sockets = sockets },
        rw (connect_camera, ran, zero_size) refl,
        record { sockets = refl; camera = inl (ground (arith, zero_size), refl) },
      )
      | inr some_size ↦ (
        record { camera = some cam; sockets = sockets },
        rw (connect_camera, ran, some_size) refl,
        record {
          sockets = refl;
          camera = inr (cam, ground (arith, some_size), refl, refl, refl, left);
        },
      )
    ]

-- Where both sockets can be used and the camera answers with a packet size, `gige_camera_init` returns a
-- camera with this size and the two sockets, and `gige_camera_destroy` closes these two; where the size
-- is 0 it returns `NULL` and both sockets stay open.
pub gige_camera_init-IsOpened :
    (o : Opening) (size gvcp_fd gvsp_fd : ℕ) (rest : List Received)
    → IsOpen o gvcp_fd gvsp_fd
    → IsAnswered o size rest
    → (r : Opened) × (gige_camera_init o ≡ ok r) × IsOpened o size gvcp_fd gvsp_fd rest r
unfolding gige_camera_init
gige_camera_init-IsOpened o size gvcp_fd gvsp_fd rest opens answers =
    let (r, ran, outcome) = connect_camera_lem o size gvcp_fd gvsp_fd rest answers in
    (
      r,
      rw
          (
            gige_camera_init, opens.device, opens.memory, opens.command, opens.bound,
            opens.connected, opens.stream, opens.stream_bound,
          )
          ran,
      outcome,
    )

-- A command socket that cannot be bound or connected stays open.
pub gige_camera_init-unbound :
    (o : Opening) (gvcp_fd : ℕ)
    → o.has_device ≡ true
    → o.has_memory ≡ true
    → o.command_socket ≡ some gvcp_fd
    → (o.command_bound ≡ false) ⊎ (o.connected ≡ false)
    → gige_camera_init o ≡ ok (record { camera = none; sockets = gvcp_fd ∷ [] })
unfolding gige_camera_init
gige_camera_init-unbound o gvcp_fd device memory command failing =
    elim (Bool-cases o.command_bound) [
      | inr unbound ↦ rw (gige_camera_init, device, memory, command, unbound) refl
      | inl bound ↦ elim failing [
        | inl unbound ↦ absurd (ground (arith, bound, unbound))
        | inr refused ↦ rw (gige_camera_init, device, memory, command, bound, refused) refl
      ]
    ]
