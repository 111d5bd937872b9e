-- ===== src/Camera/Tests.antt =====
-- A camera that answers each packet.
use multiprocessor.Common.{arith, true, ◌≡◌, replicate, map, ok, refl, List, ◌++◌, ℕ, ◌∷◌, [], some}
use multiprocessor.Gvcp.{datagram, encode}
use multiprocessor.Gvcp.Register.{ack}
use multiprocessor.Gvcp.Sequence.Identifiers.{headings, requests}
use multiprocessor.Gvcp.Sequence.{bump, wire_id, start_ops, stop_ops}
use multiprocessor.Interfaces.{no_fd}
use multiprocessor.Camera.{
  Camera, State, Opening, Opened, next_id, gige_camera_init, gige_camera_test,
}
use multiprocessor.Camera.Sockets.{IsOpened, gige_camera_init-IsOpened}
use multiprocessor.Camera.Watch.{Round, answers_of, watch_requests, bumps, gige_camera_test_lem}

abbrev a_reply : List ℕ
a_reply = encode (ack 0x81 0xf002 0)

abbrev an_opening : Opening
an_opening = record {
  has_device = true;
  has_memory = true;
  command_socket = some 5;
  command_bound = true;
  connected = true;
  data_socket = some 6;
  data_bound = true;
  ip = 0xc0a80102;
  port = 40000;
  incoming =
      datagram a_reply ∷ map datagram (replicate 4 a_reply)
      ++ datagram (encode (ack 0x81 0xf006 1500)) ∷ [];
}

gige_camera_init-IsOpened_example :
    (r : Opened) × (gige_camera_init an_opening ≡ ok r) × IsOpened an_opening 1500 5 6 [] r
gige_camera_init-IsOpened_example =
    gige_camera_init-IsOpened an_opening 1500 5 6 []
      (record {
        device = refl;
        memory = refl;
        command = refl;
        bound = refl;
        connected = refl;
        stream = refl;
        stream_bound = refl;
      })
      (record {
        first = a_reply;
        replies = replicate 4 a_reply;
        command = 0x81;
        id = 0xf006;
        incoming = refl;
        first_full = omega arith;
        four = refl;
        full = omega arith;
        small = omega arith;
      })

abbrev a_round : Round
a_round = record { privilege = 2; command = 0x81; id = 0xf002; replies = replicate 2 a_reply }

abbrev ten_rounds : List Round
ten_rounds = replicate 10 a_round

abbrev a_camera : Camera
a_camera = record {
  state = State.unassigned;
  gvcp_fd = 5;
  gvsp_fd = 6;
  last_gvcp_packet_id = 0xf001;
  packet_size = 1500;
  wire = record {
    sent = [];
    incoming =
        map datagram (replicate 22 a_reply)
        ++ answers_of ten_rounds (map datagram (replicate 3 a_reply) ++ []);
    fds = 0;
  };
}

gige_camera_test_lem_example :
    (cam' : Camera) × (gige_camera_test a_camera ≡ ok (cam', 5 ∷ 6 ∷ []))
    × (headings cam'.wire
        ≡ []
          ++ requests start_ops (next_id a_camera)
          ++ watch_requests ten_rounds (bump 0xf001)
          ++ requests stop_ops (wire_id (bumps 12 0xf001)))
    × (cam'.wire.incoming ≡ [])
    × (cam'.wire.fds ≡ 0)
    × (cam'.gvcp_fd ≡ no_fd)
    × (cam'.gvsp_fd ≡ no_fd)
gige_camera_test_lem_example = gige_camera_test_lem a_camera ten_rounds [] (record {
  started = replicate 22 a_reply;
  ended = replicate 3 a_reply;
  incoming = refl;
  ten = refl;
  all = omega arith;
  all_started = refl;
  full_started = omega arith;
  all_ended = refl;
  full_ended = omega arith;
})
