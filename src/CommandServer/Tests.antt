-- ===== src/CommandServer/Tests.antt =====
-- Commands of the command server.
use multiprocessor.Api.{codes}
use multiprocessor.Common.{
  some, replicate, ℕ, true, ◌>>=◌, suc, ◌≡◌, ◌++◌, List, arith, [], refl, zero, ok, false, fault,
  ◌∷◌,
}
use multiprocessor.RingBuffer
use multiprocessor.CommandServer
use multiprocessor.CommandServer.{Around, Server, command_server_init, push_new_command}
use multiprocessor.CommandServer.Queue.{Fits}
use multiprocessor.CommandServer.Execution.{
  alternate, AllFit, requests, alternate-executed, crowded-fault,
}

abbrev first_server : Server
first_server = record {
  cmd_ring = record { max_cnt = 20; used = 20; start = 0; buffer = replicate 20 0; sem = 20 };
  command_ready = 0;
  full_command = λ a. [];
  pdesc = CommandServer.none_yet;
  exit_flag = false;
  executed = [];
}

abbrev init_command : ℕ × List ℕ × Around
init_command = (64, codes "INIT" ++ 10 ∷ [], record { starts = true; typed = some 254 })

Fits-init : Fits 64 (codes "INIT" ++ 10 ∷ [])
Fits-init = record { nonnull = refl; short = omega arith }

AllFit-replicate : (n : ℕ) → AllFit (replicate n init_command)
AllFit-replicate zero = tt
AllFit-replicate (suc n) = (Fits-init, (refl, refl, AllFit-replicate n))

alternate-executed_example :
    (s' : Server) × (alternate (replicate 3 init_command) first_server ≡ ok s')
    × (s'.executed ≡ requests (replicate 3 init_command))
unfolding command_server_init RingBuffer.create
alternate-executed_example =
    alternate-executed (replicate 3 init_command) first_server refl (AllFit-replicate 3)

crowded-fault_example :
    ((alternate (replicate 19 init_command) first_server
        >>= push_new_command 64 (codes "INIT" ++ 10 ∷ []))
      >>= push_new_command 64 (codes "INIT" ++ 10 ∷ []))
    ≡ fault
unfolding command_server_init RingBuffer.create
crowded-fault_example =
    crowded-fault (replicate 19 init_command) first_server 64 64 (codes "INIT" ++ 10 ∷ [])
      (codes "INIT" ++ 10 ∷ []) refl (AllFit-replicate 19) refl Fits-init Fits-init
