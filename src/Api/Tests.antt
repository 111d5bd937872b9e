-- ===== src/Api/Tests.antt =====
-- Runs of api/src/api_parser.c on small requests.
use multiprocessor.Api.Requests.{execute_lem, execute-generate}
use multiprocessor.Api.{
  client, no_file, get, status, starts, dispatch, match_request, codes, respond, uninited, execute,
  generate,
}
use multiprocessor.Common.{refl, List, [], ◌+◌, some, true, ℕ, ◌⊎◌, ◌∷◌, ◌≡◌, false}

-- A request that matches the template, with two slashes before the client.
status_of_three :
    execute uninited false (codes "get,/api//client/3/status")
    ≡ record { curr_cmd = status; exit_flag = false; reply = no_file }
unfolding execute respond match_request dispatch
status_of_three = refl

stop_server : (execute uninited false (codes "post,/api//stop")).exit_flag ≡ true
unfolding execute respond match_request dispatch
stop_server = refl

execute_lem_example :
    let r = execute uninited false (codes "post,/api//stop") in
    ((starts (codes "ER") r.reply.result ≡ true) × (r.exit_flag ≡ false))
    ⊎ ((id : ℕ) × (name : List ℕ) × (match_request (codes "post,/api//stop") ≡ some (id, name))
        × (starts (codes "stop") name ≡ true)
        × (r.reply.result ≡ codes "RE011")
        × (r.exit_flag ≡ true))
execute_lem_example = execute_lem uninited false (codes "post,/api//stop")

-- One digit, which is enough for the clients 1 to 9.
abbrev digit : ℕ → List ℕ
digit n = (b'0' + n) ∷ []

execute-generate_example :
    let r = execute uninited false (codes "get,/api/client/3/status") in
    (r.reply.result ≡ codes "ER012") × (r.curr_cmd ≡ uninited) × (r.exit_flag ≡ false)
unfolding generate
execute-generate_example =
    execute-generate digit get status uninited (client 3) [] [] (codes "get,/api/client/3/status")
      false (λ e. cc) refl
