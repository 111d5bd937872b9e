-- ===== src/CommandServer/Execution.antt =====
-- The commands that the thread of command_server/src/command_server.c executes.
use mathlib.Core.List.{append_assoc, append-nil}
use mathlib.Core.Path.{subst}
use multiprocessor.Api.{codes}
use native.Mathlib.Nat.{add-zero}
use mathlib.Core.Bool.{false≢true}
use multiprocessor.Common.{
  Option, none, some-injective, sym, ◌∷◌, Run, ◌>>=◌, suc, ap, zero, [], inr, some, get_elem?, ◌++◌,
  Bool, Bool-cases, inl, ◌%◌, if◌then◌else◌, ◌||◌, true, refl, arith, ◌∙◌, fault, List, ok, set,
  ◌≡◌, ◌<◌, ◌==◌, length, ℕ, ◌+◌, false,
}
use multiprocessor.RingBuffer
use multiprocessor.RingBuffer.{Ring}
use multiprocessor.CommandServer.{
  command_server_init, handle, is_word, Server, command_queue_size, Around, start_pipeline,
  name_fits, configure, push_new_command, pop_next_command, execute_command, round,
}
use multiprocessor.CommandServer.Queue.{Waits, Fits, push-Waits, push-fault, pop-Waits}

-- Commands of which each is executed before the next one comes: an address, a text, and what
-- it meets.
abbrev pub alternate : List (ℕ × List ℕ × Around) → Server → Run Server
alternate [] s = ok s
alternate ((address, request, started) ∷ commands) s =
    push_new_command address request s >>= round started >>= alternate commands

abbrev pub is_stop : List ℕ → Bool
is_stop cmd = is_word (codes "STOP") cmd || is_word (codes "S") cmd

abbrev pub AllFit : List (ℕ × List ℕ × Around) → Type 0
AllFit [] = Unit
AllFit ((address, request, started) ∷ commands) =
    Fits address request
    × ((is_stop request ≡ false) × (name_fits started.typed ≡ true) × AllFit commands)

abbrev pub requests : List (ℕ × List ℕ × Around) → List (List ℕ)
requests [] = []
requests ((address, request, started) ∷ commands) = request ∷ requests commands

abbrev Changes : ℕ → ℕ → Server → Run Server → Type 0
Changes start n s run =
    (s' : Server) × (run ≡ ok s')
    × Waits start n s'
    × (s'.executed ≡ s.executed)
    × (s'.exit_flag ≡ s.exit_flag)

start_pipeline-Changes :
    (started : Around) (s : Server) (start n : ℕ) (run : Run Server)
    → Waits start n s
    → run ≡ ok (start_pipeline started s)
    → Changes start n s run
start_pipeline-Changes started s start n run w ran = (
  start_pipeline started s,
  ran,
  record {
    size = w.size;
    max_cnt = w.max_cnt;
    at_start = w.at_start;
    inside = w.inside;
    used = w.used;
    sem = w.sem;
    ready = w.ready;
  },
  refl,
  refl,
)

configure_lem :
    (typed : Option ℕ) (started : Around) (s : Server)
    → name_fits typed ≡ true
    → configure typed started s ≡ ok (start_pipeline started s)
configure_lem none started s fits = absurd (false≢true fits)
configure_lem (some n) started s fits = rw fits refl

-- What a command that does not stop the server changes.
execute_lem :
    (started : Around) (cmd : List ℕ) (s : Server) (start n : ℕ)
    → is_stop cmd ≡ false
    → name_fits started.typed ≡ true
    → Waits start n s
    → Changes start n s (execute_command started cmd s)
unfolding execute_command
execute_lem started cmd s start n going fits w =
    elim (Bool-cases (is_word (codes "INIT") cmd || is_word (codes "I") cmd)) [
      | inl inits ↦
          start_pipeline-Changes started s start n (execute_command started cmd s) w
            (rw (execute_command, going, inits) refl)
      | inr other ↦ elim (Bool-cases (is_word (codes "CONFIG") cmd || is_word (codes "C") cmd)) [
        | inl configures ↦
            start_pipeline-Changes started s start n (execute_command started cmd s) w (
              rw (execute_command, going, other, configures)
                (configure_lem started.typed started s fits))
        | inr unknown ↦ (s, rw (execute_command, going, other, unknown) refl, w, refl, refl)
      ]
    ]

get_elem?-set : (xs : List ℕ) (i v : ℕ) → i < length xs → get_elem? (set xs i v) i ≡ some v
get_elem?-set [] i v h = absurd (omega (arith, h))
get_elem?-set (x ∷ xs) zero v h = refl
get_elem?-set (x ∷ xs) (suc i) v h = get_elem?-set xs i v (omega (arith, h))

round_lem :
    (started : Around) (address : ℕ) (cmd : List ℕ) (t u s' : Server)
    → t.exit_flag ≡ false
    → (address == 0) ≡ false
    → pop_next_command t ≡ ok (address, u)
    → u.full_command address ≡ cmd
    → execute_command started cmd (record u { executed = u.executed ++ cmd ∷ [] }) ≡ ok s'
    → round started t ≡ ok s'
unfolding round
round_lem started address cmd t u s' alive nonnull popped command ran =
    let command' = sym command in
    let ran' : execute_command started (u.full_command address)
          (record u { executed = u.executed ++ u.full_command address ∷ [] })
        ≡ ok s' =
      subst (λ c. execute_command started c (record u { executed = u.executed ++ c ∷ [] }) ≡ ok s')
        command' ran in
    let handled : handle started address u ≡ ok s' = rw (handle, nonnull) ran' in
    let go : (pop_next_command t >>= λ r. handle started r.0 r.1) ≡ ok s' =
      ap (λ r. r >>= λ r. handle started r.0 r.1) popped ∙ handled in
    ap (λ b. if b then ok t else (pop_next_command t >>= λ r. handle started r.0 r.1)) alive ∙ go

step_lem :
    (start address : ℕ) (request : List ℕ) (started : Around) (s : Server)
    → Fits address request
    → is_stop request ≡ false
    → name_fits started.typed ≡ true
    → Waits start 0 s
    → s.exit_flag ≡ false
    → (s' : Server) × ((push_new_command address request s >>= round started) ≡ ok s')
      × Waits ((start + 1) % command_queue_size) 0 s'
      × (s'.executed ≡ s.executed ++ request ∷ [])
      × (s'.exit_flag ≡ false)
unfolding round
step_lem start address request started s f going named w live =
    let (t, pushed, waits, buffer, text, logged, flag) =
      push-Waits start 0 address request s f w (omega (arith, w.inside)) in
    let value : get_elem? t.cmd_ring.buffer start ≡ some address =
      ap (λ b. get_elem? b start)
        (buffer ∙ ap (λ i. set s.cmd_ring.buffer i address) (add-zero start))
      ∙ get_elem?-set s.cmd_ring.buffer start address (omega (arith, w.size, w.inside)) in
    let (u, popped, rest, texts, logged', flag') = pop-Waits start 0 address t waits value in
    let command : u.full_command address ≡ request = ap (λ g. g address) texts ∙ text in
    let v : Server = record u { executed = u.executed ++ request ∷ [] } in
    let (s', ran, done, log, stays) =
      execute_lem started request v ((start + 1) % command_queue_size) 0 going named (record {
        size = rest.size;
        max_cnt = rest.max_cnt;
        at_start = rest.at_start;
        inside = rest.inside;
        used = rest.used;
        sem = rest.sem;
        ready = rest.ready;
      }) in
    (
      s',
      ap (λ r. r >>= round started) pushed
          ∙ round_lem started address request t u s' (flag ∙ live) f.nonnull popped command ran,
      done,
      log ∙ ap (λ l. l ++ request ∷ []) (logged' ∙ logged),
      stays ∙ flag' ∙ flag ∙ live,
    )

alternate-Waits :
    (commands : List (ℕ × List ℕ × Around)) (s : Server) (start : ℕ)
    → AllFit commands
    → Waits start 0 s
    → s.exit_flag ≡ false
    → (s' : Server) × (alternate commands s ≡ ok s')
      × Waits ((start + length commands) % command_queue_size) 0 s'
      × (s'.executed ≡ s.executed ++ requests commands)
alternate-Waits [] s start fits w live =
    let same : start ≡ (start + 0) % command_queue_size = omega (arith, w.inside) in
    (s, refl, subst (λ i. Waits i 0 s) same w, sym (append-nil s.executed))
alternate-Waits ((address, request, started) ∷ commands) s start fits w live =
    let (t, ran, w', log, live') =
      step_lem start address request started s fits.0 fits.1.0 fits.1.1 w live in
    let (u, ran', w'', log') =
      alternate-Waits commands t ((start + 1) % command_queue_size) fits.1.2 w' live' in
    let same : ((start + 1) % command_queue_size + length commands) % command_queue_size
        ≡ (start + suc (length commands)) % command_queue_size =
      omega arith in
    (
      u,
      ap (λ r. r >>= alternate commands) ran ∙ ran',
      subst (λ i. Waits i 0 u) same w'',
      log'
          ∙ ap (λ l. l ++ requests commands) log
          ∙ append_assoc s.executed (request ∷ []) (requests commands),
    )

init-Waits :
    (s : Server)
    → command_server_init true true ≡ some s
    → Waits 0 0 s × (s.exit_flag ≡ false) × (s.executed ≡ [])
unfolding command_server_init RingBuffer.create
init-Waits s e =
    let same = some-injective e in
    subst (λ t. Waits 0 0 t × (t.exit_flag ≡ false) × (t.executed ≡ [])) same
      (
        record {
          size = refl;
          max_cnt = refl;
          at_start = refl;
          inside = omega arith;
          used = refl;
          sem = refl;
          ready = refl;
        },
        refl,
        refl,
      )

-- Commands that fit, of which none stops the server, and each of which comes after the one before it
-- was executed, are executed once each, in their order, where for each a word of less than 255 bytes is
-- typed in the terminal, which CONFIG waits for.
pub alternate-executed :
    (commands : List (ℕ × List ℕ × Around)) (s : Server)
    → command_server_init true true ≡ some s
    → AllFit commands
    → (s' : Server) × (alternate commands s ≡ ok s') × (s'.executed ≡ requests commands)
alternate-executed commands s e fits =
    let (w, live, none_yet) = init-Waits s e in
    let (s', ran, _, log) = alternate-Waits commands s 0 fits w live in
    (s', ran, log ∙ ap (λ l. l ++ requests commands) none_yet)

-- After such commands, in a number that leaves the remainder 19 on division by 20, two commands that
-- come before the thread takes the first of them are a write behind the end of the ring: the ring is
-- made full, so the place of the second goes round the end once too few.
pub crowded-fault :
    (commands : List (ℕ × List ℕ × Around)) (s : Server) (a b : ℕ) (first second : List ℕ)
    → command_server_init true true ≡ some s
    → AllFit commands
    → length commands % command_queue_size ≡ 19
    → Fits a first
    → Fits b second
    → ((alternate commands s >>= push_new_command a first) >>= push_new_command b second) ≡ fault
crowded-fault commands s a b first second e fits last fa fb =
    let (w, live, none_yet) = init-Waits s e in
    let (t, ran, w', _) = alternate-Waits commands s 0 fits w live in
    let w19 : Waits 19 0 t = subst (λ i. Waits i 0 t) (omega (arith, last)) w' in
    let (u, pushed, waits, _, _, _, _) = push-Waits 19 0 a first t fa w19 (omega arith) in
    ap (λ r. (r >>= push_new_command a first) >>= push_new_command b second) ran
    ∙ ap (λ r. r >>= push_new_command b second) pushed
    ∙ push-fault 19 1 b second u fb waits (omega arith) (omega arith)
