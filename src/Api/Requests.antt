-- ===== src/Api/Requests.antt =====
-- The commands that api/src/api.c makes, as api/src/api_parser.c reads them.
use multiprocessor.Api.{
  respond, server, client, nobody, undefined, get, post, clean, has, is_empty, client, grab,
  client_part, no_file, cmd_name, init, is_uninited, cmd_type, unknown, nobody, codes, Reply,
  Client, starts, CmdName, CmdType, match_request, execute, dispatch, generate, Outcome,
}
use multiprocessor.Common.{
  ap, ◌++◌, none, ltb, inl, ◌&&◌, ◌∷◌, [], refl, ◌≡◌, ◌≢◌, Option, false, List, some, true, inr,
  length, ok, ℕ, ◌⊎◌, fault, if◌then◌else◌, Bool,
}

abbrev Answered : Bool → List ℕ → Outcome → Type 0
Answered exit_flag name r =
    ((starts (codes "ER") r.reply.result ≡ true) × (r.exit_flag ≡ exit_flag))
    ⊎ ((starts (codes "stop") name ≡ true)
        × (r.reply.result ≡ codes "RE011")
        × (r.exit_flag ≡ true))

either :
    {A : Type 0} (P : A → Type 0) (b : Bool) (x y : A)
    → (b ≡ true → P x)
    → (b ≡ false → P y)
    → P (if b then x else y)
either P true x y f g = f refl
either P false x y f g = g refl

dispatch-Answered :
    (curr : CmdName) (exit_flag : Bool) (id : ℕ) (name : List ℕ)
    → Answered exit_flag name (dispatch curr exit_flag id name)
unfolding dispatch
dispatch-Answered curr exit_flag id name =
    let P = Answered exit_flag name in
    let pick = λ (x y : Reply). λ (cmd : CmdName). λ (p : starts (codes "ER") x.result ≡ true).
      λ (q : starts (codes "ER") y.result ≡ true).
        either (λ r. P (record { curr_cmd = cmd; exit_flag = exit_flag; reply = r })) (ltb 0 id) x y
          (λ e. inl (p, refl)) (λ e. inl (q, refl)) in
    either P (starts (codes "restart") name) _ _ (λ e. pick (unknown init) no_file init refl refl)
      λ e₁.
        either P (starts (codes "status") name) _ _ (λ e. inl (refl, refl))
          λ e₂.
            either P (starts (codes "grab") name) _ _
              (λ e. pick no_file (unknown grab) grab refl refl)
              λ e₃.
                either P (starts (codes "ctrl") name) _ _ (λ e. inl (refl, refl))
                  λ e₄.
                    either P (starts (codes "clean") name) _ _ (λ e. pick _ no_file clean refl refl)
                      λ e₅.
                        either P (starts (codes "live") name) _ _ (λ e. inl (refl, refl))
                          λ e₆.
                            either P (starts (codes "stop") name) _ _ (λ e. inr (e, refl, refl))
                              (λ e₇. inl (refl, refl))

respond-Answered :
    (curr : CmdName) (exit_flag : Bool) (m : Option (ℕ × List ℕ))
    → let r = respond curr exit_flag m in
      ((starts (codes "ER") r.reply.result ≡ true) × (r.exit_flag ≡ exit_flag))
      ⊎ ((id : ℕ) × (name : List ℕ) × (m ≡ some (id, name))
          × (starts (codes "stop") name ≡ true)
          × (r.reply.result ≡ codes "RE011")
          × (r.exit_flag ≡ true))
unfolding respond
respond-Answered curr exit_flag none = inl (refl, refl)
respond-Answered curr exit_flag (some (id, name)) =
    elim (dispatch-Answered curr exit_flag id name) [
      | inl refused ↦ inl refused
      | inr (is_stop, result, raised) ↦ inr (id, name, refl, is_stop, result, raised)
    ]

-- Whatever the request, `executeAPICommand` answers with an error and leaves the exit flag as it
-- was, or the request matches with a name that starts with "stop", the answer is `RE011` and the
-- exit flag is raised.
pub execute_lem :
    (curr : CmdName) (exit_flag : Bool) (request : List ℕ)
    → let r = execute curr exit_flag request in
      ((starts (codes "ER") r.reply.result ≡ true) × (r.exit_flag ≡ exit_flag))
      ⊎ ((id : ℕ) × (name : List ℕ) × (match_request request ≡ some (id, name))
          × (starts (codes "stop") name ≡ true)
          × (r.reply.result ≡ codes "RE011")
          × (r.exit_flag ≡ true))
unfolding execute
execute_lem curr exit_flag request = respond-Answered curr exit_flag (match_request request)

generated :
    (a b : Bool) (whole text : List ℕ)
    → (if a then fault else if b then ok whole else fault) ≡ ok text
    → whole ≡ text
generated true b whole text e = cc
generated false true whole text e = cc
generated false false whole text e = cc

unmatched :
    (decimal : ℕ → List ℕ) (type : CmdType) (who : Client) (named more : List ℕ)
    → who ≢ nobody
    → match_request (cmd_type type ++ codes ",/api/" ++ client_part decimal who ++ named ++ more)
      ≡ none
unfolding match_request
unmatched decimal type nobody named more someone = absurd (someone refl)
unmatched decimal undefined server named more someone = refl
unmatched decimal undefined (client n) named more someone = refl
unmatched decimal get server named more someone = refl
unmatched decimal get (client n) named more someone = refl
unmatched decimal post server named more someone = refl
unmatched decimal post (client n) named more someone = refl

-- The commands that `apiGenerateCommandString` makes for the server or for a client do not match
-- the template, whose path has two slashes before the client and none before "server": each of them
-- is answered with `ER012`, and neither the current command nor the exit flag changes.
pub execute-generate :
    (decimal : ℕ → List ℕ) (type : CmdType) (name curr : CmdName) (who : Client)
    (value additional text : List ℕ) (exit_flag : Bool)
    → who ≢ nobody
    → generate decimal type name who value additional ≡ ok text
    → let r = execute curr exit_flag text in
      (r.reply.result ≡ codes "ER012") × (r.curr_cmd ≡ curr) × (r.exit_flag ≡ exit_flag)
unfolding generate execute respond
execute-generate decimal type name curr who value additional text exit_flag someone made =
    let named = if is_uninited name then value else cmd_name name in
    let more = if is_empty additional then [] else b',' ∷ additional in
    let whole = cmd_type type ++ codes ",/api/" ++ client_part decimal who ++ named ++ more in
    let same : whole ≡ text =
      generated (is_uninited name && has b'%' value) (ltb (length whole) 1024) whole text made in
    let refused : match_request text ≡ none =
      rw (← same) (unmatched decimal type who named more someone) in
    let answer = ap (respond curr exit_flag) refused in
    (ap (λ r. r.reply.result) answer, ap (λ r. r.curr_cmd) answer, ap (λ r. r.exit_flag) answer)
