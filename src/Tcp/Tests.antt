-- ===== src/Tcp/Tests.antt =====
-- A connection of the server of tcp/src/tcp_process.c.
use mathlib.Core.Option.{none-ne-some}
use multiprocessor.Common.{
  some-injective, replicate, inl, Bool-cases, Option, inr, ◌∷◌, ◌∙◌, leb, refl, if◌then◌else◌, some,
  length-replicate, ℕ, false, ok, length, sym, none, ◌≡◌, [], arith, List, true,
}
use multiprocessor.Tcp.{Session, Callback}
use multiprocessor.Tcp.Sockets.{Address}
use multiprocessor.Tcp.Lines.{Keeps, IsRead, IsValid}

-- A `read` that has these bytes, where they are asked for.
abbrev gives : List ℕ → ℕ → Option (List ℕ)
gives bytes n = if leb (length bytes) n then some bytes else none

gives-IsRead : (bytes : List ℕ) → IsRead (gives bytes)
gives-IsRead bytes n got e = elim (Bool-cases (leb (length bytes) n)) [
  | inl fits ↦
      let same : bytes ≡ got = some-injective (sym (rw fits refl) ∙ e) in
      rw (← same) (ground (arith, fits))
  | inr long ↦ absurd (none-ne-some got (sym (rw long refl) ∙ e))
]

abbrev only_log : Callback
only_log conn exit_flag = ok (conn, exit_flag)

only_log-Keeps : Keeps only_log
only_log-Keeps = record { returns = λ conn exit_flag. ((conn, exit_flag), refl, refl, refl) }

abbrev new_session : Session
new_session = record {
  conn = record { request = replicate 512 0; request_used = 0; reply = []; fd = 4 };
  exit_flag = false;
  is_open = true;
  lines = [];
  written = [];
  got = [];
}

new_session-IsValid : IsValid new_session
new_session-IsValid = record {
  size = length-replicate {A = ℕ} 512 0;
  used = omega arith;
  whole = refl;
  single = tt;
}

-- Half a line; the rest of it and another one; what is left is the second line, until more comes.
abbrev two_reads : List (ℕ → Option (List ℕ))
two_reads = gives (97 ∷ 98 ∷ []) ∷ gives (99 ∷ 10 ∷ 100 ∷ 10 ∷ []) ∷ []

abbrev full_session : Session
full_session = record {
  conn = record { request = replicate 512 97; request_used = 512; reply = []; fd = 4 };
  exit_flag = false;
  is_open = true;
  lines = [];
  written = [];
  got = replicate 512 97;
}

-- An address without a socket, one that is taken, and one that will do.
abbrev three_addresses : List Address
three_addresses =
    record { socket = none; options_set = true; bound = true; connected = true }
    ∷ record { socket = some 3; options_set = true; bound = false; connected = false }
    ∷ record { socket = some 4; options_set = true; bound = true; connected = true }
    ∷ []
