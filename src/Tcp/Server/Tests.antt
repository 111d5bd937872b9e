-- ===== src/Tcp/Server/Tests.antt =====
-- A server with memory for one connection at a time.
use multiprocessor.Common.{
  some-injective, if_false, if_true, Option, ◌∙◌, some, inr, ok, suc, Bool-cases, ℕ, ◌≡◌, false,
  if◌then◌else◌, none, ◌∷◌, [], refl, List, ◌⊎◌, ap, ◌==◌, true, inl, sym, arith,
}
use mathlib.Core.Option.{none-ne-some}
use multiprocessor.Collections.{Collection}
use multiprocessor.Collections.Laws
use multiprocessor.LinkedList.Sequence.{is_new}
use multiprocessor.Tcp.{Session, Callback}
use multiprocessor.Tcp.Lines.{Keeps, IsRead}
use multiprocessor.Tcp.Server.{Ready}
use multiprocessor.Tcp.Server.Descriptors.{KeepsFd}

abbrev only_note : Callback
only_note conn exit_flag = ok (conn, exit_flag)

only_note-Keeps : Keeps only_note
only_note-Keeps = record { returns = λ conn exit_flag. ((conn, exit_flag), refl, refl, refl) }

only_note-KeepsFd : KeepsFd only_note
only_note-KeepsFd conn exit_flag r ran =
    let same : ok (conn, exit_flag) ≡ ok r = ran in
    let e : (conn, exit_flag) ≡ r = cc in ap (λ t. t.0.fd) (sym e)

abbrev one_place : Collection Session → ℕ
one_place c = if c.cnt == 0 then suc c.list else 0

one_place-fresh :
    (c : Collection Session) (xs : List ℕ)
    → Laws.IsValid c xs
    → (one_place c ≡ 0) ⊎ ((is_new c.list (one_place c) xs ≡ true) × ((one_place c == 0) ≡ false))
one_place-fresh c [] valid =
    let free : (c.cnt == 0) ≡ true = ground (arith, valid.counted) in
    let it : one_place c ≡ suc c.list = if_true (c.cnt == 0) (suc c.list) 0 free in
    inr (rw it (ground arith), rw it (ground arith))
one_place-fresh c (x ∷ xs) valid =
    let taken : (c.cnt == 0) ≡ false = ground (arith, valid.counted) in
    inl (if_false (c.cnt == 0) (suc c.list) 0 taken)

-- Each `read` gives one byte of a line.
abbrev a_line : (fd n : ℕ) → Option (List ℕ)
a_line fd n = if n == 0 then none else some (10 ∷ [])

a_line-IsRead : (fd : ℕ) → IsRead (a_line fd)
a_line-IsRead fd n bytes e = elim (Bool-cases (n == 0)) [
  | inl nothing ↦
      absurd (none-ne-some bytes (sym (if_true (n == 0) none (some (10 ∷ [])) nothing) ∙ e))
  | inr some_asked ↦
      let same : 10 ∷ [] ≡ bytes =
        some-injective (sym (if_false (n == 0) none (some (10 ∷ [])) some_asked) ∙ e) in
      rw (← same) (ground (arith, some_asked))
]

abbrev a_round : Option ℕ → Ready
a_round accepted = record { accepted = accepted; is_set = λ fd. true; read = a_line }

-- Two connections come, and there is memory for the first of them.
abbrev three_rounds : List Ready
three_rounds = a_round (some 4) ∷ a_round (some 5) ∷ a_round none ∷ []
