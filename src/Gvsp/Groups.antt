-- ===== src/Gvsp/Groups.antt =====
-- What the stream of capture/src/camera.c should be put together to: the packets next to one another
-- with one frame number are a frame, and its bytes are those of its blocks.
use multiprocessor.Common.{
  refl, ◌≡◌, arith, ◌≤◌, length, if◌then◌else◌, ◌++◌, ℕ, inl, ◌==◌, List, false, some, ◌∷◌, Option,
  Bool-cases, inr, length-append, none, [],
}
use mathlib.Core.Option
use mathlib.Core.List.{append_assoc}
use multiprocessor.Gvsp.{
  leader_read, overlay, data_block, max_frame_size, parse, type_error, data_leader, Packet, Event,
  datagram, timeout, recv_failed,
}

-- What a packet adds to its frame.
abbrev pub block : Packet → List ℕ
block p =
    if p.packet_type == type_error
    then []
    else if p.content_type == data_block
    then p.payload
    else []

-- One more piece before a list of frames: part of the first one if the numbers agree.
abbrev pub join : ℕ → List ℕ → List (ℕ × List ℕ) → List (ℕ × List ℕ)
join i d [] = (i, d) ∷ []
join i d ((j, e) ∷ gs) = if i == j then (i, d ++ e) ∷ gs else (i, d) ∷ (j, e) ∷ gs

abbrev pub groups : List Packet → List (ℕ × List ℕ)
groups [] = []
groups (p ∷ ps) = join p.frame_id (block p) (groups ps)

-- Frames that fit the buffer.
abbrev pub AllRoom : List (ℕ × List ℕ) → Type 0
AllRoom [] = Unit
AllRoom ((i, d) ∷ gs) = (length d ≤ max_frame_size) × AllRoom gs

-- The packets that the thread sees: a datagram lies over the one before it.
unfoldable pub packets : List ℕ → List Event → Option (List Packet)
unfolding parse
packets buffer [] = some []
packets buffer (timeout ∷ events) = packets buffer events
packets buffer (recv_failed ∷ events) = some []
packets buffer (datagram bytes ∷ events) =
    let later = packets (overlay bytes buffer) events in
    elim (parse (overlay bytes buffer)) [ none ↦ none | some p ↦ Option.map (λ ps. p ∷ ps) later ]

-- A leader has the bytes that the thread reads.
abbrev pub Readable : Packet → Type 0
Readable p = p.content_type ≡ data_leader → leader_read p ≤ length p.payload

abbrev pub AllReadable : List Packet → Type 0
AllReadable [] = Unit
AllReadable (p ∷ ps) = Readable p × AllReadable ps

-- Packets before the first number that is not 0 are not taken for a frame.
abbrev pub skip_zero : List Packet → List Packet
skip_zero [] = []
skip_zero (p ∷ ps) = let rest = skip_zero ps in if p.frame_id == 0 then rest else p ∷ ps

pub join-join_same :
    (i : ℕ) (d e : List ℕ) (gs : List (ℕ × List ℕ)) → join i d (join i e gs) ≡ join i (d ++ e) gs
join-join_same i d e [] = ground arith
join-join_same i d e ((j, f) ∷ gs) = elim (Bool-cases (i == j)) [
  | inl same ↦ rw same (ground (arith, append_assoc d e f))
  | inr other ↦ rw other (ground arith)
]

pub join-join_ne :
    (i j : ℕ) (d e : List ℕ) (gs : List (ℕ × List ℕ))
    → (i == j) ≡ false
    → join i d (join j e gs) ≡ (i, d) ∷ join j e gs
join-join_ne i j d e [] other = rw other refl
join-join_ne i j d e ((k, f) ∷ gs) other = elim (Bool-cases (j == k)) [
  | inl same ↦ rw same (rw other refl)
  | inr ne ↦ rw ne (rw other refl)
]

pub join-AllRoom :
    (i : ℕ) (d : List ℕ) (gs : List (ℕ × List ℕ))
    → AllRoom (join i d gs)
    → length d ≤ max_frame_size
join-AllRoom i d [] room = room.0
join-AllRoom i d ((j, e) ∷ gs) room = elim (Bool-cases (i == j)) [
  | inl same ↦ let r = rw same at room in omega (arith, r.0, length-append d e)
  | inr other ↦ let r = rw other at room in r.0
]
