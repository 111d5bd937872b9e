-- ===== src/Gvcp/Sequence/Answers.antt =====
-- The sequences of capture/src/gvcp.c that act on what the camera answers.
use mathlib.Core.List.{append_assoc}
use multiprocessor.Gvcp.Sequence.Identifiers.{
  perform_all_lem, asked_with-After, requests, headings, asked_with, AllFull,
}
use multiprocessor.Gvcp.Register.{read_register_lem, ack}
use multiprocessor.Gvcp.{read_reg_cmd, encode, datagram, Received, read_register_packet, Wire}
use multiprocessor.Gvcp.Sequence.{
  all_ones, tick_frequency_low, bump, tick_frequency_high, wire_id, channel_source_port, write_op,
  channel_privilege, Session, perform_all, read_op, watchdog, get_tick_frequency, Op, perform,
}
use multiprocessor.Common.{
  inr, inl, arith, map, ◌+◌, ap, ◌<◌, ◌∷◌, ◌==◌, ◌%◌, Bool-cases, ◌/◌, [], if◌then◌else◌, ◌^◌, ◌*◌,
  ◌∙◌, length, ok, refl, suc, List, ◌≡◌, ℕ, ◌++◌,
}

pub read_op_lem :
    (reg_addr : ℕ) (s : Session) (rest : List Received) (command id v : ℕ)
    → s.wire.incoming ≡ datagram (encode (ack command id v)) ∷ rest
    → v < 2 ^ 32
    → perform (read_op reg_addr) s
      ≡ ok (asked_with (read_register_packet reg_addr (wire_id (bump s.packet_id))) v s rest)
unfolding perform
read_op_lem reg_addr s rest command id v e small =
    let read =
      read_register_lem s.wire [] rest reg_addr s.value (wire_id (bump s.packet_id)) command id v tt
        small in
    let run = rw (← e) at read in rw run refl

-- The two halves of the tick frequency that the camera acknowledges are put together to the number
-- that they are the high and the low 32 bits of, for any number of 64 bits.
pub get_tick_frequency_lem :
    (unset_high unset_low packet_id frequency command₁ id₁ command₂ id₂ : ℕ) (w : Wire)
    (rest : List Received)
    → frequency < 2 ^ 64
    → w.incoming
      ≡ datagram (encode (ack command₁ id₁ (frequency / 2 ^ 32)))
        ∷ datagram (encode (ack command₂ id₂ (frequency % 2 ^ 32)))
        ∷ rest
    → (w' : Wire) × (get_tick_frequency unset_high unset_low packet_id w ≡ ok (frequency, w'))
      × (w'.incoming ≡ rest)
      × (w'.fds ≡ w.fds)
unfolding get_tick_frequency
get_tick_frequency_lem unset_high unset_low packet_id frequency c₁ i₁ c₂ i₂ w rest small e =
    let high = frequency / 2 ^ 32 in
    let low = frequency % 2 ^ 32 in
    let s : Session = record { value = unset_high; packet_id = packet_id; wire = w } in
    let later = datagram (encode (ack c₂ i₂ low)) ∷ rest in
    let t =
      asked_with (read_register_packet tick_frequency_high (wire_id (bump packet_id))) high s
        later in
    let t' : Session = record t { value = unset_low } in
    let u =
      asked_with (read_register_packet tick_frequency_low (wire_id (bump (bump packet_id)))) low t'
        rest in
    let whole : high * 2 ^ 32 + low ≡ frequency = omega arith in
    (
      u.wire,
      rw (read_op_lem tick_frequency_high s later c₁ i₁ high e (omega arith)) (
          rw (read_op_lem tick_frequency_low t' rest c₂ i₂ low refl (omega arith))
            (ap (λ (n : ℕ). ok (n, u.wire)) whole)),
      refl,
      refl,
    )

-- What `gvcp_watchdog` asks for when the camera says that the control privilege is `v`.
abbrev pub watchdog_ops : ℕ → List Op
watchdog_ops v =
    read_op channel_privilege ∷ (if v == 2 then [] else write_op channel_privilege 2 ∷ [])
    ++ write_op 0xF0F04030 0x80000000 ∷ read_op channel_source_port ∷ []

-- `gvcp_watchdog` asks for the control privilege again exactly if the camera answers that it is not
-- exclusive any more. Where each of its packets is answered it runs to its end, and its packets are
-- numbered one after the other.
pub watchdog_lem :
    (packet_id command id v : ℕ) (w : Wire) (replies : List (List ℕ)) (rest : List Received)
    → v < 2 ^ 32
    → w.incoming ≡ datagram (encode (ack command id v)) ∷ map datagram replies ++ rest
    → suc (length replies) ≡ length (watchdog_ops v)
    → AllFull replies
    → (s : Session) × (watchdog packet_id w ≡ ok s)
      × (headings s.wire ≡ headings w ++ requests (watchdog_ops v) packet_id)
      × (s.wire.incoming ≡ rest)
      × (s.wire.fds ≡ w.fds)
unfolding watchdog perform_all read_register_packet
watchdog_lem packet_id command id v w replies rest small e same all =
    let s₀ : Session = record { value = all_ones; packet_id = packet_id; wire = w } in
    let p = read_register_packet channel_privilege (wire_id (bump packet_id)) in
    let s₁ = asked_with p v s₀ (map datagram replies ++ rest) in
    let read =
      read_op_lem channel_privilege s₀ (map datagram replies ++ rest) command id v e small in
    let first =
      (asked_with-After (read_op channel_privilege) s₀ (map datagram replies ++ rest) p v refl
        (omega arith) refl).asked in
    elim (Bool-cases (v == 2)) [
      | inl held ↦
          let ops : List Op = write_op 0xF0F04030 0x80000000 ∷ read_op channel_source_port ∷ [] in
          let (s, run, asked, left, closed) =
            perform_all_lem ops s₁ replies rest refl (ground (arith, same)) all in
          (
            s,
            rw read (rw held run),
            rw held (
                asked
                ∙ rw first (
                    append_assoc (headings w) ((read_reg_cmd, wire_id (bump packet_id)) ∷ [])
                      (requests ops (bump packet_id)))),
            left,
            closed,
          )
      | inr lost ↦
          let ops : List Op =
            write_op channel_privilege 2
            ∷ write_op 0xF0F04030 0x80000000
            ∷ read_op channel_source_port
            ∷ [] in
          let (s, run, asked, left, closed) =
            perform_all_lem ops s₁ replies rest refl (ground (arith, same)) all in
          (
            s,
            rw read (rw lost run),
            rw lost (
                asked
                ∙ rw first (
                    append_assoc (headings w) ((read_reg_cmd, wire_id (bump packet_id)) ∷ [])
                      (requests ops (bump packet_id)))),
            left,
            closed,
          )
    ]
