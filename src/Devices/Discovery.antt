-- ===== src/Devices/Discovery.antt =====
-- Which devices capture/src/device.c finds.
use mathlib.Core.List.{append_assoc, append-nil}
use multiprocessor.Common.{
  same_text, ok, suc, Option, sym, ◌∙◌, ap, zero, ◌++◌, none, inr, Bool-cases, List, ◌∷◌, ◌≡◌,
  length, ◌⊎◌, some, inl, ◌<◌, ◌+◌, ℕ, ltb, [], ◌&&◌, if◌then◌else◌, Bool, refl, false, arith,
}
use mathlib.Core.Bool.{not}
use multiprocessor.Devices
use multiprocessor.Gvcp.Discovery.{Identity}
use mathlib.Core.Path.{subst}
use multiprocessor.Devices.{
  read_answer, Arrival, Answer, Device, Interface, header_size, is_own, same_subnet,
  listen_discovery_answer, device_create, collect, prepare_devices_list,
}

-- An answer that counts: a whole header, not from this computer, and from the interface's subnet.
abbrev pub counts : (local : ℕ) → List ℕ → (remote : ℕ) → Bool
counts local bytes remote =
    not (ltb (length bytes) header_size) && not (is_own local remote) && same_subnet local remote

-- The answers that count of those that come before a pause or a failure.
abbrev pub answers : (local : ℕ) → List Arrival → List (List ℕ × ℕ)
answers local [] = []
answers local (Devices.nothing ∷ arrivals) = []
answers local (Devices.recv_failed ∷ arrivals) = []
answers local (Devices.packet bytes remote ∷ arrivals) =
    let rest = answers local arrivals in
    if counts local bytes remote then (bytes, remote) ∷ rest else rest

-- A wait that ends with an answer, the rest being the answers to come.
record Found (local : ℕ) (arrivals : List Arrival) (a : Answer) : Type 0 where
  pub bytes : List ℕ
  pub remote : ℕ
  pub found : a.found ≡ some (bytes, remote)
  pub all : answers local arrivals ≡ (bytes, remote) ∷ answers local a.later
  pub shorter : length a.later < length arrivals

record NoneFound (local : ℕ) (arrivals : List Arrival) (a : Answer) : Type 0 where
  pub found : a.found ≡ none
  pub all : answers local arrivals ≡ []

skip :
    (local : ℕ) (bytes : List ℕ) (remote : ℕ) (arrivals : List Arrival) (leaked : ℕ)
    → counts local bytes remote ≡ false
    → NoneFound local arrivals (listen_discovery_answer local arrivals leaked)
      ⊎ Found local arrivals (listen_discovery_answer local arrivals leaked)
    → NoneFound local
        (Devices.packet bytes remote ∷ arrivals)
        (listen_discovery_answer local arrivals leaked)
      ⊎ Found local
          (Devices.packet bytes remote ∷ arrivals)
          (listen_discovery_answer local arrivals leaked)
skip local bytes remote arrivals leaked gone (inl n) =
    inl (record { found = n.found; all = rw gone n.all })
skip local bytes remote arrivals leaked gone (inr f) = inr (record {
  bytes = f.bytes;
  remote = f.remote;
  found = f.found;
  all = rw gone f.all;
  shorter = omega (arith, f.shorter);
})

listen_lem :
    (local : ℕ) (arrivals : List Arrival) (leaked : ℕ)
    → NoneFound local arrivals (listen_discovery_answer local arrivals leaked)
      ⊎ Found local arrivals (listen_discovery_answer local arrivals leaked)
unfolding listen_discovery_answer
listen_lem local [] leaked = inl (record { found = refl; all = refl })
listen_lem local (Devices.nothing ∷ arrivals) leaked = inl (record { found = refl; all = refl })
listen_lem local (Devices.recv_failed ∷ arrivals) leaked = inl (record { found = refl; all = refl })
listen_lem local (Devices.packet bytes remote ∷ arrivals) leaked =
    elim (Bool-cases (ltb (length bytes) header_size)) [
      | inl short ↦ rw short (
          skip local bytes remote arrivals leaked (rw short refl)
            (listen_lem local arrivals leaked))
      | inr whole ↦ elim (Bool-cases (is_own local remote)) [
        | inl own ↦
            rw (whole, own)
              (skip local bytes remote arrivals (leaked + 1) (rw (whole, own) refl)
                (listen_lem local arrivals (leaked + 1)))
        | inr foreign ↦ elim (Bool-cases (same_subnet local remote)) [
          | inl near ↦
              rw (whole, foreign, near)
                (inr (record {
                  bytes = bytes;
                  remote = remote;
                  found = refl;
                  all = rw (whole, foreign, near) refl;
                  shorter = omega arith;
                }))
          | inr far ↦
              rw (whole, foreign, far)
                (skip local bytes remote arrivals (leaked + 1) (rw (whole, foreign, far) refl)
                  (listen_lem local arrivals (leaked + 1)))
        ]
      ]
    ]

-- The devices of one interface, and of several.
abbrev pub devices_of :
    (name_of : ℕ → Option (List ℕ × List ℕ)) → (local : ℕ) → List (List ℕ × ℕ) → List Device
devices_of name_of local [] = []
devices_of name_of local ((bytes, remote) ∷ rest) =
    device_create name_of local remote bytes ∷ devices_of name_of local rest

abbrev pub all_devices : (name_of : ℕ → Option (List ℕ × List ℕ)) → List Interface → List Device
all_devices name_of [] = []
all_devices name_of ((local, arrivals) ∷ ifaces) =
    devices_of name_of local (answers local arrivals) ++ all_devices name_of ifaces

-- `gvcp_discovery_ack` reads each answer without a fault.
abbrev pub AllRead : List (List ℕ × ℕ) → Type 0
AllRead [] = Unit
AllRead ((bytes, remote) ∷ rest) =
    ((identity : Identity) × (read_answer bytes ≡ ok identity)) × AllRead rest

-- Each interface has fewer arrivals than there are rounds, and answers that can be read.
abbrev pub Enough : ℕ → List Interface → Type 0
Enough fuel [] = Unit
Enough fuel ((local, arrivals) ∷ ifaces) =
    (length arrivals < fuel) × AllRead (answers local arrivals) × Enough fuel ifaces

-- The first device with an address.
abbrev pub first_device : (id_string : List ℕ) → List Device → Option Device
first_device id_string [] = none
first_device id_string (d ∷ ds) =
    let rest = first_device id_string ds in if same_text d.ip id_string then some d else rest

collect_lem :
    (name_of : ℕ → Option (List ℕ × List ℕ)) (fuel local : ℕ) (arrivals : List Arrival)
    (devices : List Device)
    → length arrivals < fuel
    → AllRead (answers local arrivals)
    → collect name_of fuel local arrivals devices
      ≡ ok (devices ++ devices_of name_of local (answers local arrivals))
unfolding collect
collect_lem name_of zero local arrivals devices enough reads = absurd (omega (arith, enough))
collect_lem name_of (suc fuel) local arrivals devices enough reads =
    elim (listen_lem local arrivals 0) [
      | inl n ↦ rw (collect, n.found, n.all) (ap ok (sym (append-nil devices)))
      | inr f ↦
          let both : AllRead (
              (f.bytes, f.remote)
              ∷ answers local (listen_discovery_answer local arrivals 0).later) =
            subst AllRead f.all reads in
          let d = device_create name_of local f.remote f.bytes in
          let a = listen_discovery_answer local arrivals 0 in
          let rest =
            collect_lem name_of fuel local a.later (devices ++ d ∷ [])
              (omega (arith, enough, f.shorter)) both.1 in
          rw (collect, f.found, f.all, both.0.1)
            (rest
              ∙ ap ok (
                  append_assoc devices (d ∷ []) (devices_of name_of local (answers local a.later))))
    ]

-- With enough rounds `prepare_devices_list` lists a device for each answer that counts, interface by
-- interface, in the order of arrival.
pub prepare_devices_list_lem :
    (name_of : ℕ → Option (List ℕ × List ℕ)) (fuel : ℕ) (ifaces : List Interface)
    (devices : List Device)
    → Enough fuel ifaces
    → prepare_devices_list name_of fuel ifaces devices ≡ ok (devices ++ all_devices name_of ifaces)
unfolding prepare_devices_list
prepare_devices_list_lem name_of fuel [] devices enough = ap ok (sym (append-nil devices))
prepare_devices_list_lem name_of fuel ((local, arrivals) ∷ ifaces) devices enough =
    let here = devices_of name_of local (answers local arrivals) in
    let rest = prepare_devices_list_lem name_of fuel ifaces (devices ++ here) enough.2 in
    rw (collect_lem name_of fuel local arrivals devices enough.0 enough.1)
      (rest ∙ ap ok (append_assoc devices here (all_devices name_of ifaces)))
