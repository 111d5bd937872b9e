-- ===== src/Devices.antt =====
-- capture/src/device.c: the wait for the answers of cameras to a discovery, and the devices that are
-- made of them. Addresses are the 32-bit numbers of IP.
pub mod Discovery
mod Tests
use multiprocessor.Api.{codes}
use mathlib.Core.Bool.{not}
use multiprocessor.Gvcp.{decode}
use multiprocessor.Gvcp.Discovery.{Identity, discovery_ack}
use multiprocessor.Common.{
  same_text, ℕ, Option, ◌∷◌, blocked, ◌==◌, ◌>>=◌, ◌+◌, Bool, suc, length, ok, if◌then◌else◌, ◌/◌,
  List, ◌&&◌, Run, [], none, some, ◌++◌, ltb, zero,
}

-- `sizeof(struct gvcp_header)`.
abbrev pub header_size : ℕ
header_size = 8

-- 127.0.0.1.
abbrev pub localhost : ℕ
localhost = 0x7f000001

-- What one round of the loop gets: nothing is there, `recvfrom` fails, or a datagram from an address.
pub data Arrival : Type 0 where
  nothing : Arrival
  recv_failed : Arrival
  packet : (bytes : List ℕ) (remote : ℕ) → Arrival

-- What the loop ends with: the packet and its sender, or `none` for `NULL`; what comes later; and how
-- many packets were not freed.
pub record Answer : Type 0 where
  pub found : Option (List ℕ × ℕ)
  pub later : List Arrival
  pub leaked : ℕ

-- A camera of this computer, where the interface is not that of localhost.
abbrev pub is_own : (local remote : ℕ) → Bool
is_own local remote = local == remote && not (local == localhost)

-- The addresses with 0xFFFFFF00 for a mask.
abbrev pub same_subnet : (local remote : ℕ) → Bool
same_subnet local remote = local / 256 == remote / 256

-- `listen_discovery_answer`: `local` is the address of the socket. Where no more comes `select` does not
-- wait.
unfoldable pub listen_discovery_answer : (local : ℕ) → List Arrival → (leaked : ℕ) → Answer
listen_discovery_answer local [] leaked = record { found = none; later = []; leaked = leaked }
listen_discovery_answer local (nothing ∷ arrivals) leaked = record {
  found = none;
  later = arrivals;
  leaked = leaked;
}
listen_discovery_answer local (recv_failed ∷ arrivals) leaked = record {
  found = none;
  later = arrivals;
  leaked = leaked;
}
listen_discovery_answer local (packet bytes remote ∷ arrivals) leaked =
    let dropped = listen_discovery_answer local arrivals leaked in
    let ignored = listen_discovery_answer local arrivals (leaked + 1) in
    if ltb (length bytes) header_size
    then dropped
    else if is_own local remote
    then ignored
    else if same_subnet local remote
    then record { found = some (bytes, remote); later = arrivals; leaked = leaked }
    else ignored

-- `struct device`, by the texts that `getnameinfo` gives for its address and by what it answered;
-- `gvcp_discovery_ack` reads its vendor, model and so on from the answer.
pub record Device : Type 0 where
  pub ip : List ℕ
  pub port : List ℕ
  pub iface : ℕ
  pub answer : List ℕ

-- `device_create`. `name_of` is `getnameinfo`.
abbrev pub device_create :
    (name_of : ℕ → Option (List ℕ × List ℕ)) → (iface remote : ℕ) → List ℕ → Device
device_create name_of iface remote answer = elim (name_of remote) [
  | none ↦ record { ip = codes "0.0.0.0"; port = codes "0"; iface = iface; answer = answer }
  | some (ip, port) ↦ record { ip = ip; port = port; iface = iface; answer = answer }
]

abbrev no_identity : Identity
no_identity = record { vendor = []; model = []; serial = []; user_id = []; mac = [] }

-- `gvcp_discovery_ack` into the cleared texts of a new device; what lies behind the datagram in the
-- packet's memory is not set.
abbrev pub read_answer : List ℕ → Run Identity
read_answer bytes = discovery_ack no_identity (decode bytes)

-- The inner loop of `prepare_devices_list` on one interface; every round uses up an arrival at least,
-- or is the last one. `blocked` where it takes more rounds.
unfoldable pub collect :
    (name_of : ℕ → Option (List ℕ × List ℕ))
    → (fuel local : ℕ) → List Arrival
    → List Device
    → Run (List Device)
unfolding listen_discovery_answer
collect name_of zero local arrivals devices = blocked
collect name_of (suc fuel) local arrivals devices =
    let answer = listen_discovery_answer local arrivals 0 in
    elim answer.found [
      | none ↦ ok devices
      | some (bytes, remote) ↦
          let later =
            collect name_of fuel local answer.later
              (devices ++ device_create name_of local remote bytes ∷ []) in
          read_answer bytes >>= λ identity. later
    ]

-- An interface whose socket could be bound: its address, and what arrives on its socket. (`FD_SET` of the
-- -1 of an interface without one is undefined.)
abbrev pub Interface : Type 0
Interface = ℕ × List Arrival

-- `prepare_devices_list`, on the interfaces of `prepare_interfaces_list`.
unfoldable pub prepare_devices_list :
    (name_of : ℕ → Option (List ℕ × List ℕ))
    → (fuel : ℕ) → List Interface
    → List Device
    → Run (List Device)
unfolding collect
prepare_devices_list name_of fuel [] devices = ok devices
prepare_devices_list name_of fuel ((local, arrivals) ∷ ifaces) devices =
    collect name_of fuel local arrivals devices >>= prepare_devices_list name_of fuel ifaces

-- The inner loop of `device_find`: the first device with this address.
unfoldable pub find_on :
    (name_of : ℕ → Option (List ℕ × List ℕ))
    → (fuel local : ℕ) → List Arrival
    → (id_string : List ℕ) → Run (Option Device)
unfolding listen_discovery_answer
find_on name_of zero local arrivals id_string = blocked
find_on name_of (suc fuel) local arrivals id_string =
    let answer = listen_discovery_answer local arrivals 0 in
    elim answer.found [
      | none ↦ ok none
      | some (bytes, remote) ↦
          let device = device_create name_of local remote bytes in
          let rest = find_on name_of fuel local answer.later id_string in
          let tested = if same_text device.ip id_string then ok (some device) else rest in
          read_answer bytes >>= λ identity. tested
    ]

-- `device_find`.
unfoldable pub device_find :
    (name_of : ℕ → Option (List ℕ × List ℕ))
    → (fuel : ℕ) → List Interface
    → (id_string : List ℕ) → Run (Option Device)
unfolding find_on
device_find name_of fuel [] id_string = ok none
device_find name_of fuel ((local, arrivals) ∷ ifaces) id_string =
    let later = device_find name_of fuel ifaces id_string in
    find_on name_of fuel local arrivals id_string >>= λ found. elim found [
      | none ↦ later
      | some device ↦ ok (some device)
    ]
