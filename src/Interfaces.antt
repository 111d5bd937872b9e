-- ===== src/Interfaces.antt =====
-- capture/src/interface.c: the list of the network interfaces, each with a socket that a discovery was
-- sent from. Addresses are the 32-bit numbers of IP.
pub mod Sockets
mod Tests
use multiprocessor.Common.{
  true, false, Bool, length, List, [], ok, ◌==◌, ◌>>=◌, Run, Option, ℕ, fault, ◌++◌, if◌then◌else◌,
  some, none, ◌-◌, ltb, ◌^◌, ◌∷◌, ◌&&◌,
}
use mathlib.Core.Bool.{not}
use multiprocessor.LinkedList
use multiprocessor.Collections
use multiprocessor.Collections.{Collection}
use multiprocessor.Gvcp.{discovery_packet, encode}

-- -1, as the bits of an `int`.
abbrev pub no_fd : ℕ
no_fd = 2 ^ 32 - 1

-- `struct interface`.
pub record Interface : Type 0 where
  pub fd : ℕ
  pub name : List ℕ
  pub addr : Option ℕ

-- An element of the list of `getifaddrs`: its flags, what `malloc` gives for it (0 for `NULL`), and how
-- `socket` and `bind` answer.
pub record IfAddr : Type 0 where
  pub ifa_name : List ℕ
  pub is_up : Bool
  pub is_point_to_point : Bool
  pub is_inet : Bool
  pub ifa_addr : Option ℕ
  pub address : ℕ
  pub socket : Option ℕ
  pub bound : Bool

-- `ifaces_init` of a list at an address.
unfoldable pub ifaces_init : (list : ℕ) → Run (Collection Interface)
ifaces_init list = LinkedList.init list (record { next = λ x. 0; prev = λ x. 0 }) >>= λ heap.
    ok (record {
      list = list;
      heap = heap;
      cnt = 0;
      entry = λ x. record { fd = 0; name = []; addr = none };
      closed = [];
    })

-- `interface_add`; the name goes into an array of 80 bytes.
unfoldable pub interface_add :
    (address : ℕ) (name : List ℕ) (addr : Option ℕ)
    → Collection Interface
    → Run (Collection Interface)
interface_add address name addr ifaces =
    if ltb (length name) 80
    then Collections.add address (record { fd = no_fd; name = name; addr = addr }) ifaces
    else fault

unfoldable pub interface_delete : (address : ℕ) → Collection Interface → Run (Collection Interface)
interface_delete address ifaces = Collections.delete (λ iface. iface.fd) address ifaces

unfoldable pub ifaces_destroy : (fuel : ℕ) → Collection Interface → Run (Collection Interface)
ifaces_destroy fuel ifaces = Collections.destroy (λ iface. iface.fd) fuel ifaces

-- What the search has made: the list, the sockets that were opened, and the packets that were sent.
pub record Found : Type 0 where
  pub ifaces : Collection Interface
  pub opened : List ℕ
  pub sent : List (ℕ × List ℕ)

-- `send_broadcast_discovery`: what it returns, the sockets it has opened and what it has sent.
unfoldable pub send_broadcast_discovery : IfAddr → ℕ × List ℕ × List (ℕ × List ℕ)
send_broadcast_discovery a = elim a.socket [
  | none ↦ (no_fd, [], [])
  | some fd ↦
      if a.bound then (fd, fd ∷ [], (fd, encode discovery_packet) ∷ []) else (no_fd, fd ∷ [], [])
]

abbrev pub has_addr : Option ℕ → Bool
has_addr none = false
has_addr (some addr) = true

abbrev pub is_usable : IfAddr → Bool
is_usable a = a.is_up && not a.is_point_to_point && has_addr a.ifa_addr && a.is_inet

abbrev pub with_fd : (address fd : ℕ) → Collection Interface → Collection Interface
with_fd address fd ifaces = record ifaces {
  entry = Collections.put ifaces.entry address (record (ifaces.entry address) { fd = fd });
}

-- The loop of `prepare_interfaces_list`; without memory it writes through `NULL`.
unfoldable pub enter_interfaces : List IfAddr → Found → Run Found
unfolding interface_add
enter_interfaces [] f = ok f
enter_interfaces (a ∷ addrs) f =
    let skipped = enter_interfaces addrs f in
    let (fd, opened, sent) = send_broadcast_discovery a in
    let entered = interface_add a.address a.ifa_name a.ifa_addr f.ifaces >>= λ ifaces.
    enter_interfaces addrs (record {
      ifaces = with_fd a.address fd ifaces;
      opened = f.opened ++ opened;
      sent = f.sent ++ sent;
    }) in
    if not (is_usable a) then skipped else if a.address == 0 then fault else entered

-- `prepare_interfaces_list`, which returns -1 where `getifaddrs` fails: `none`.
unfoldable pub prepare_interfaces_list :
    (list : ℕ) (addrs : Option (List IfAddr)) → Run (Option Found)
unfolding enter_interfaces ifaces_init
prepare_interfaces_list list addrs = elim addrs [
  | none ↦ ok none
  | some all ↦ ifaces_init list >>= λ ifaces.
      enter_interfaces all (record { ifaces = ifaces; opened = []; sent = [] }) >>= λ f. ok (some f)
]
