-- ===== src/Interfaces/Tests.antt =====
-- A computer with localhost, an interface that is down, and two others, of which one socket cannot be
-- bound.
use multiprocessor.Common.{some, ok, arith, Bool, [], false, true, refl, ℕ, List, ◌≡◌, ◌∷◌}
use multiprocessor.Api.{codes}
use multiprocessor.Collections.{Collection}
use multiprocessor.Collections.Laws.{IsValid}
use multiprocessor.Interfaces.{
  Interface, IfAddr, Found, no_fd, ifaces_destroy, prepare_interfaces_list,
}
use multiprocessor.Interfaces.Sockets.{prepare-destroy, discoveries, usable}

abbrev an_address : List ℕ → (ip address fd : ℕ) → (is_up bound : Bool) → IfAddr
an_address name ip address fd is_up bound = record {
  ifa_name = name;
  is_up = is_up;
  is_point_to_point = false;
  is_inet = true;
  ifa_addr = some ip;
  address = address;
  socket = some fd;
  bound = bound;
}

abbrev four_addresses : List IfAddr
four_addresses =
    an_address (codes "lo") 0x7f000001 8 3 true true
    ∷ an_address (codes "wlan0") 0xc0a80007 16 4 false true
    ∷ an_address (codes "eth0") 0xc0a80107 24 5 true false
    ∷ an_address (codes "eth1") 0xc0a80207 32 6 true true
    ∷ []

-- The sockets 3, 5 and 6 were made, and 5 is not closed.
prepare-destroy_example :
    (f : Found) × (prepare_interfaces_list 1 (some four_addresses) ≡ ok (some f))
    × IsValid f.ifaces (8 ∷ 24 ∷ 32 ∷ [])
    × (f.opened ≡ 3 ∷ 5 ∷ 6 ∷ [])
    × (f.sent ≡ discoveries (usable four_addresses))
    × (c : Collection Interface) × (ifaces_destroy 4 f.ifaces ≡ ok c)
    × IsValid c []
    × (c.closed ≡ 3 ∷ no_fd ∷ 6 ∷ [])
prepare-destroy_example =
    prepare-destroy 1 four_addresses 4 refl
      ((refl, omega arith, (refl, omega arith, (refl, omega arith, tt)))) (omega arith)
