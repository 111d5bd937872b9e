-- ===== src/Devices/Tests.antt =====
-- A search for a camera on two interfaces.
use multiprocessor.Common.{
  replicate, [], Option, none, ◌∷◌, some, List, ◌%◌, if◌then◌else◌, ◌==◌, ℕ,
}
use multiprocessor.Devices
use multiprocessor.Devices.{Arrival, Interface, Device}

-- The last byte of an address, as a letter; that of 105 has no name.
abbrev letters : ℕ → Option (List ℕ × List ℕ)
letters remote = if remote % 256 == 105 then none else some (remote % 256 ∷ [], b'0' ∷ [])

abbrev whole : List ℕ
whole = replicate 8 0

-- At 256: a short datagram, this computer itself, another subnet, and two cameras. At 512: a camera,
-- and one that comes behind a failure.
abbrev two_interfaces : List Interface
two_interfaces =
    (
      256,
      Devices.packet (replicate 7 0) 300
          ∷ Devices.packet whole 256
          ∷ Devices.packet whole 1000
          ∷ Devices.packet whole 353
          ∷ Devices.packet whole 354
          ∷ [],
    )
    ∷ (512, Devices.packet whole 611 ∷ Devices.recv_failed ∷ Devices.packet whole 612 ∷ [])
    ∷ []
