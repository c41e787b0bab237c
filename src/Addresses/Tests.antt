-- ===== src/Addresses/Tests.antt =====
-- Runs of the reservation of addresses on a concrete network.
use vm_forgeyard.Prelude.{
  ◌≡◌, refl, true, false, some, [], ◌∷◌, ◌==◌, if◌then◌else◌, ok, append, fstring,
}
use vm_forgeyard.Addresses.{
  Ipaddress, NetworkConfig, IpReservation, reserve_ip, reserve_for, reserve_new, network_hosts,
  network_for_segment, outside_pool, ip_in_dynamic_dhcp_pool, in_range, segment_for_network,
  own_network, generate_mac, insert_reservation,
}
use vm_forgeyard.Addresses.Reserving.{HasUniqueAddresses, reserve_ip-HasUniqueAddresses}

-- Addresses are texts of one letter: "p" is in the pool, and so is what is not known.
abbrev letters : Ipaddress (Unit {0})
letters = record {
  ip_address = λ s.
      some (record { version = 4; number = if s == "a" then 1 else if s == "b" then 2 else 7 });
  interface_network = λ s. some tt;
  ip_network = λ s. some tt;
  net_version = λ n. 4;
  prefixlen = λ n. 24;
  subnets_24 = λ n. [];
  hosts = λ n. "0" ∷ "1" ∷ "2" ∷ "3" ∷ "4" ∷ "5" ∷ "6" ∷ "7" ∷ "8" ∷ "9" ∷ "p" ∷ "a" ∷ "b" ∷ [];
  contains = λ n a. true;
}

abbrev one_segment : NetworkConfig
one_segment = record {
  cidr = "10.0.0.0/24";
  segments =
      record {
        id = "dev";
        address = some "10.0.0.1/24";
        dhcp_range_start = some "x";
        dhcp_range_end = some "y";
      }
      ∷ [];
}

abbrev of_ci : IpReservation
of_ci = record { namespace = "ci"; vm_slot = "web"; ip_address = "a"; mac_address = "m1" }

abbrev of_dev : IpReservation
of_dev = record { namespace = "dev"; vm_slot = "db"; ip_address = "b"; mac_address = "m2" }

-- The host in the pool and the one in use are skipped, and so is the hardware address in use.
second_reservation :
    reserve_ip letters one_segment ("m1" ∷ "m2" ∷ []) (of_ci ∷ []) "dev" "db" "dev"
    ≡ ok (of_ci ∷ of_dev ∷ [], of_dev)
unfolding reserve_ip reserve_for reserve_new network_hosts network_for_segment outside_pool
    ip_in_dynamic_dhcp_pool in_range segment_for_network own_network generate_mac insert_reservation
    fstring append
second_reservation = refl

reserve_ip-HasUniqueAddresses_example :
    HasUniqueAddresses (of_ci ∷ of_dev ∷ [])
    × (ip_in_dynamic_dhcp_pool letters one_segment "dev" "b" ≡ ok false)
reserve_ip-HasUniqueAddresses_example =
    reserve_ip-HasUniqueAddresses letters one_segment ("m1" ∷ "m2" ∷ []) (of_ci ∷ []) "dev" "db"
      "dev" (of_ci ∷ of_dev ∷ []) of_dev ((tt, tt), (tt, tt)) second_reservation
