-- ===== src/Addresses.antt =====
-- src/kvm_control/db.py: the reservations of addresses and the methods of `Registry` on them.
-- The `ipaddress` library is a parameter. The status event of a reservation is left out.
pub mod Reserving
mod Tests
use vm_forgeyard.Prelude.{
  ℕ, zero, String, Bool, true, false, not, ◌&&◌, ◌||◌, Option, none, some, List, [], ◌∷◌, ◌++◌,
  ◌==◌, ◌=ℕ◌, leb, ltb, suc, if◌then◌else◌, is_none, truthy, map, length, ◌+◌, Result, ok, err,
  ◌>>=◌, or_raise, append, fstring,
}
use vm_forgeyard.Prelude.Rows.{select, fetch, delete, any}

-- An address of `ipaddress`: its version, and the number that its comparison goes by.
pub record IpAddress : Type 0 where
  pub version : ℕ
  pub number : ℕ

-- What the registry uses of `ipaddress`, with none for a ValueError.
pub record Ipaddress (Net : Type 0) : Type 0 where
  pub ip_address : String → Option IpAddress
  pub interface_network : String → Option Net
  pub ip_network : String → Option Net
  pub net_version : Net → ℕ
  pub prefixlen : Net → ℕ
  pub subnets_24 : Net → List Net
  pub hosts : Net → List String
  pub contains : Net → IpAddress → Bool

pub record NetworkSegment : Type 0 where
  pub id : String
  pub address : Option String
  pub dhcp_range_start : Option String
  pub dhcp_range_end : Option String

pub record NetworkConfig : Type 0 where
  pub cidr : String
  pub segments : List NetworkSegment

pub record IpReservation : Type 0 where
  pub namespace : String
  pub vm_slot : String
  pub ip_address : String
  pub mac_address : String

pub data AddressError : Type 0 where
  value_error : String → AddressError
  stop_iteration integrity_error : AddressError

abbrev pub reserved_for : String → String → IpReservation → Bool
reserved_for namespace vm_slot r = r.namespace == namespace && r.vm_slot == vm_slot

abbrev pub with_ip : String → IpReservation → Bool
with_ip ip r = r.ip_address == ip

abbrev pub with_mac : String → IpReservation → Bool
with_mac mac r = r.mac_address == mac

unfoldable pub segment_for_network : NetworkConfig → String → Result AddressError NetworkSegment
unfolding fstring append
segment_for_network config network_id =
    or_raise (fetch (λ (s : NetworkSegment). s.id == network_id) config.segments)
      (value_error (fstring ("unknown network " ∷ network_id ∷ [])))

abbrev pub nth {ℓ} : {A : Type ℓ} → ℕ → List A → Option A
nth n [] = none
nth zero (x ∷ xs) = some x
nth (suc n) (x ∷ xs) = nth n xs

-- segments.index(segment), where the segment is the first one of the name.
abbrev pub index_of : String → List NetworkSegment → ℕ
index_of network_id [] = 0
index_of network_id (s ∷ ss) =
    let rest = suc (index_of network_id ss) in if s.id == network_id then 0 else rest

abbrev pub or_else {ℓ} : {A : Type ℓ} → Option A → A → A
or_else none d = d
or_else (some a) d = a

-- The part of the pool for a segment without an address of its own.
unfoldable pub pool_part : {Net : Type 0} → Ipaddress Net → NetworkConfig → String → Net → Net
pool_part lib config network_id base =
    if leb (lib.prefixlen base) 24
    then or_else (nth (suc (index_of network_id config.segments)) (lib.subnets_24 base)) base
    else base

abbrev bad_network : AddressError
bad_network = value_error "invalid network"

abbrev of_version_4 {ℓ} : {A : Type ℓ} → Bool → String → A → Result AddressError A
of_version_4 true reason a = ok a
of_version_4 false reason a = err (value_error reason)

-- The network of a segment with an address, and that of one without.
unfoldable pub own_network : {Net : Type 0} → Ipaddress Net → String → Result AddressError Net
own_network lib address = do
  network ← or_raise (lib.interface_network address) bad_network
  of_version_4 (lib.net_version network =ℕ 4) "only IPv4 network segments are supported" network

unfoldable pub shared_network :
    {Net : Type 0} → Ipaddress Net → NetworkConfig → String → Result AddressError Net
unfolding pool_part
shared_network lib config network_id = do
  base ← or_raise (lib.ip_network config.cidr) bad_network
  of_version_4 (lib.net_version base =ℕ 4) "only IPv4 network reservations are supported"
      (pool_part lib config network_id base)

unfoldable pub network_for_segment :
    {Net : Type 0} → Ipaddress Net → NetworkConfig → String → Result AddressError Net
unfolding segment_for_network own_network shared_network
network_for_segment lib config network_id = do
  segment ← segment_for_network config network_id
  (if truthy segment.address
      then own_network lib (or_else segment.address "")
      else shared_network lib config network_id)

-- start <= candidate <= end, after the ends were put in order.
abbrev pub between : IpAddress → IpAddress → IpAddress → Bool
between start end candidate =
    if ltb end.number start.number
    then leb end.number candidate.number && leb candidate.number start.number
    else leb start.number candidate.number && leb candidate.number end.number

-- Whether an address is between two others, all of version 4.
unfoldable pub in_range :
    {Net : Type 0} → Ipaddress Net → String → String → String → Result AddressError Bool
in_range lib first last ip = do
  candidate ← or_raise (lib.ip_address ip) (value_error ip)
  start ← or_raise (lib.ip_address first) bad_network
  end ← or_raise (lib.ip_address last) bad_network
  ok (
      (candidate.version =ℕ 4 && (start.version =ℕ 4 && end.version =ℕ 4))
      && between start end candidate)

unfoldable pub ip_in_dynamic_dhcp_pool :
    {Net : Type 0} → Ipaddress Net → NetworkConfig → String → String → Result AddressError Bool
unfolding segment_for_network in_range
ip_in_dynamic_dhcp_pool lib config network_id ip = do
  segment ← segment_for_network config network_id
  (if not (truthy segment.dhcp_range_start) || not (truthy segment.dhcp_range_end)
      then ok false
      else in_range lib (or_else segment.dhcp_range_start "") (or_else segment.dhcp_range_end "")
          ip)

abbrev pub drop {ℓ} : {A : Type ℓ} → ℕ → List A → List A
drop zero xs = xs
drop (suc n) [] = []
drop (suc n) (x ∷ xs) = drop n xs

-- The hosts that are not in the pool; the first error is raised.
unfoldable pub outside_pool :
    {Net : Type 0}
    → Ipaddress Net
    → NetworkConfig
    → String
    → List String
    → Result AddressError (List String)
unfolding ip_in_dynamic_dhcp_pool
outside_pool lib config network_id [] = ok []
outside_pool lib config network_id (host ∷ hosts) = do
  let later = outside_pool lib config network_id hosts
  pooled ← ip_in_dynamic_dhcp_pool lib config network_id host
  rest ← later
  ok (if pooled then rest else host ∷ rest)

unfoldable pub network_hosts :
    {Net : Type 0} → Ipaddress Net → NetworkConfig → String → Result AddressError (List String)
unfolding network_for_segment outside_pool
network_hosts lib config network_id = do
  net ← network_for_segment lib config network_id
  outside_pool lib config network_id (drop 10 (lib.hosts net))

-- `_generate_mac`, on the addresses that are drawn one after the other; none if none is free.
unfoldable pub generate_mac : List IpReservation → List String → Option String
generate_mac rows [] = none
generate_mac rows (mac ∷ macs) =
    let rest = generate_mac rows macs in if any (with_mac mac) rows then rest else some mac

-- INSERT: the slot, the address and the hardware address are unique.
unfoldable pub insert_reservation :
    List IpReservation → IpReservation → Result AddressError (List IpReservation)
insert_reservation rows row =
    if any (reserved_for row.namespace row.vm_slot) rows
      || (any (with_ip row.ip_address) rows || any (with_mac row.mac_address) rows)
    then err integrity_error
    else ok (rows ++ row ∷ [])

-- The hardware address of the old row, or a fresh one.
abbrev pub mac_of : List IpReservation → Option IpReservation → List String → Option String
mac_of rows none draws = generate_mac rows draws
mac_of rows (some row) draws = some row.mac_address

-- A reservation that is not the old one.
unfoldable pub reserve_new :
    {Net : Type 0}
    → Ipaddress Net
    → NetworkConfig
    → List String
    → List IpReservation
    → String
    → String
    → String
    → Option IpReservation
    → Result AddressError (List IpReservation × IpReservation)
unfolding network_hosts generate_mac insert_reservation
reserve_new lib config draws rows namespace vm_slot network_id old = do
  let kept = delete (reserved_for namespace vm_slot) rows
  hosts ← network_hosts lib config network_id
  ip ← or_raise (fetch (λ host. not (any (with_ip host) kept)) hosts) stop_iteration
  mac ← or_raise (mac_of kept old draws) stop_iteration
  let row : IpReservation = record {
    namespace = namespace;
    vm_slot = vm_slot;
    ip_address = ip;
    mac_address = mac;
  }
  after ← insert_reservation kept row
  ok (after, row)

-- Whether the old address is in the network and outside the pool.
unfoldable pub is_reusable :
    {Net : Type 0} → Ipaddress Net → NetworkConfig → String → String → Result AddressError Bool
unfolding network_for_segment ip_in_dynamic_dhcp_pool
is_reusable lib config network_id ip = do
  network ← network_for_segment lib config network_id
  address ← or_raise (lib.ip_address ip) (value_error ip)
  pooled ←
      (if lib.contains network address
        then ip_in_dynamic_dhcp_pool lib config network_id ip
        else ok true)
  ok (not pooled)

-- The reservation and whether it is an old one that is used again.
unfoldable pub reserve_for :
    {Net : Type 0}
    → Ipaddress Net
    → NetworkConfig
    → List String
    → List IpReservation
    → String
    → String
    → String
    → Option IpReservation
    → Result AddressError (List IpReservation × IpReservation)
unfolding reserve_new is_reusable network_for_segment
reserve_for lib config draws rows namespace vm_slot network_id none =
    reserve_new lib config draws rows namespace vm_slot network_id none
reserve_for lib config draws rows namespace vm_slot network_id (some row) = do
  reused ← is_reusable lib config network_id row.ip_address
  (if reused
      then ok (rows, row)
      else reserve_new lib config draws rows namespace vm_slot network_id (some row))

unfoldable pub reserve_ip :
    {Net : Type 0}
    → Ipaddress Net
    → NetworkConfig
    → List String
    → List IpReservation
    → String
    → String
    → String
    → Result AddressError (List IpReservation × IpReservation)
unfolding reserve_for
reserve_ip lib config draws rows namespace vm_slot network_id =
    reserve_for lib config draws rows namespace vm_slot network_id
      (fetch (reserved_for namespace vm_slot) rows)

unfoldable pub namespace_ips : List IpReservation → String → List IpReservation
namespace_ips rows namespace = select (λ r. r.namespace == namespace) rows

unfoldable pub delete_ip_reservation : List IpReservation → String → String → List IpReservation
delete_ip_reservation rows namespace vm_slot = delete (reserved_for namespace vm_slot) rows
