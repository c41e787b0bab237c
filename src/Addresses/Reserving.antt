-- ===== src/Addresses/Reserving.antt =====
-- What a reservation of an address promises.
use vm_forgeyard.Prelude.{
  ◌≡◌, ap, subst, ◌∙◌, inl, inr, String, Bool, true, false, not, Option, none, some, List, [], ◌∷◌,
  ◌++◌, ◌==◌, ok, All, All-map, Bool-cases, Option-cases, Result-cases, ok-injective, arith, eq_iff,
}
use vm_forgeyard.Prelude.Rows.{fetch, fetch-All, delete, any}
use vm_forgeyard.Prelude.Keys.{Apart, Apart-append, Apart-select}
use vm_forgeyard.Addresses.{
  Ipaddress, NetworkConfig, IpReservation, reserved_for, with_ip, with_mac, ip_in_dynamic_dhcp_pool,
  outside_pool, network_hosts, network_for_segment, insert_reservation, mac_of, reserve_new,
  is_reusable, reserve_for, reserve_ip, drop,
}

abbrev pub same_ip : IpReservation → IpReservation → Bool
same_ip r s = s.ip_address == r.ip_address

abbrev pub same_mac : IpReservation → IpReservation → Bool
same_mac r s = s.mac_address == r.mac_address

-- UNIQUE(ip_address) and UNIQUE(mac_address)
abbrev pub HasUniqueAddresses : List IpReservation → Type 0
HasUniqueAddresses rows = Apart same_ip rows × Apart same_mac rows

any-All :
    (test : IpReservation → Bool) (rows : List IpReservation)
    → any test rows ≡ false
    → All (λ r. test r ≡ false) rows
any-All test [] h = tt
any-All test (r ∷ rows) h = (ground arith, any-All test rows (ground arith))

differ : (s t : String) → (s == t) ≡ false → (t == s) ≡ false
differ s t h = ground (arith, eq_iff s t, eq_iff t s)

inserted-HasUniqueAddresses :
    (rows after : List IpReservation) (row : IpReservation)
    → HasUniqueAddresses rows
    → insert_reservation rows row ≡ ok after
    → HasUniqueAddresses after
unfolding insert_reservation
inserted-HasUniqueAddresses rows after row h k =
    elim (Bool-cases (any (reserved_for row.namespace row.vm_slot) rows)) [
      | inl e ↦ cc (rw (insert_reservation, e) at k)
      | inr e ↦ elim (Bool-cases (any (with_ip row.ip_address) rows)) [
        | inl f ↦ cc (rw (insert_reservation, e, f) at k)
        | inr f ↦ elim (Bool-cases (any (with_mac row.mac_address) rows)) [
          | inl g ↦ cc (rw (insert_reservation, e, f, g) at k)
          | inr g ↦
              subst HasUniqueAddresses
                (ok-injective (rows ++ row ∷ []) after (rw (insert_reservation, e, f, g) at k))
                (
                  Apart-append same_ip rows row h.0 (
                      All-map (λ r x. differ r.ip_address row.ip_address x) rows
                        (any-All _ rows f)),
                  Apart-append same_mac rows row h.1 (
                      All-map (λ r x. differ r.mac_address row.mac_address x) rows
                        (any-All _ rows g)),
                )
        ]
      ]
    ]

module _ {Net : Type 0} (lib : Ipaddress Net) (config : NetworkConfig) where
  -- No host that is left is in the pool.
  outside_pool-All :
      (network_id : String) (hosts rest : List String)
      → outside_pool lib config network_id hosts ≡ ok rest
      → All (λ host. ip_in_dynamic_dhcp_pool lib config network_id host ≡ ok false) rest
  unfolding outside_pool
  outside_pool-All network_id [] rest h =
      subst (All (λ host. ip_in_dynamic_dhcp_pool lib config network_id host ≡ ok false))
        (ok-injective [] rest h) tt
  outside_pool-All network_id (host ∷ hosts) rest h =
      elim (Result-cases (ip_in_dynamic_dhcp_pool lib config network_id host)) [
        | inl e ↦ cc (rw (outside_pool, e.1) at h)
        | inr e ↦ elim (Result-cases (outside_pool lib config network_id hosts)) [
          | inl f ↦ cc (rw (outside_pool, e.1, f.1) at h)
          | inr f ↦ elim (Bool-cases e.0) [
            | inl g ↦
                subst (All (λ x. ip_in_dynamic_dhcp_pool lib config network_id x ≡ ok false))
                  (ok-injective f.0 rest (rw (outside_pool, e.1, f.1, g) at h))
                  (outside_pool-All network_id hosts f.0 f.1)
            | inr g ↦
                subst (All (λ x. ip_in_dynamic_dhcp_pool lib config network_id x ≡ ok false))
                  (ok-injective (host ∷ f.0) rest (rw (outside_pool, e.1, f.1, g) at h))
                  (e.1 ∙ ap ok g, outside_pool-All network_id hosts f.0 f.1)
          ]
        ]
      ]

  new-Reserved :
      (draws : List String) (rows : List IpReservation) (namespace vm_slot network_id : String)
      (old : Option IpReservation) (after : List IpReservation) (row : IpReservation)
      → HasUniqueAddresses rows
      → reserve_new lib config draws rows namespace vm_slot network_id old ≡ ok (after, row)
      → HasUniqueAddresses after
        × (ip_in_dynamic_dhcp_pool lib config network_id row.ip_address ≡ ok false)
  unfolding reserve_new network_hosts
  new-Reserved draws rows namespace vm_slot network_id old after row unique h =
      let kept = delete (reserved_for namespace vm_slot) rows in
      let free : String → Bool = λ host. not (any (with_ip host) kept) in
      elim (Result-cases (network_for_segment lib config network_id)) [
        | inl a ↦ cc (rw (reserve_new, network_hosts, a.1) at h)
        | inr a ↦
            elim (Result-cases (outside_pool lib config network_id (drop 10 (lib.hosts a.0)))) [
              | inl b ↦ cc (rw (reserve_new, network_hosts, a.1, b.1) at h)
              | inr b ↦ elim (Option-cases (fetch free b.0)) [
                | inl c ↦ cc (rw (reserve_new, network_hosts, a.1, b.1, c) at h)
                | inr c ↦ elim (Option-cases (mac_of kept old draws)) [
                  | inl d ↦ cc (rw (reserve_new, network_hosts, a.1, b.1, c.1, d) at h)
                  | inr d ↦
                      let new : IpReservation = record {
                        namespace = namespace;
                        vm_slot = vm_slot;
                        ip_address = c.0;
                        mac_address = d.0;
                      } in
                      elim (Result-cases (insert_reservation kept new)) [
                        | inl e ↦ cc (rw (reserve_new, network_hosts, a.1, b.1, c.1, d.1, e.1) at h)
                        | inr e ↦
                            let same : Path (List IpReservation × IpReservation) (e.0, new)
                                (after, row) =
                              ok-injective (e.0, new) (after, row)
                                (rw (reserve_new, network_hosts, a.1, b.1, c.1, d.1, e.1) at h) in
                            (
                              subst HasUniqueAddresses (ap (λ p. p.0) same) (
                                  inserted-HasUniqueAddresses kept e.0 new
                                    (
                                      Apart-select same_ip _ rows unique.0,
                                      Apart-select same_mac _ rows unique.1,
                                    )
                                    e.1),
                              subst
                                  (λ (r : IpReservation).
                                    ip_in_dynamic_dhcp_pool lib config network_id r.ip_address
                                    ≡ ok false)
                                  (ap (λ p. p.1) same)
                                  (fetch-All
                                    (λ host.
                                      ip_in_dynamic_dhcp_pool lib config network_id host ≡ ok false)
                                    free b.0 c.0 c.1
                                    (outside_pool-All network_id (drop 10 (lib.hosts a.0)) b.0
                                      b.1)),
                            )
                      ]
                ]
              ]
            ]
      ]

  reusable-Outside :
      (network_id ip : String)
      → is_reusable lib config network_id ip ≡ ok true
      → ip_in_dynamic_dhcp_pool lib config network_id ip ≡ ok false
  unfolding is_reusable
  reusable-Outside network_id ip h =
      elim (Result-cases (ip_in_dynamic_dhcp_pool lib config network_id ip)) [
        | inl d ↦ elim (Result-cases (network_for_segment lib config network_id)) [
          | inl a ↦ cc (rw (is_reusable, a.1) at h)
          | inr a ↦ elim (Option-cases (lib.ip_address ip)) [
            | inl b ↦ cc (rw (is_reusable, a.1, d.1, b) at h)
            | inr b ↦ elim (Bool-cases (lib.contains a.0 b.0)) [
              | inl c ↦ cc (rw (is_reusable, a.1, d.1, b.1, c) at h)
              | inr c ↦ cc (ok-injective false true (rw (is_reusable, a.1, d.1, b.1, c) at h))
            ]
          ]
        ]
        | inr d ↦ elim (Bool-cases d.0) [
          | inr e ↦ d.1 ∙ ap ok e
          | inl e ↦ elim (Result-cases (network_for_segment lib config network_id)) [
            | inl a ↦ cc (rw (is_reusable, a.1) at h)
            | inr a ↦ elim (Option-cases (lib.ip_address ip)) [
              | inl b ↦ cc (rw (is_reusable, a.1, d.1, b) at h)
              | inr b ↦ elim (Bool-cases (lib.contains a.0 b.0)) [
                | inl c ↦ cc (ok-injective false true (rw (is_reusable, a.1, d.1, b.1, c, e) at h))
                | inr c ↦ cc (ok-injective false true (rw (is_reusable, a.1, d.1, b.1, c) at h))
              ]
            ]
          ]
        ]
      ]

  for-Reserved :
      (draws : List String) (rows : List IpReservation) (namespace vm_slot network_id : String)
      (old : Option IpReservation) (after : List IpReservation) (row : IpReservation)
      → HasUniqueAddresses rows
      → reserve_for lib config draws rows namespace vm_slot network_id old ≡ ok (after, row)
      → HasUniqueAddresses after
        × (ip_in_dynamic_dhcp_pool lib config network_id row.ip_address ≡ ok false)
  unfolding reserve_for
  for-Reserved draws rows namespace vm_slot network_id none after row unique h =
      new-Reserved draws rows namespace vm_slot network_id none after row unique h
  for-Reserved draws rows namespace vm_slot network_id (some old) after row unique h =
      elim (Result-cases (is_reusable lib config network_id old.ip_address)) [
        | inl a ↦ cc (rw (reserve_for, a.1) at h)
        | inr a ↦ elim (Bool-cases a.0) [
          | inl e ↦
              let same : Path (List IpReservation × IpReservation) (rows, old) (after, row) =
                ok-injective (rows, old) (after, row) (rw (reserve_for, a.1, e) at h) in
              (
                subst HasUniqueAddresses (ap (λ p. p.0) same) unique,
                subst
                    (λ (r : IpReservation).
                      ip_in_dynamic_dhcp_pool lib config network_id r.ip_address ≡ ok false)
                    (ap (λ p. p.1) same)
                    (reusable-Outside network_id old.ip_address (a.1 ∙ ap ok e)),
              )
          | inr e ↦
              new-Reserved draws rows namespace vm_slot network_id (some old) after row unique
                (rw (reserve_for, a.1, e) at h)
        ]
      ]

-- A reservation that succeeds in a table in which no address and no hardware address occurs twice leaves
-- such a table, and the address that it returns, a new one or an old one, is outside the dynamic pool.
pub reserve_ip-HasUniqueAddresses :
    {Net : Type 0} (lib : Ipaddress Net) (config : NetworkConfig) (draws : List String)
    (rows : List IpReservation) (namespace vm_slot network_id : String) (after : List IpReservation)
    (row : IpReservation)
    → HasUniqueAddresses rows
    → reserve_ip lib config draws rows namespace vm_slot network_id ≡ ok (after, row)
    → HasUniqueAddresses after
      × (ip_in_dynamic_dhcp_pool lib config network_id row.ip_address ≡ ok false)
unfolding reserve_ip
reserve_ip-HasUniqueAddresses lib config draws rows namespace vm_slot network_id after row unique
      h =
    for-Reserved lib config draws rows namespace vm_slot network_id
      (fetch (reserved_for namespace vm_slot) rows) after row unique h
