-- ===== src/Slow/Routing.antt =====
-- The routes of the slow path, tas/slow/routing.c. The loop of `routing_resolve` has no bound, so it
-- runs on fuel. A mask is always that of a prefix, and is given by the prefix length, at most 32.
pub mod Direct
use tas.Base.{
  ℕ, zero, suc, ◌-◌, ◌*◌, ◌/◌, ◌^◌, Bool, not, Option, none, some, List, [], ◌∷◌, ◌==◌,
  if◌then◌else◌, ◌>>=◌,
}
use tas.Slow.Arp.{ArpConfig, ArpEntry, ArpResult, arp_request}

-- `struct config_route`
pub record ConfigRoute : Type 0 where
  pub ip : ℕ
  pub ip_prefix : ℕ
  pub next_hop_ip : ℕ

-- `struct routing_table_entry`; `dest_mask` is the length of the prefix.
pub record Route : Type 0 where
  pub dest_ip : ℕ
  pub dest_mask : ℕ
  pub next_hop : ℕ

-- `ip & prefix_len_mask(len)`: the low `32 - len` bits are cleared.
unfoldable pub masked : (len ip : ℕ) → ℕ
masked len ip = ip / 2 ^ (32 - len) * 2 ^ (32 - len)

-- The entries of the configured routes, or nothing if a mask removes bits of one.
unfoldable pub route_entries : List ConfigRoute → Option (List Route)
route_entries [] = some []
route_entries (cr ∷ rest) =
    let later = route_entries rest in
    if not (masked cr.ip_prefix cr.ip == cr.ip)
    then none
    else later >>= (λ l.
      some (record { dest_ip = cr.ip; dest_mask = cr.ip_prefix; next_hop = cr.next_hop_ip } ∷ l))

-- The routes for the address and prefix of the host, or nothing for -1. `calloc` has memory.
unfoldable pub routing_init : (ip ip_prefix : ℕ) → List ConfigRoute → Option (List Route)
routing_init ip ip_prefix routes = route_entries routes >>= (λ l.
    some (record { dest_ip = masked ip_prefix ip; dest_mask = ip_prefix; next_hop = 0 } ∷ l))

-- the first entry that matches
unfoldable pub resolve : List Route → ℕ → Option Route
resolve [] ip = none
resolve (r ∷ rest) ip =
    let later = resolve rest ip in if r.dest_ip == masked r.dest_mask ip then some r else later

-- The end of the loop: an address on the own network, none, or out of fuel.
pub data Hop : Type 0 where
  direct : ℕ → Hop
  no_route : Hop
  still_running : Hop

-- by what `resolve` finds, given what the loop does from the next hop on
unfoldable pub hop_by : Option Route → ℕ → (ℕ → Hop) → Hop
hop_by none ip further = no_route
hop_by (some r) ip further = if r.next_hop == 0 then direct ip else further r.next_hop

unfoldable pub route_loop : ℕ → List Route → ℕ → Hop
route_loop zero table ip = still_running
route_loop (suc fuel) table ip = hop_by (resolve table ip) ip (route_loop fuel table)

-- What `routing_resolve` returns: the result of `arp_request`, or nothing for its `abort`, or -1.
pub data Resolved : Type 0 where
  requested : Option ArpResult → Resolved
  unroutable : Resolved
  hangs : Resolved

unfoldable pub request_at : ArpConfig → Bool → List ArpEntry → ℕ → Hop → Resolved
request_at conf malloc arp_table comp (direct ip) =
    requested (arp_request conf malloc arp_table comp ip)
request_at conf malloc arp_table comp no_route = unroutable
request_at conf malloc arp_table comp still_running = hangs

unfoldable pub routing_resolve :
    ℕ → ArpConfig → Bool → List ArpEntry → List Route → (comp ip : ℕ) → Resolved
routing_resolve fuel conf malloc arp_table table comp ip =
    request_at conf malloc arp_table comp (route_loop fuel table ip)
