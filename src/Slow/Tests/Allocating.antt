-- ===== src/Slow/Tests/Allocating.antt =====
-- Packet memory, ARP requests and routes.
use tas.Base.{ℕ, ◌+◌, ◌≡◌, refl, arith, true, false, none, some, List, [], ◌∷◌, put, inr}
use tas.Slow.Packetmem.{
  Handle, FreeLists, packetmem_init, take_block, alloc_block, packetmem_alloc, packetmem_free,
  walks_on,
}
use tas.Slow.Packetmem.Cover.{within, cover, alloc_covers, free_covers}
use tas.Slow.Packetmem.Order.{free-alloc, free_leaves_apart}
use tas.Slow.Arp.{ArpConfig, ArpEntry, ae_lookup, ArpPacket}
use tas.Slow.Arp.Waiting.{count, waiting, told, is_quiet, settled, ips, pending_at}
use tas.Slow.Arp.System.{request, packet, timeout, ArpState, arp_run, arp_start, IsTimed, IsSound}
use tas.Slow.Arp.Sound.{run-IsSound}
use tas.Slow.Arp.Timing.{timeouts, IsOver, timeouts-IsOver}
use tas.Slow.Routing.{
  ConfigRoute, Route, masked, route_entries, routing_init, resolve, hangs, request_at,
  routing_resolve,
}
use tas.Slow.Routing.Direct.{
  IsLocal, AreLocal, one_hop, default_route, resolve_ends, default_route_hangs,
}

abbrev block : ℕ → ℕ → Handle
block base len = record { base = base; len = len }

abbrev fresh : FreeLists
fresh = packetmem_init 64 1064

abbrev after_one : FreeLists
after_one = put fresh 2 (block 164 900 ∷ [])

alloc_covers_example :
    ((block 64 100).len ≡ 100)
    × (within (block 64 100) 70 + cover (after_one 2) 70 ≡ cover (fresh 2) 70)
unfolding packetmem_init packetmem_alloc alloc_block take_block
alloc_covers_example = alloc_covers true 100 fresh 2 70 (block 64 100) after_one first
  where
    first : packetmem_alloc true 100 fresh 2 ≡ some (block 64 100, after_one)
    first = refl

abbrev holes : FreeLists
holes v = block 0 100 ∷ block 200 100 ∷ []

free_covers_example :
    cover (packetmem_free (block 100 50) holes 1 1) 120
    ≡ within (block 100 50) 120 + cover (holes 1) 120
free_covers_example = free_covers (block 100 50) holes 1 120

free-alloc_example :
    (h : Handle) × (after : FreeLists) × (packetmem_alloc true 30 holes 1 ≡ some (h, after))
    × (packetmem_free h after 1 1 ≡ holes 1)
unfolding walks_on
free-alloc_example =
    free-alloc 30 holes 1 (block 0 100) (block 200 100 ∷ []) refl (omega arith) refl

abbrev one_hole : FreeLists
one_hole v = block 0 100 ∷ []

free_leaves_apart_example :
    (packetmem_free (block 100 50) one_hole 1 1 ≡ block 100 50 ∷ block 0 100 ∷ [])
    × (packetmem_alloc true 150 (packetmem_free (block 100 50) one_hole 1) 1 ≡ none)
free_leaves_apart_example =
    free_leaves_apart true (block 100 50) one_hole 1 (block 0 100) refl (omega arith) (omega arith)
      (omega arith)

abbrev arp_conf : ArpConfig
arp_conf = record { ip = 7; eth_addr = 99; arp_to = 500; arp_to_max = 10000000 }

abbrev reply : ArpPacket
reply = record { is_ipv4 = true; oper = 2; sha = 77; spa = 9; tpa = 7 }

arp_conf-IsTimed : IsTimed arp_conf
arp_conf-IsTimed = record { first = omega arith; longest = omega arith }

run-IsSound_example :
    (t : ArpState) × (arp_run arp_conf
        (request true 1 9 ∷ request true 2 9 ∷ timeout 9 ∷ packet reply ∷ request true 3 8 ∷ [])
        (arp_start arp_conf)
      ≡ some t)
    × IsSound t
run-IsSound_example =
    run-IsSound arp_conf
      (request true 1 9 ∷ request true 2 9 ∷ timeout 9 ∷ packet reply ∷ request true 3 8 ∷ [])
      arp_conf-IsTimed

abbrev asked_for : ArpEntry
asked_for = record { ready = false; ip = 9; mac = 0; compl = 1 ∷ []; timeout = 500 }

abbrev asking : ArpState
asking = record {
  table = asked_for ∷ [];
  armed = put (λ ip. false) 9 true;
  log = [];
  asked = 1 ∷ [];
}

asking-IsSound : IsSound asking
unfolding ips settled is_quiet pending_at waiting told count
asking-IsSound = record { apart = refl; calm = refl; timers = armed; kept = λ c. ground arith }
  where
    armed : (ip : ℕ) → put (λ i. false) 9 true ip ≡ pending_at (asked_for ∷ []) ip
    armed ip = ground arith

timeouts-IsOver_example :
    (t : ArpState) × (arp_run arp_conf (timeouts 9 32) asking ≡ some t) × IsOver 9 (1 ∷ []) asking t
unfolding ae_lookup
timeouts-IsOver_example =
    timeouts-IsOver arp_conf asking 9 asked_for arp_conf-IsTimed refl refl (omega arith)
      (omega arith) asking-IsSound

-- 10.0.0.1/24 with a gateway of its network
abbrev host : ℕ
host = 167772161

abbrev gateway : ConfigRoute
gateway = record { ip = 0; ip_prefix = 0; next_hop_ip = 167772414 }

abbrev table : List Route
table =
    record { dest_ip = 167772160; dest_mask = 24; next_hop = 0 }
    ∷ record { dest_ip = 0; dest_mask = 0; next_hop = 167772414 }
    ∷ []

resolve_ends_example :
    routing_resolve 2 arp_conf true [] table 5 134744072
    ≡ request_at arp_conf true [] 5 (one_hop (resolve table 134744072) 134744072)
unfolding AreLocal IsLocal masked routing_init route_entries
resolve_ends_example =
    resolve_ends 0 arp_conf true [] host 24 (gateway ∷ []) table 5 134744072 (inr refl, tt) built
  where
    built : routing_init host 24 (gateway ∷ []) ≡ some table
    built = refl

default_route_hangs_example :
    (t : List Route) × (routing_init host 24 (default_route 3232235521 ∷ []) ≡ some t)
    × (routing_resolve 1000 arp_conf true [] t 5 134744072 ≡ hangs)
unfolding IsLocal masked
default_route_hangs_example =
    default_route_hangs 1000 arp_conf true [] host 24 3232235521 5 134744072 (omega arith)
      (omega arith) (λ e. absurd (omega (arith, e))) (λ e. absurd (omega (arith, e)))
      (λ e. absurd (omega (arith, e)))
