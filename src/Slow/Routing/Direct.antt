-- ===== src/Slow/Routing/Direct.antt =====
-- Which address the resolution ends at, and whether it ends.
use tas.Base.{
  ℕ, zero, suc, ◌≡◌, ◌≢◌, ◌<◌, ◌^◌, ◌⊎◌, refl, sym, ap, subst, ◌∙◌, arith, Bool, true, false,
  Option, none, some, List, [], ◌∷◌, ◌==◌, ==_iff, if◌then◌else◌, Bool-cases, Option-cases, inl,
  inr, if_yes, if_no, some_inj,
}
use tas.Slow.Arp.{ArpConfig, ArpEntry}
use tas.Slow.Routing.{
  ConfigRoute, Route, masked, route_entries, routing_init, resolve, Hop, direct, no_route,
  still_running, hop_by, route_loop, hangs, request_at, routing_resolve,
}

-- The address is on the host's own network.
unfoldable pub IsLocal : (ip ip_prefix : ℕ) → ℕ → Type 0
IsLocal ip ip_prefix a = masked ip_prefix a ≡ masked ip_prefix ip

-- The next hop of every route that has one is on the own network.
unfoldable pub AreLocal : (ip ip_prefix : ℕ) → List ConfigRoute → Type 0
AreLocal ip ip_prefix [] = Unit
AreLocal ip ip_prefix (cr ∷ rest) =
    ((cr.next_hop_ip ≡ 0) ⊎ IsLocal ip ip_prefix cr.next_hop_ip) × AreLocal ip ip_prefix rest

AreNear : (ip ip_prefix : ℕ) → List Route → Type 0
AreNear ip ip_prefix [] = Unit
AreNear ip ip_prefix (r ∷ rest) =
    ((r.next_hop ≡ 0) ⊎ IsLocal ip ip_prefix r.next_hop) × AreNear ip ip_prefix rest

abbrev route_of : ConfigRoute → Route
route_of cr = record { dest_ip = cr.ip; dest_mask = cr.ip_prefix; next_hop = cr.next_hop_ip }

entries-AreNear :
    (ip p : ℕ) (routes : List ConfigRoute) (l : List Route)
    → AreLocal ip p routes
    → route_entries routes ≡ some l
    → AreNear ip p l
unfolding AreLocal AreNear route_entries
entries-AreNear ip p [] l h e = subst (AreNear ip p) (some_inj e) tt
entries-AreNear ip p (cr ∷ rest) l h e = elim (Bool-cases (masked cr.ip_prefix cr.ip == cr.ip)) [
  | inr n ↦ absurd (ground (arith, rw n at e))
  | inl y ↦ elim (Option-cases (route_entries rest)) [
    | inl o ↦ absurd (ground (arith, rw (y, o) at e))
    | inr w ↦
        let same : route_of cr ∷ w.0 ≡ l = some_inj (rw (y, w.1) at e) in
        subst (AreNear ip p) same (h.0, entries-AreNear ip p rest w.0 h.1 (w.1))
  ]
]

resolve-near :
    (ip p : ℕ) (l : List Route) (a : ℕ) (r : Route)
    → AreNear ip p l
    → resolve l a ≡ some r
    → (r.next_hop ≡ 0) ⊎ IsLocal ip p r.next_hop
unfolding AreNear resolve
resolve-near ip p [] a r h e = absurd (ground (arith, e))
resolve-near ip p (q ∷ l) a r h e = elim (Bool-cases (q.dest_ip == masked q.dest_mask a)) [
  | inl y ↦
      let same : q ≡ r = some_inj (rw y at e) in
      subst (λ x. (x.next_hop ≡ 0) ⊎ IsLocal ip p x.next_hop) same h.0
  | inr n ↦ resolve-near ip p l a r h.1 (rw n at e)
]

-- the route of the host's own network
abbrev own : (ip ip_prefix : ℕ) → Route
own ip p = record { dest_ip = masked p ip; dest_mask = p; next_hop = 0 }

-- What the table is.
init_table :
    (ip p : ℕ) (routes : List ConfigRoute) (table : List Route)
    → routing_init ip p routes ≡ some table
    → (l : List Route) × (route_entries routes ≡ some l) × (own ip p ∷ l ≡ table)
unfolding routing_init
init_table ip p routes table e = elim (Option-cases (route_entries routes)) [
  | inl o ↦ absurd (ground (arith, rw o at e))
  | inr w ↦ (w.0, w.1, some_inj (rw (w.1) at e))
]

resolve-own :
    (ip p a : ℕ) (l : List Route) → IsLocal ip p a → resolve (own ip p ∷ l) a ≡ some (own ip p)
unfolding resolve IsLocal
resolve-own ip p a l h = if_yes _ _ ((==_iff (masked p ip) (masked p a)).1 (sym h))

-- The address to ask for, by the entry found for `ip`: itself, or the next hop.
unfoldable pub one_hop : Option Route → ℕ → Hop
one_hop none ip = no_route
one_hop (some r) ip = if r.next_hop == 0 then direct ip else direct r.next_hop

near_hop :
    (n : ℕ) (ip p a : ℕ) (l : List Route) (o : Option Route)
    → resolve (own ip p ∷ l) a ≡ o
    → AreNear ip p l
    → hop_by o a (route_loop (suc n) (own ip p ∷ l)) ≡ one_hop o a
unfolding one_hop hop_by AreNear route_loop
near_hop n ip p a l none e h = refl
near_hop n ip p a l (some r) e h = elim (Bool-cases (r.next_hop == 0)) [
  | inl y ↦ rw y refl
  | inr m ↦
      if_no _ _ m
      ∙ (elim (resolve-near ip p (own ip p ∷ l) a r (inl refl, h) e) [
        | inl z ↦ absurd (ground (arith, z, m))
        | inr k ↦
            ap (λ q. hop_by q r.next_hop (route_loop n (own ip p ∷ l)))
              (resolve-own ip p r.next_hop l k)
      ])
      ∙ sym (if_no _ _ m)
]

-- If the next hop of every configured route is 0 or on the host's own network, two rounds of the loop
-- are enough for every address: `routing_resolve` asks ARP for the address, or for the next hop of the
-- first route that matches it, and has no route exactly if none matches.
pub resolve_ends :
    (fuel : ℕ) (conf : ArpConfig) (malloc : Bool) (arp_table : List ArpEntry) (ip p : ℕ)
    (routes : List ConfigRoute) (table : List Route) (comp a : ℕ)
    → AreLocal ip p routes
    → routing_init ip p routes ≡ some table
    → routing_resolve (suc (suc fuel)) conf malloc arp_table table comp a
      ≡ request_at conf malloc arp_table comp (one_hop (resolve table a) a)
unfolding routing_resolve route_loop
resolve_ends fuel conf malloc arp_table ip p routes table comp a h e =
    let w = init_table ip p routes table e in
    subst
      (λ t.
        request_at conf malloc arp_table comp (hop_by (resolve t a) a (route_loop (suc fuel) t))
        ≡ request_at conf malloc arp_table comp (one_hop (resolve t a) a))
      w.2
      (ap (request_at conf malloc arp_table comp) (
        near_hop fuel ip p a w.0 (resolve (own ip p ∷ w.0) a) refl
          (entries-AreNear ip p routes w.0 h (w.1))))

loops :
    (fuel : ℕ) (table : List Route) (a : ℕ) (r : Route)
    → (r.next_hop == 0) ≡ false
    → resolve table a ≡ some r
    → resolve table r.next_hop ≡ some r
    → route_loop fuel table a ≡ still_running
unfolding route_loop hop_by
loops zero table a r n e f = refl
loops (suc fuel) table a r n e f =
    ap (λ o. hop_by o a (route_loop fuel table)) e
    ∙ if_no _ _ n
    ∙ loops fuel table r.next_hop r n f f

unfoldable pub default_route : ℕ → ConfigRoute
default_route hop = record { ip = 0; ip_prefix = 0; next_hop_ip = hop }

default_table :
    (ip p hop : ℕ)
    → routing_init ip p (default_route hop ∷ [])
      ≡ some (own ip p ∷ route_of (default_route hop) ∷ [])
unfolding routing_init route_entries masked default_route
default_table ip p hop = refl

masked_all : (x : ℕ) → x < 2 ^ 32 → masked 0 x ≡ 0
unfolding masked
masked_all x h = omega arith

resolve-default :
    (ip p hop a : ℕ)
    → a < 2 ^ 32
    → ¬ IsLocal ip p a
    → resolve (own ip p ∷ route_of (default_route hop) ∷ []) a ≡ some (route_of (default_route hop))
unfolding resolve default_route IsLocal
resolve-default ip p hop a w n =
    let far : (masked p ip == masked p a) ≡ false =
      ground (arith, n, ==_iff (masked p ip) (masked p a)) in
    if_no _ _ far ∙ if_yes _ _ (all a w)
  where
    all : (x : ℕ) → x < 2 ^ 32 → (0 == masked 0 x) ≡ true
    all x h = let none_left : masked 0 x ≡ 0 = masked_all x h in rw none_left refl

-- Let the only configured route be a default route whose next hop is not 0 and not on the host's own
-- network. Then `routing_resolve` loops for ever on every address that is not on that network: no fuel is
-- enough.
pub default_route_hangs :
    (fuel : ℕ) (conf : ArpConfig) (malloc : Bool) (arp_table : List ArpEntry) (ip p hop : ℕ)
    (comp a : ℕ)
    → a < 2 ^ 32
    → hop < 2 ^ 32
    → hop ≢ 0
    → ¬ IsLocal ip p a
    → ¬ IsLocal ip p hop
    → (table : List Route) × (routing_init ip p (default_route hop ∷ []) ≡ some table)
      × (routing_resolve fuel conf malloc arp_table table comp a ≡ hangs)
unfolding routing_resolve request_at default_route
default_route_hangs fuel conf malloc arp_table ip p hop comp a w v z n m =
    let table = own ip p ∷ route_of (default_route hop) ∷ [] in
    let far : (hop == 0) ≡ false = ground (arith, z) in
    (
      table,
      default_table ip p hop,
      ap (request_at conf malloc arp_table comp) (
          loops fuel table a (route_of (default_route hop)) far (resolve-default ip p hop a w n)
            (resolve-default ip p hop hop v m)),
    )
