-- ===== src/Slow/Nicif/Added.antt =====
-- A connection that is added is found by the fast path, and so are the ones that were there.
use tas.Base.{
  ℕ, ◌%◌, ◌^◌, ◌≤◌, ◌<◌, ◌≡◌, ◌≢◌, sym, ap, subst, ◌∙◌, arith, true, Option, none, some, put-same,
  put-other, add32, Option-cases, inl, inr, ℕ_discrete,
}
use tas.Fast.Flow.{Flow}
use tas.Fast.Segment.{Tunnel}
use tas.Fast.Receive.{Packet}
use tas.Fast.Classify.{Entry, ht_entries, same_tuple, entry_flow, entry_for, bucket, packet_fss}
use tas.Fast.Classify.Lookup.{IsFound, packet_fss_sound, packet_fss_complete}
use tas.Slow.Nicif.Slots.{is_taken, entry_dist, taken_id, slot}
use tas.Slow.Nicif.Moves.{away}
use tas.Slow.Nicif.Open.{IsKept, AreWords}
use tas.Slow.Nicif.Slot.{Allocates, slot_alloc-Allocates}
use tas.Slow.Nicif.Write.{IsAdded, add-IsAdded, bucket_lem, written}
use tas.Slow.Nicif.Connections.{
  NicState, GreArgs, ConnArgs, conn_addresses, conn_flow, added, conn_write, nicif_connection_add,
}

-- The packet has the connection's addresses.
unfoldable pub IsFor : Option GreArgs → ConnArgs → Option Tunnel → Packet → Type 0
IsFor none c none p =
    (p.ip_dest ≡ c.ip_local)
    × (p.ip_src ≡ c.ip_remote)
    × (p.dest ≡ c.port_local)
    × (p.src ≡ c.port_remote)
IsFor none c (some t) p = ⊥
IsFor (some g) c none p = ⊥
IsFor (some g) c (some t) p =
    (t.out_dest ≡ g.out_ip_local)
    × (t.out_src ≡ g.out_ip_remote)
    × (t.key ≡ g.tunnel_id)
    × (p.ip_dest ≡ c.ip_local)
    × (p.ip_src ≡ c.ip_remote)
    × (p.dest ≡ c.port_local)
    × (p.src ≡ c.port_remote)

for_lem :
    (c : ConnArgs) (old : Flow) (p : Packet) (g : Option GreArgs) (t : Option Tunnel)
    → IsFor g c t p
    → same_tuple (conn_flow (record c { gre = g }) old) (record p { tunnel = t }) ≡ true
unfolding IsFor same_tuple conn_flow conn_addresses
for_lem c old p none none h = ground (arith, h)
for_lem c old p none (some t) h = absurd h
for_lem c old p (some g) none h = absurd h
for_lem c old p (some g) (some t) h = ground (arith, h)

-- the entry of the new flow
abbrev new_entry : (d f h : ℕ) → Entry
new_entry d f h = record { flow_id = taken_id d f; flow_hash = h }

module _ (fuel : ℕ) (conn_hash : ConnArgs → ℕ) (c : ConnArgs) (s : NicState) (f : ℕ) (s' : NicState)
    (enough : 17 ≤ fuel) (words : AreWords s.flows.flowht)
    (w : IsAdded fuel conn_hash c s f s') where
  -- the slot that was handed out
  slot_of : Allocates s.flows.flowht (conn_hash c % ht_entries) (slot w.i w.d w.table)
  slot_of =
      subst (Allocates s.flows.flowht (conn_hash c % ht_entries)) w.allocated
        (slot_alloc-Allocates fuel s.flows.flowht (conn_hash c) enough words)

  here : s'.flows.flowht w.i ≡ new_entry w.d f (conn_hash c)
  unfolding conn_write
  here = ap (λ u. u.flows.flowht w.i) w.state ∙ put-same w.table w.i (new_entry w.d f (conn_hash c))

  elsewhere : (y : ℕ) → y ≢ w.i → s'.flows.flowht y ≡ w.table y
  unfolding conn_write
  elsewhere y n =
      ap (λ u. u.flows.flowht y) w.state ∙ put-other w.table w.i (new_entry w.d f (conn_hash c)) y n

  own_flow : s'.flows.flowst f ≡ conn_flow c (s.flows.flowst f)
  unfolding conn_write
  own_flow =
      ap (λ u. u.flows.flowst f) w.state
      ∙ put-same s.flows.flowst f (conn_flow c (s.flows.flowst f))

  other_flow : (id : ℕ) → id ≢ f → s'.flows.flowst id ≡ s.flows.flowst id
  unfolding conn_write
  other_flow id n =
      ap (λ u. u.flows.flowst id) w.state
      ∙ put-other s.flows.flowst f (conn_flow c (s.flows.flowst f)) id n

  new_found :
      (p : Packet) → f < 2 ^ 29 → IsFor c.gre c p.tunnel p → IsFound s'.flows p (conn_hash c) w.d f
  unfolding Allocates
  new_found p small own =
      let r = slot_of in
      let h = conn_hash c in
      let near : away (h % ht_entries) w.i < 4 = omega (arith, r.1, r.2) in
      let entry : bucket s'.flows h w.d ≡ new_entry w.d f h =
        ap (bucket s'.flows h) r.2 ∙ bucket_lem s'.flows h w.i r.0 near ∙ here in
      let wr = written w.d f h r.1 small in
      record {
        valid = ap (λ e. entry_for e h) entry ∙ wr.0;
        here = ap entry_flow entry ∙ wr.1;
        same =
            ap (λ fs. same_tuple fs p) own_flow ∙ for_lem c (s.flows.flowst f) p c.gre p.tunnel own;
      }

  -- an entry that stands at `y` of the new table, near its home
  still_found :
      (p : Packet) (h x y id : ℕ)
      → y < ht_entries
      → away (h % ht_entries) y < 4
      → w.table y ≡ s.flows.flowht x
      → is_taken (s.flows.flowht x) ≡ true
      → id ≢ f
      → entry_for (s.flows.flowht x) h ≡ true
      → entry_flow (s.flows.flowht x) ≡ id
      → same_tuple (s.flows.flowst id) p ≡ true
      → (k : ℕ) × (k < 4) × IsFound s'.flows p h k id
  unfolding Allocates
  still_found p h x y id b near e t n valid at same =
      let apart : y ≢ w.i = λ q.
        ground (arith, sym (ap is_taken (e) ∙ t) ∙ ap (λ z. is_taken (w.table z)) q ∙ slot_of.3) in
      let entry : bucket s'.flows h (away (h % ht_entries) y) ≡ s.flows.flowht x =
        bucket_lem s'.flows h y b near ∙ elsewhere y apart ∙ e in
      (
        away (h % ht_entries) y,
        near,
        record {
          valid = ap (λ q. entry_for q h) entry ∙ valid;
          here = ap entry_flow entry ∙ at;
          same = ap (λ fs. same_tuple fs p) (other_flow id n) ∙ same;
        },
      )

for_taken : (e : Entry) (h : ℕ) → entry_for e h ≡ true → is_taken e ≡ true
unfolding entry_for is_taken
for_taken e h v = ground (arith, v)

-- After `nicif_connection_add` with fuel 17 or more, the fast path finds the new flow for a packet with
-- the connection's addresses and hash, if no other flow has these addresses, the words of the hash
-- table are 32-bit and the flow identifier is below 2^29.
pub add_then_lookup :
    (fuel : ℕ) (conn_hash : ConnArgs → ℕ) (c : ConnArgs) (s : NicState) (f : ℕ) (s' : NicState)
    (flow_hash : Packet → ℕ) (p : Packet)
    → 17 ≤ fuel
    → AreWords s.flows.flowht
    → nicif_connection_add fuel conn_hash c s ≡ added f s'
    → f < 2 ^ 29
    → flow_hash p ≡ conn_hash c
    → IsFor c.gre c p.tunnel p
    → ((id : ℕ) → same_tuple (s.flows.flowst id) p ≡ true → id ≡ f)
    → packet_fss flow_hash s'.flows p ≡ some f
unfolding Allocates
add_then_lookup fuel conn_hash c s f s' flow_hash p enough words e small h own alone =
    let w = add-IsAdded fuel conn_hash c s f s' e in
    let found = new_found fuel conn_hash c s f s' enough words w p small own in
    let near = slot_of fuel conn_hash c s f s' enough words w in
    let some_flow =
      packet_fss_complete flow_hash s'.flows p w.d f near.1
        (subst (λ k. IsFound s'.flows p k w.d f) (sym h) found) in
    elim (Option-cases (packet_fss flow_hash s'.flows p)) [
      | inl n ↦ absurd (some_flow n)
      | inr r ↦
          let hit = packet_fss_sound flow_hash s'.flows p r.0 r.1 in
          r.1
          ∙ ap some (elim (ℕ_discrete r.0 f) [
            | yes y ↦ y
            | no n ↦ alone r.0 (
                ap (λ fs. same_tuple fs p)
                  (sym (other_flow fuel conn_hash c s f s' enough words w r.0 n))
                ∙ hit.2.same)
          ])
    ]

-- `nicif_connection_add` with fuel 17 or more keeps every other flow where the fast path finds it, if
-- the distance that the flow's entry records is its distance from its hash and the words of the hash
-- table are 32-bit.
pub add_keeps_found :
    (fuel : ℕ) (conn_hash : ConnArgs → ℕ) (c : ConnArgs) (s : NicState) (f : ℕ) (s' : NicState)
    (p : Packet) (h j id : ℕ)
    → 17 ≤ fuel
    → AreWords s.flows.flowht
    → nicif_connection_add fuel conn_hash c s ≡ added f s'
    → id ≢ f
    → j < 4
    → IsFound s.flows p h j id
    → entry_dist (bucket s.flows h j) ≡ j
    → (k : ℕ) × (k < 4) × IsFound s'.flows p h k id
unfolding Allocates IsKept bucket
add_keeps_found fuel conn_hash c s f s' p h j id enough words e n b found dist =
    let w = add-IsAdded fuel conn_hash c s f s' e in
    let r = slot_of fuel conn_hash c s f s' enough words w in
    let x = add32 h j % ht_entries in
    let inside : x < ht_entries = omega arith in
    let t = for_taken (s.flows.flowht x) h found.valid in
    let home : away (h % ht_entries) x ≡ j = omega (arith, b) in
    let found_at = still_found fuel conn_hash c s f s' enough words w p h x in
    elim (r.4 x inside t) [
      | inl q ↦
          found_at x id inside (omega (arith, home, b)) q t n found.valid found.here found.same
      | inr q ↦
          found_at q.0 id q.1 (omega (arith, home, b, q.3, dist, q.1)) q.2 t n found.valid
            found.here found.same
    ]
