-- ===== src/Fast/Classify/Lookup.antt =====
-- The flow that the lookup finds.
use tas.Base.{
  ℕ, zero, suc, ◌+◌, ◌≤◌, ◌<◌, ◌≡◌, ◌≢◌, arith, true, none, some, Bool-cases, inl, inr, subst,
  dec_le,
}
use tas.Fast.Receive.{Packet}
use tas.Fast.Classify.{FlowTable, same_tuple, entry_flow, entry_for, bucket, fss_loop, packet_fss}

-- Round `j` looks at a valid entry for the hash `h`, whose flow `id` has the packet's addresses.
pub record IsFound (t : FlowTable) (p : Packet) (h j id : ℕ) : Type 0 where
  pub valid : entry_for (bucket t h j) h ≡ true
  pub here : entry_flow (bucket t h j) ≡ id
  pub same : same_tuple (t.flowst id) p ≡ true

later :
    (t : FlowTable) (p : Packet) (h rounds j id : ℕ)
    → (k : ℕ) × (k < j + 1 + rounds) × IsFound t p h k id
    → (k : ℕ) × (k < j + suc rounds) × IsFound t p h k id
later t p h rounds j id w = (w.0, omega (arith, w.1), w.2)

some_inj : {a b : ℕ} → some a ≡ some b → a ≡ b
some_inj e = ground (arith, e)

loop_sound :
    (t : FlowTable) (p : Packet) (h rounds j id : ℕ)
    → fss_loop t p h rounds j ≡ some id
    → (k : ℕ) × (k < j + rounds) × IsFound t p h k id
unfolding fss_loop
loop_sound t p h zero j id e = absurd (ground (arith, e))
loop_sound t p h (suc rounds) j id e =
    let next = loop_sound t p h rounds (j + 1) id in
    elim (Bool-cases (entry_for (bucket t h j) h)) [
      | inr n ↦ later t p h rounds j id (next (rw n at e))
      | inl y ↦ elim (Bool-cases (same_tuple (t.flowst (entry_flow (bucket t h j))) p)) [
        | inr m ↦ later t p h rounds j id (next (rw (y, m) at e))
        | inl m ↦
            let here : entry_flow (bucket t h j) ≡ id = some_inj (rw (y, m) at e) in
            (j, omega arith, record { valid = y; here = here; same = rw here at m })
      ]
    ]

-- a round that finds the flow
hit :
    (t : FlowTable) (p : Packet) (h rounds j id : ℕ)
    → IsFound t p h j id
    → fss_loop t p h (suc rounds) j ≢ none
unfolding fss_loop
hit t p h rounds j id f =
    let same : same_tuple (t.flowst (entry_flow (bucket t h j))) p ≡ true = rw f.here f.same in
    rw (f.valid, same) (λ e. absurd (ground (arith, e)))

-- any round, if the later ones find a flow
miss :
    (t : FlowTable) (p : Packet) (h rounds j : ℕ)
    → fss_loop t p h rounds (j + 1) ≢ none
    → fss_loop t p h (suc rounds) j ≢ none
unfolding fss_loop
miss t p h rounds j r = elim (Bool-cases (entry_for (bucket t h j) h)) [
  | inr n ↦ rw n r
  | inl y ↦ elim (Bool-cases (same_tuple (t.flowst (entry_flow (bucket t h j))) p)) [
    | inl m ↦ rw (y, m) (λ e. absurd (ground (arith, e)))
    | inr m ↦ rw (y, m) r
  ]
]

loop_complete :
    (t : FlowTable) (p : Packet) (h rounds j k id : ℕ)
    → j ≤ k
    → k < j + rounds
    → IsFound t p h k id
    → fss_loop t p h rounds j ≢ none
unfolding fss_loop
loop_complete t p h zero j k id a b f = absurd (omega arith)
loop_complete t p h (suc rounds) j k id a b f = elim (dec_le k j) [
  | yes l ↦ hit t p h rounds j id (subst (λ i. IsFound t p h i id) (omega arith) f)
  | no l ↦
      miss t p h rounds j (loop_complete t p h rounds (j + 1) k id (omega arith) (omega arith) f)
]

-- A flow that the lookup returns stands in a valid entry with the packet's hash, in one of the 4 buckets
-- from there on, and has the packet's addresses.
pub packet_fss_sound :
    (flow_hash : Packet → ℕ) (t : FlowTable) (p : Packet) (id : ℕ)
    → packet_fss flow_hash t p ≡ some id
    → (j : ℕ) × (j < 4) × IsFound t p (flow_hash p) j id
unfolding packet_fss
packet_fss_sound flow_hash t p id e = loop_sound t p (flow_hash p) 4 0 id e

-- If a flow with the packet's addresses stands in a valid entry with the packet's hash, in one of the 4
-- buckets from there on, the lookup finds a flow.
pub packet_fss_complete :
    (flow_hash : Packet → ℕ) (t : FlowTable) (p : Packet) (j id : ℕ)
    → j < 4
    → IsFound t p (flow_hash p) j id
    → packet_fss flow_hash t p ≢ none
unfolding packet_fss
packet_fss_complete flow_hash t p j id h f =
    loop_complete t p (flow_hash p) 4 0 j id (omega arith) (omega arith) f
