-- ===== src/Fast/Transmit/Send.antt =====
-- What `fast_flows_qman` does to the flow, and what it sends.
use tas.Base.{
  ℕ, ◌+◌, ◌-◌, ◌≤◌, ◌<◌, ◌^◌, ◌≡◌, refl, Bool, true, false, [], ◌∷◌, min, max, arith, ltb, ◌==◌,
  if◌then◌else◌, Memory, length, get_or, has, Bool-cases, ==_iff, inl, inr,
}
use tas.Fast.Flow.{Flow}
use tas.Fast.Seq.{tcp_txavail}
use tas.Fast.Seq.Ack.{txavail_min}
use tas.Fast.Segment.{
  Segment, Request, segment_payload, segment_flags, flow_tx_segment, flow_tx_segment_gre,
}
use tas.Fast.Buffer.{flow_tx_read}
use tas.Fast.Buffer.Ring.{ring_pos, length-tx_read, tx_read_ring}
use tas.Fast.Transmit.{
  Core, send, tcp_mss, tx_segment, tx_advance, tx_pos_after, qman_send, qman_request, queue_exists,
  qman_forward, fast_flows_qman,
}
use tas.Fast.Transmit.Valid.{IsValid, Returns, KeepsUnacked, KeepsUnacked-refl}

advance-KeepsUnacked :
    (fs : Flow) (len : ℕ) → IsValid fs → len ≤ fs.tx_avail → KeepsUnacked fs (tx_advance fs len)
unfolding tx_advance tx_pos_after
advance-KeepsUnacked fs len v h = ground arith

sent-le :
    (fs : Flow) (len : ℕ)
    → IsValid fs
    → len ≤ min fs.tx_avail (fs.rx_remote_avail - fs.tx_sent)
    → (tx_advance fs len).tx_sent ≤ max fs.tx_sent fs.rx_remote_avail
unfolding tx_advance
sent-le fs len v h = omega arith

send-KeepsUnacked :
    (core : Core) (fs : Flow) (mem : Memory) (ts : ℕ)
    → IsValid fs
    → let r = qman_send core fs mem (min (tcp_txavail fs) tcp_mss) ts in
      KeepsUnacked fs r.flow × (r.flow.tx_sent ≤ max fs.tx_sent fs.rx_remote_avail)
unfolding qman_send
send-KeepsUnacked core fs mem ts v =
    let le = txavail_min fs in
    (
      advance-KeepsUnacked fs (min (tcp_txavail fs) tcp_mss) v (omega arith),
      sent-le fs (min (tcp_txavail fs) tcp_mss) v (omega arith),
    )

-- `fast_flows_qman` on a valid flow whose queue exists, with room in the forwarding ring, returns: the
-- flow is valid, its first unacknowledged byte has the same sequence number and position, sent and
-- unsent bytes together are as many as before, and the sent ones stay within the peer's window, or
-- as many as they were if they were not within it.
pub qman-KeepsUnacked :
    (core : Core) (fs : Flow) (mem : Memory) (vm_id queue ts : ℕ)
    → IsValid fs
    → core.ring_takes ≡ true
    → queue_exists vm_id queue ≡ true
    → Returns
        (fast_flows_qman core fs mem vm_id queue ts)
        (λ r. KeepsUnacked fs r.flow × (r.flow.tx_sent ≤ max fs.tx_sent fs.rx_remote_avail))
unfolding fast_flows_qman qman_forward
qman-KeepsUnacked core fs mem vm_id queue ts v ring ex =
    elim (Bool-cases (core.steering fs.flow_group == core.id)) [
      | inr away ↦ rw (away, ring, ex) (KeepsUnacked-refl fs v, omega arith)
      | inl here ↦ elim (Bool-cases (tcp_txavail fs == 0)) [
        | inl idle ↦ rw (here, idle) (KeepsUnacked-refl fs v, omega arith)
        | inr more ↦ rw (here, more) (send-KeepsUnacked core fs mem ts v)
      ]
    ]

-- The segment with the next `len` bytes of the transmit buffer `mem`; a FIN stands for the last one.
pub record IsNextSegment (fs : Flow) (mem : Memory) (len : ℕ) (g : Segment) : Type 0 where
  pub numbered : g.seqno ≡ fs.tx_next_seq
  pub acknowledges : g.ackno ≡ fs.rx_next_seq
  pub count : length g.payload + (if has g.flags 1 then 1 else 0) ≡ len
  pub bytes :
      (i : ℕ)
      → i < length g.payload
      → get_or g.payload i 0 ≡ mem (fs.tx_base + ring_pos fs.tx_len fs.tx_next_pos i)

read_segment :
    (fs : Flow) (mem : Memory) (pos len : ℕ)
    → pos < fs.tx_len
    → len ≤ fs.tx_len
    → fs.tx_len < 2 ^ 31
    → (length (flow_tx_read fs mem pos len) ≡ len)
      × ((i : ℕ)
          → i < len
          → get_or (flow_tx_read fs mem pos len) i 0 ≡ mem (fs.tx_base + ring_pos fs.tx_len pos i))
read_segment fs mem pos len p h s =
    (length-tx_read fs mem pos len p h s, tx_read_ring fs mem pos len p h s)

segment_payload_lem :
    (fs : Flow) (mem : Memory) (r : Request)
    → IsValid fs
    → r.payload ≤ fs.tx_len
    → r.payload_pos < fs.tx_len
    → (length (segment_payload fs mem r) ≡ r.payload)
      × ((i : ℕ)
          → i < length (segment_payload fs mem r)
          → get_or (segment_payload fs mem r) i 0
            ≡ mem (fs.tx_base + ring_pos fs.tx_len r.payload_pos i))
unfolding segment_payload
segment_payload_lem fs mem r v h p = elim (Bool-cases (ltb 0 r.payload)) [
  | inl some_bytes ↦
      let ring = read_segment fs mem r.payload_pos r.payload p h v.tx_len_small in
      rw some_bytes (ring.0, λ i l. ring.1 i (omega (arith, ring.0)))
  | inr no_bytes ↦ rw no_bytes (ground arith, λ i l. absurd (omega arith))
]

fin_flag : (fs : Flow) (r : Request) → has (segment_flags fs r) 1 ≡ r.fin
unfolding segment_flags
fin_flag fs r = ground arith

tx_segment_fields :
    (gre : Bool) (fs : Flow) (mem : Memory) (r : Request)
    → let g = tx_segment gre fs mem r in
      (g.seqno ≡ r.seq)
      × (g.ackno ≡ r.ack)
      × (g.flags ≡ segment_flags fs r)
      × (g.payload ≡ segment_payload fs mem r)
unfolding tx_segment flow_tx_segment flow_tx_segment_gre
tx_segment_fields true fs mem r = (refl, refl, refl, refl)
tx_segment_fields false fs mem r = (refl, refl, refl, refl)

request_payload :
    (core : Core) (fs : Flow) (len ts : ℕ)
    → 0 < len
    → let r = qman_request core fs (tx_advance fs len) len ts in
      (r.payload + (if r.fin then 1 else 0) ≡ len) × (r.payload_pos ≡ fs.tx_next_pos)
unfolding qman_request
request_payload core fs len ts h = (ground arith, refl)

advance_conf : (fs : Flow) (len : ℕ) → (tx_advance fs len).conf ≡ fs.conf
unfolding tx_advance
advance_conf fs len = refl

send-IsNextSegment :
    (core : Core) (fs : Flow) (mem : Memory) (len ts : ℕ)
    → IsValid fs
    → 0 < len
    → len ≤ fs.tx_avail
    → let fs' = tx_advance fs len in
      IsNextSegment fs mem len (tx_segment core.gre fs' mem (qman_request core fs fs' len ts))
unfolding qman_request tx_advance
send-IsNextSegment core fs mem len ts v p h =
    let fs' = tx_advance fs len in
    let r = qman_request core fs fs' len ts in
    let valid = (advance-KeepsUnacked fs len v h).valid in
    let parts = tx_segment_fields core.gre fs' mem r in
    let size = request_payload core fs len ts p in
    let bytes = segment_payload_lem fs' mem r valid (ground arith) v.tx_pos_in in
    record {
      numbered = parts.0;
      acknowledges = parts.1;
      count = rw (parts.2, parts.3, fin_flag fs' r, bytes.0) size.0;
      bytes = rw parts.3 bytes.1;
    }

advance_moves :
    (fs : Flow) (len : ℕ)
    → IsValid fs
    → len ≤ fs.tx_avail
    → ((tx_advance fs len).tx_sent ≡ fs.tx_sent + len)
      × ((tx_advance fs len).tx_avail + len ≡ fs.tx_avail)
unfolding tx_advance
advance_moves fs len v h = omega arith

-- `fast_flows_qman` on a valid flow of its own core that can send returns with one segment: it has the
-- flow's next sequence number and the number that it expects, and carries the next bytes of the
-- transmit buffer, of which a FIN stands for the last. They are as many as the smaller of what can be
-- sent and 1400, and move from the unsent to the sent ones.
pub qman-IsNextSegment :
    (core : Core) (fs : Flow) (mem : Memory) (vm_id queue ts : ℕ)
    → IsValid fs
    → core.steering fs.flow_group ≡ core.id
    → 0 < tcp_txavail fs
    → let len = min (tcp_txavail fs) tcp_mss in
      Returns (fast_flows_qman core fs mem vm_id queue ts) (λ r.
        (g : Segment) × (r.effects ≡ send g ∷ [])
        × IsNextSegment fs mem len g
        × (r.flow.tx_sent ≡ fs.tx_sent + len)
        × (r.flow.tx_avail + len ≡ fs.tx_avail))
unfolding fast_flows_qman qman_send
qman-IsNextSegment core fs mem vm_id queue ts v here more =
    let len = min (tcp_txavail fs) tcp_mss in
    let fits : len ≤ fs.tx_avail = omega (arith, txavail_min fs) in
    rw (own, can_send)
      (
        tx_segment core.gre (tx_advance fs len) mem
            (qman_request core fs (tx_advance fs len) len ts),
        refl,
        send-IsNextSegment core fs mem len ts v (omega arith) fits,
        (advance_moves fs len v fits).0,
        (advance_moves fs len v fits).1,
      )
  where
    own : (core.steering fs.flow_group == core.id) ≡ true
    own = (==_iff _ _).1 here

    can_send : (tcp_txavail fs == 0) ≡ false
    can_send = ground arith
