-- ===== src/Fast/Packet/Paths.antt =====
-- What a handled packet does to the flow, against what the application is told of it.
use tas.Base.{
  ℕ, ◌+◌, ◌≡◌, refl, ap, arith, Bool, true, false, not, ◌||◌, List, [], ◌∷◌, ◌++◌, none, some, ltb,
  ◌==◌, ==_iff, if◌then◌else◌, Memory, u16, add32, Bool-cases, inl, inr, has,
}
use tas.Fast.Flow.{Flow, flag_slowpath}
use tas.Fast.Buffer.Ring.{ring_pos}
use tas.Fast.Seq.{tcp_txavail}
use tas.Fast.Segment.{Tunnel}
use tas.Fast.Step.{
  Effect, QueueSet, forward, notify, set_queue, charge, update_app, send, Outcome, abort, returns,
  Core,
}
use tas.Fast.Transmit.{queue_exists}
use tas.Fast.Transmit.Valid.{IsValid, una_seq, una_pos, Returns, update_queue_lem}
use tas.Fast.Receive.{Packet, Rx, odd_flags}
use tas.Fast.Receive.Moved.{Moved, IsShort}
use tas.Fast.Receive.Keeps.{IsWhole, IsStart, stages-Moved}
use tas.Fast.Packet.{
  RxResult, app_update, wake_queue, rx_finish, rx_start, rx_slowpath, rx_locked, charged, rx_packet,
  fast_flows_packet, fast_flows_packet_gre, flow_tx_ack,
}

-- The totals of the notifications: bytes received, bytes acknowledged, and the end of the stream.
abbrev pub rx_told : List Effect → ℕ
rx_told [] = 0
rx_told (update_app u ∷ es) = u.rx_bump + rx_told es
rx_told (forward c ∷ es) = rx_told es
rx_told (notify c ∷ es) = rx_told es
rx_told (set_queue q ∷ es) = rx_told es
rx_told (charge v n ∷ es) = rx_told es
rx_told (send s ∷ es) = rx_told es

abbrev pub tx_told : List Effect → ℕ
tx_told [] = 0
tx_told (update_app u ∷ es) = u.tx_bump + tx_told es
tx_told (forward c ∷ es) = tx_told es
tx_told (notify c ∷ es) = tx_told es
tx_told (set_queue q ∷ es) = tx_told es
tx_told (charge v n ∷ es) = tx_told es
tx_told (send s ∷ es) = tx_told es

abbrev pub end_told : List Effect → Bool
end_told [] = false
end_told (update_app u ∷ es) = u.rx_done || end_told es
end_told (forward c ∷ es) = end_told es
end_told (notify c ∷ es) = end_told es
end_told (set_queue q ∷ es) = end_told es
end_told (charge v n ∷ es) = end_told es
end_told (send s ∷ es) = end_told es

-- The flow is valid, and it has moved by exactly what the notifications `es` say.
pub record Agrees (fs fs' : Flow) (es : List Effect) : Type 0 where
  pub valid : IsValid fs'
  pub conf : fs'.conf ≡ fs.conf
  pub una : una_seq fs' ≡ add32 (una_seq fs) (tx_told es)
  pub una_at : una_pos fs' ≡ ring_pos fs.tx_len (una_pos fs) (tx_told es)
  pub tx_bytes : fs'.tx_avail + fs'.tx_sent + tx_told es ≡ fs.tx_avail + fs.tx_sent
  pub rx_bytes : fs'.rx_avail + rx_told es ≡ fs.rx_avail
  pub rx_pos : fs'.rx_next_pos ≡ ring_pos fs.rx_len fs.rx_next_pos (rx_told es)
  pub rx_seq : fs'.rx_next_seq ≡ add32 fs.rx_next_seq (rx_told es + (if end_told es then 1 else 0))

-- Notifications that tell of the bumps of `r`.
record Tells (r : Rx) (es : List Effect) : Type 0 where
  pub rx : rx_told es ≡ r.rx_bump
  pub tx : tx_told es ≡ r.tx_bump
  pub fin : end_told es ≡ r.fin_bump

agree : (fs : Flow) (r : Rx) (es : List Effect) → Moved fs r → Tells r es → Agrees fs r.flow es
agree fs r es m t = record {
  valid = m.valid;
  conf = m.conf;
  una = rw t.tx m.next_una;
  una_at = rw t.tx m.next_una_pos;
  tx_bytes = rw t.tx m.tx_bytes;
  rx_bytes = rw t.rx m.rx_bytes;
  rx_pos = rw t.rx m.rx_pos;
  rx_seq = rw (t.rx, t.fin) m.rx_seq;
}

-- effects that tell the application nothing
record Silent (es : List Effect) : Type 0 where
  pub rx : rx_told es ≡ 0
  pub tx : tx_told es ≡ 0
  pub fin : end_told es ≡ false

app_update-Tells :
    (r : Rx) (pos : ℕ) (es : List Effect) → Silent es → Tells r (app_update r pos ++ es)
unfolding app_update
app_update-Tells r pos es s =
    elim (Bool-cases (not (r.rx_bump == 0) || (not (r.tx_bump == 0) || r.fin_bump))) [
      | inl h ↦ rw h (record {
        rx = omega (arith, s.rx);
        tx = omega (arith, s.tx);
        fin = rw s.fin (ground arith);
      })
      | inr h ↦ rw h (record {
        rx = ground (arith, s.rx, h, ==_iff r.rx_bump 0);
        tx = ground (arith, s.tx, h, ==_iff r.tx_bump 0);
        fin = ground (arith, s.fin, h);
      })
    ]

stay : (fs : Flow) (flags : ℕ) → IsValid fs → Agrees fs (record fs { flags = flags }) []
stay fs flags v = record {
  valid = ground (arith, v);
  conf = refl;
  una = omega arith;
  una_at = ground (arith, v);
  tx_bytes = omega arith;
  rx_bytes = omega arith;
  rx_pos = ground (arith, v);
  rx_seq = omega (arith, v.rx_seq_word);
}

charge_agree :
    (fs fs' : Flow) (vm n : ℕ) (es : List Effect)
    → Agrees fs fs' es
    → Agrees fs fs' (charge vm n ∷ es)
charge_agree fs fs' vm n es a = record {
  valid = a.valid;
  conf = a.conf;
  una = a.una;
  una_at = a.una_at;
  tx_bytes = a.tx_bytes;
  rx_bytes = a.rx_bytes;
  rx_pos = a.rx_pos;
  rx_seq = a.rx_seq;
}

acks-Silent :
    (b : Bool) (core : Core) (fs : Flow) (p : Packet) (ts : ℕ)
    → Silent (if b then send (flow_tx_ack core fs p ts) ∷ [] else [])
acks-Silent true core fs p ts = record { rx = refl; tx = refl; fin = refl }
acks-Silent false core fs p ts = record { rx = refl; tx = refl; fin = refl }

queue-Silent : (q : QueueSet) (es : List Effect) → Silent es → Silent (set_queue q ∷ es)
queue-Silent q es s = record { rx = s.rx; tx = s.tx; fin = s.fin }

IsStart-IsStart : (p : Packet) (fs : Flow) (mem : Memory) → IsStart p (rx_start p fs mem)
unfolding rx_start
IsStart-IsStart p fs mem = record {
  seq = refl;
  size = refl;
  no_rx = refl;
  no_tx = refl;
  no_fin = refl;
}

-- The end of the handler, on a flow that has moved.
finish-Agrees :
    (core : Core) (p : Packet) (index ts old pos : ℕ) (fs : Flow) (r : Rx)
    → Moved fs r
    → queue_exists fs.vm_id (u16 index) ≡ true
    → Returns (rx_finish core p index ts old pos r) (λ res. Agrees fs res.flow res.effects)
unfolding rx_finish wake_queue
finish-Agrees core p index ts old pos fs r m q =
    let same : r.flow.vm_id ≡ fs.vm_id = ap (λ k. k.vm_id) m.conf in
    elim (Bool-cases (ltb old (tcp_txavail r.flow))) [
      | inl h ↦
          rw (h, update_queue_lem r.flow (u16 index) (tcp_txavail r.flow) (rw same q))
            (agree fs r _ m (
              app_update-Tells r pos _
                (queue-Silent _ _ (acks-Silent r.trigger_ack core r.flow p ts))))
      | inr h ↦
          rw h
            (agree fs r _ m (app_update-Tells r pos _ (acks-Silent r.trigger_ack core r.flow p ts)))
    ]

locked-Agrees :
    (core : Core) (p : Packet) (index ts : ℕ) (fs : Flow) (mem : Memory)
    → IsValid fs
    → IsShort fs
    → IsWhole p
    → queue_exists fs.vm_id (u16 index) ≡ true
    → Returns (rx_locked core p index ts fs mem) (λ res. Agrees fs res.flow res.effects)
unfolding rx_locked rx_slowpath rx_start
locked-Agrees core p index ts fs mem v s w q = elim (Bool-cases (has fs.flags flag_slowpath)) [
  | inl h ↦ rw h (stay fs _ v)
  | inr h ↦ elim (Bool-cases (odd_flags p.flags)) [
    | inl k ↦ elim (Bool-cases (has p.flags 0x02)) [
      | inl l ↦ rw (h, k, l) (stay fs fs.flags v)
      | inr l ↦ rw (h, k, l) (stay fs _ v)
    ]
    | inr k ↦
        rw (h, k)
          (finish-Agrees core p index ts (tcp_txavail fs) fs.rx_next_pos fs _
            (stages-Moved p ts (rx_start p fs mem) v s w (IsStart-IsStart p fs mem)) q)
  ]
]

charged-Returns :
    (fs : Flow) (vm n : ℕ) (o : Outcome RxResult)
    → Returns o (λ res. Agrees fs res.flow res.effects)
    → Returns (charged (charge vm n ∷ []) o) (λ res. Agrees fs res.flow res.effects)
charged-Returns fs vm n abort h = h
charged-Returns fs vm n (returns res) h = charge_agree fs res.flow vm n res.effects h

uncharged-Returns :
    (fs : Flow) (o : Outcome RxResult)
    → Returns o (λ res. Agrees fs res.flow res.effects)
    → Returns (charged [] o) (λ res. Agrees fs res.flow res.effects)
uncharged-Returns fs abort h = h
uncharged-Returns fs (returns res) h = h

rx_packet-Agrees :
    (core : Core) (p : Packet) (index ts : ℕ) (spend left : Bool) (fs : Flow) (mem : Memory)
    → IsValid fs
    → IsShort fs
    → IsWhole p
    → queue_exists fs.vm_id (u16 index) ≡ true
    → Returns (rx_packet core p index ts spend left fs mem) (λ res. Agrees fs res.flow res.effects)
unfolding rx_packet
rx_packet-Agrees core p index ts true true fs mem v s w q =
    charged-Returns fs _ _ _ (locked-Agrees core p index ts fs mem v s w q)
rx_packet-Agrees core p index ts true false fs mem v s w q =
    charge_agree fs fs _ _ [] (stay fs fs.flags v)
rx_packet-Agrees core p index ts false left fs mem v s w q =
    uncharged-Returns fs _ (locked-Agrees core p index ts fs mem v s w q)

-- `fast_flows_packet` on a valid flow whose queue exists and whose out-of-order interval is a 16-bit
-- length, with a packet whose numbers are words and whose length counts its headers: it returns, on
-- every path. The flow is then valid, and it has moved by exactly what the application is told: the
-- acknowledged bytes are freed from the transmit buffer and move the first unacknowledged byte, the
-- received bytes come off the receive window and move its position, and the next sequence number
-- counts them and the end of the stream.
pub packet-Agrees :
    (core : Core) (p : Packet) (index ts : ℕ) (spend left : Bool) (fs : Flow) (mem : Memory)
    → IsValid fs
    → IsShort fs
    → IsWhole (record p { tunnel = none })
    → queue_exists fs.vm_id (u16 index) ≡ true
    → Returns
        (fast_flows_packet core p index ts spend left fs mem)
        (λ res. Agrees fs res.flow res.effects)
unfolding fast_flows_packet
packet-Agrees core p = rx_packet-Agrees core (record p { tunnel = none })

-- `fast_flows_packet_gre` on a valid flow whose queue exists and whose out-of-order interval is a
-- 16-bit length, with a packet in the tunnel `t` whose numbers are words and whose inner length counts
-- its headers: it returns, on every path. The flow is then valid, and it has moved by exactly what the
-- application is told, as for `fast_flows_packet`.
pub packet_gre-Agrees :
    (t : Tunnel) (core : Core) (p : Packet) (index ts : ℕ) (spend left : Bool) (fs : Flow)
    (mem : Memory)
    → IsValid fs
    → IsShort fs
    → IsWhole (record p { tunnel = some t })
    → queue_exists fs.vm_id (u16 index) ≡ true
    → Returns
        (fast_flows_packet_gre t core p index ts spend left fs mem)
        (λ res. Agrees fs res.flow res.effects)
unfolding fast_flows_packet_gre
packet_gre-Agrees t core p = rx_packet-Agrees core (record p { tunnel = some t })
