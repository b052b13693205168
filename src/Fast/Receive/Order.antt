-- ===== src/Fast/Receive/Order.antt =====
-- The stages around the payload's: trimming, the headers and the FIN.
use tas.Base.{
  ℕ, ◌+◌, ◌≤◌, ◌<◌, ◌^◌, ◌≡◌, true, false, not, ◌&&◌, some, arith, ltb, ◌==◌, add32, sub32, u16,
  has, ==_iff, with_flag, Bool-cases, Option-cases, inl, inr,
}
use tas.Fast.Flow.{Flow, flag_rxfin}
use tas.Fast.Seq.{Cut, tcp_trim_rxbuf}
use tas.Fast.Seq.Trim.{trim_rxbuf_in_order}
use tas.Fast.Segment.{tcp_fin}
use tas.Fast.Buffer.{flow_rx_seq_write}
use tas.Fast.Receive.{
  Packet, Rx, payload, ooo_add, order_stage, trim_to, trim_stage, header_stage, fin_stage,
}
use tas.Fast.Receive.Moved.{Moved, IsShort, set_ooo-Moved, other_locals, IsReady, StageOk}

set_fin-Moved :
    (fs : Flow) (r : Rx) (f : ℕ)
    → Moved fs r
    → r.fin_bump ≡ false
    → Moved fs (record r {
      flow = record (r.flow) { flags = f; rx_next_seq = add32 r.flow.rx_next_seq 1 };
      fin_bump = true;
    })
set_fin-Moved fs r f m fin = record {
  valid = ground (arith, m.valid);
  conf = m.conf;
  next_una = m.next_una;
  next_una_pos = m.next_una_pos;
  tx_bytes = m.tx_bytes;
  rx_bytes = m.rx_bytes;
  rx_pos = m.rx_pos;
  rx_seq = one_more (rw fin at m.rx_seq);
}
  where
    one_more :
        r.flow.rx_next_seq ≡ add32 fs.rx_next_seq (r.rx_bump + 0)
        → add32 r.flow.rx_next_seq 1 ≡ add32 fs.rx_next_seq (r.rx_bump + 1)
    one_more e = omega arith

pub fin-Moved :
    (fs : Flow) (p : Packet) (orig_payload : ℕ) (r : Rx)
    → Moved fs r × (r.fin_bump ≡ false)
    → StageOk (Moved fs) (Moved fs) (fin_stage p orig_payload r)
unfolding fin_stage
fin-Moved fs p orig_payload r (m, fin) =
    elim (Bool-cases (
      has p.flags tcp_fin
      && not (has r.flow.flags flag_rxfin)
      && (r.flow.rx_next_seq == add32 p.seqno orig_payload && r.flow.rx_ooo_len == 0))) [
        | inr n ↦ rw n m
        | inl y ↦ rw y (
            other_locals fs _ r.mem r.payload_bytes r.payload_off r.seq true
              (set_fin-Moved fs r (with_flag r.flow.flags flag_rxfin) m fin))
      ]

set_header-Moved :
    (fs : Flow) (r : Rx) (ts est wnd : ℕ)
    → Moved fs r
    → Moved fs (record r {
      flow = record (r.flow) { tx_next_ts = ts; rtt_est = est; rx_remote_avail = wnd };
    })
set_header-Moved fs r ts est wnd m = record {
  valid = ground (arith, m.valid);
  conf = m.conf;
  next_una = m.next_una;
  next_una_pos = m.next_una_pos;
  tx_bytes = m.tx_bytes;
  rx_bytes = m.rx_bytes;
  rx_pos = m.rx_pos;
  rx_seq = m.rx_seq;
}

pub header-IsReady :
    (fs : Flow) (p : Packet) (ts : ℕ) (r : Rx)
    → IsReady fs r
    → StageOk (Moved fs) (IsReady fs) (header_stage p ts r)
unfolding header_stage
header-IsReady fs p ts r d =
    elim (Bool-cases (has r.flow.flags flag_rxfin && ltb 0 r.payload_bytes)) [
      | inl y ↦ rw y (set_header-Moved fs r p.ts_val _ p.wnd d.moved)
      | inr n ↦ rw n (record {
        moved = set_header-Moved fs r p.ts_val _ p.wnd d.moved;
        no_bump = d.no_bump;
        no_fin = d.no_fin;
        fits = d.fits;
        short = record { start = d.short.start; len = d.short.len };
      })
    ]

-- What the stage of the acknowledgement leaves: a packet that is not cut yet.
pub record IsFresh (fs : Flow) (r : Rx) : Type 0 where
  pub moved : Moved fs r
  pub no_bump : r.rx_bump ≡ 0
  pub no_fin : r.fin_bump ≡ false
  pub seq_word : r.seq < 2 ^ 32
  pub size : r.payload_bytes < 2 ^ 16
  pub short : IsShort r.flow

ooo-Moved : (fs : Flow) (p : Packet) (r : Rx) → Moved fs r → Moved fs (ooo_add p r)
unfolding ooo_add
ooo-Moved fs p r m = elim (Bool-cases (r.flow.rx_ooo_len == 0)) [
  | inl a ↦ rw a (with_mem _ _)
  | inr a ↦ elim (Bool-cases (add32 r.seq r.payload_bytes == r.flow.rx_ooo_start)) [
    | inl b ↦ rw (a, b) (with_mem _ _)
    | inr b ↦ elim (Bool-cases (add32 r.flow.rx_ooo_start r.flow.rx_ooo_len == r.seq)) [
      | inl c ↦ rw (a, b, c) (with_mem _ _)
      | inr c ↦ rw (a, b, c) m
    ]
  ]
]
  where
    with_mem :
        (s l : ℕ)
        → Moved fs (record r {
          flow = record (r.flow) { rx_ooo_start = s; rx_ooo_len = l };
          mem = flow_rx_seq_write r.flow r.mem r.seq (u16 r.payload_bytes) (payload p r);
        })
    with_mem s l =
        other_locals fs _ _ r.payload_bytes r.payload_off r.seq r.trigger_ack
          (set_ooo-Moved fs r s l m)

-- the packet after a cut
abbrev after_cut : Rx → Cut → Rx
after_cut r c = record r {
  payload_bytes = sub32 r.payload_bytes (c.start + c.end);
  payload_off = add32 r.payload_off c.start;
  seq = add32 r.seq c.start;
}

order-IsReady :
    (fs : Flow) (p : Packet) (r : Rx) (c : Cut)
    → IsFresh fs r
    → tcp_trim_rxbuf r.flow r.seq (u16 r.payload_bytes) ≡ some c
    → StageOk (Moved fs) (IsReady fs) (order_stage p (after_cut r c))
unfolding order_stage
order-IsReady fs p r c d e = elim (Bool-cases (add32 r.seq c.start == r.flow.rx_next_seq)) [
  | inl o ↦ rw o (record {
    moved = moved;
    no_bump = d.no_bump;
    no_fin = d.no_fin;
    fits = fits ((==_iff _ _).0 o);
    short = d.short;
  })
  | inr o ↦ elim (Bool-cases (sub32 r.payload_bytes (c.start + c.end) == 0)) [
    | inl z ↦ rw (o, z) (other_locals fs r _ _ _ _ true d.moved)
    | inr z ↦ rw (o, z) (ooo-Moved fs p _ (other_locals fs r _ _ _ _ true d.moved))
  ]
]
  where
    moved : Moved fs (after_cut r c)
    moved = other_locals fs r r.mem _ _ _ r.trigger_ack d.moved

    fits :
        add32 r.seq c.start ≡ r.flow.rx_next_seq
        → sub32 r.payload_bytes (c.start + c.end) ≤ r.flow.rx_avail
    fits o =
        let v = d.moved.valid in
        let l : u16 r.payload_bytes ≡ r.payload_bytes = omega (arith, d.size) in
        let cut =
          trim_rxbuf_in_order r.flow r.seq r.payload_bytes d.seq_word v.rx_seq_word d.size
            (omega (arith, v.rx_fits, v.rx_len_small)) c (rw l at e) o in
        omega (arith, cut.0, cut.1, d.size)

pub trim-IsReady :
    (fs : Flow) (p : Packet) (r : Rx)
    → IsFresh fs r
    → StageOk (Moved fs) (IsReady fs) (trim_stage p r)
unfolding trim_stage trim_to
trim-IsReady fs p r d = elim (Option-cases (tcp_trim_rxbuf r.flow r.seq (u16 r.payload_bytes))) [
  | inl e ↦
      rw (e, trim_to) (other_locals fs r r.mem r.payload_bytes r.payload_off r.seq true d.moved)
  | inr (c, e) ↦ rw (e, trim_to) (order-IsReady fs p r c d e)
]
