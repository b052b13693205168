-- ===== src/Fast/Receive/Acks.antt =====
-- What the acknowledgement stage does.
use tas.Base.{
  ℕ, ◌+◌, ◌<◌, ◌^◌, ◌≡◌, refl, sym, subst, arith, leb, ◌==◌, add32, u16, has, Bool-cases,
  Option-cases, inl, inr,
}
use tas.Fast.Flow.{Flow}
use tas.Fast.Seq.{tcp_valid_rxack}
use tas.Fast.Segment.{tcp_ack}
use tas.Fast.Transmit.Valid.{IsValid}
use tas.Fast.Receive.{Packet, Rx, stage_rx, ack_dup, ack_valid, ack_stage}
use tas.Fast.Receive.Acked.{
  Acknowledges, stats-Acknowledges, dup_count, rewound, valid_bump, none_acked, counted,
}

-- The variables of the handler other than the flow, the bump and the flags for the answer.
pub record SameLocals (r r' : Rx) : Type 0 where
  pub mem : r'.mem ≡ r.mem
  pub payload_bytes : r'.payload_bytes ≡ r.payload_bytes
  pub payload_off : r'.payload_off ≡ r.payload_off
  pub seq : r'.seq ≡ r.seq
  pub rx_bump : r'.rx_bump ≡ r.rx_bump
  pub fin_bump : r'.fin_bump ≡ r.fin_bump

pub record AckDone (fs : Flow) (r r' : Rx) : Type 0 where
  pub flow : Acknowledges fs r'.flow r'.tx_bump
  pub locals : SameLocals r r'

locals_refl : (r : Rx) (f : Flow) (t : ℕ) → SameLocals r (record r { flow = f; tx_bump = t })
locals_refl r f t = record {
  mem = refl;
  payload_bytes = refl;
  payload_off = refl;
  seq = refl;
  rx_bump = refl;
  fin_bump = refl;
}

dup-AckDone :
    (fs f : Flow) (r : Rx) (orig_payload bump : ℕ)
    → Acknowledges fs f bump
    → AckDone fs r (stage_rx (ack_dup (record r { flow = f; tx_bump = bump }) orig_payload bump))
unfolding ack_dup
dup-AckDone fs f r orig_payload bump a = elim (Bool-cases (bump == 0)) [
  | inr e ↦ rw e (record { flow = dup_count fs f bump 0 a; locals = locals_refl r _ bump })
  | inl e ↦ elim (Bool-cases (orig_payload == 0)) [
    | inr o ↦ rw (e, o) (record { flow = a; locals = locals_refl r f bump })
    | inl o ↦ elim (Bool-cases (leb 3 (add32 f.rx_dupack_cnt 1))) [
      | inl t ↦
          rw (e, o, t)
            (record {
              flow = rewound fs _ bump (dup_count fs f bump (add32 f.rx_dupack_cnt 1) a);
              locals = locals_refl r _ bump;
            })
      | inr t ↦
          rw (e, o, t)
            (record {
              flow = dup_count fs f bump (add32 f.rx_dupack_cnt 1) a;
              locals = locals_refl r _ bump;
            })
    ]
  ]
]

unacked-AckDone :
    (fs f : Flow) (r : Rx)
    → r.tx_bump ≡ 0
    → Acknowledges fs f 0
    → AckDone fs r (record r { flow = f })
unacked-AckDone fs f r z a = record {
  flow = subst (Acknowledges fs f) (sym z) a;
  locals = locals_refl r f r.tx_bump;
}

-- `ack_stage` on a valid flow, with an acknowledgement number below 2^32 and no bump yet: on every path
-- through it, the bytes up to the first unacknowledged one move by as many bytes as it reports, the rest
-- of the transmit buffer, the receive side and the other variables stay as they were, and the flow stays
-- valid.
pub ack_stage-AckDone :
    (p : Packet) (orig_payload : ℕ) (r : Rx)
    → IsValid r.flow
    → p.ackno < 2 ^ 32
    → r.tx_bump ≡ 0
    → AckDone r.flow r (stage_rx (ack_stage p orig_payload r))
unfolding ack_stage ack_valid
ack_stage-AckDone p orig_payload r v a z = elim (Bool-cases (has p.flags tcp_ack)) [
  | inr n ↦ rw n (unacked-AckDone r.flow r.flow r z (none_acked r.flow v))
  | inl y ↦ elim (Option-cases (tcp_valid_rxack fs p.ackno)) [
    | inl n ↦
        rw (y, n, ack_valid)
          (unacked-AckDone r.flow fs r z (counted r.flow fs 0 k (none_acked fs valid)))
    | inr (bump, e) ↦
        rw (y, e, ack_valid)
          (dup-AckDone r.flow _ r orig_payload bump (
            counted r.flow _ bump k
              (stats-Acknowledges fs p bump valid (valid_bump fs p.ackno bump valid a e))))
  ]
]
  where
    k : ℕ
    k = u16 (r.flow.cnt_rx_acks + 1)

    fs : Flow
    fs = record (r.flow) { cnt_rx_acks = k }

    valid : IsValid fs
    valid = ground arith
