-- ===== src/Fast/Receive/Acked.antt =====
-- A flow of which more bytes are acknowledged.
use tas.Base.{
  ℕ, ◌+◌, ◌-◌, ◌≤◌, ◌<◌, ◌^◌, ◌≡◌, refl, subst, ◌∙◌, some, arith, leb, add32, sub32, Bool-cases,
  inl, inr,
}
use tas.Fast.Flow.{Flow}
use tas.Fast.Seq.{tcp_valid_rxack}
use tas.Fast.Seq.Ack.{valid_rxack_iff}
use tas.Fast.Buffer.Ring.{ring_pos}
use tas.Fast.Transmit.{tx_pos_after, flow_reset_retransmit}
use tas.Fast.Transmit.Valid.{IsValid, una_seq, una_pos}
use tas.Fast.Transmit.Rewind.{reset-IsRewound}
use tas.Fast.Receive.{Packet, ack_bytes, ack_stats}

-- The receive side of a flow is as it was.
pub record SameRx (fs fs' : Flow) : Type 0 where
  pub conf : fs'.conf ≡ fs.conf
  pub flags : fs'.flags ≡ fs.flags
  pub avail : fs'.rx_avail ≡ fs.rx_avail
  pub pos : fs'.rx_next_pos ≡ fs.rx_next_pos
  pub seq : fs'.rx_next_seq ≡ fs.rx_next_seq
  pub ooo_start : fs'.rx_ooo_start ≡ fs.rx_ooo_start
  pub ooo_len : fs'.rx_ooo_len ≡ fs.rx_ooo_len

-- `bump` bytes more are acknowledged, and the rest of the transmit buffer is as it was.
pub record Acknowledges (fs fs' : Flow) (bump : ℕ) : Type 0 where
  pub valid : IsValid fs'
  pub next_una : una_seq fs' ≡ add32 (una_seq fs) bump
  pub next_pos : una_pos fs' ≡ ring_pos fs.tx_len (una_pos fs) bump
  pub bytes : fs'.tx_avail + fs'.tx_sent + bump ≡ fs.tx_avail + fs.tx_sent
  pub rx : SameRx fs fs'

pub sent-Acknowledges :
    (fs : Flow) (bump : ℕ)
    → IsValid fs
    → bump ≤ fs.tx_sent
    → Acknowledges fs (record fs { tx_sent = fs.tx_sent - bump }) bump
sent-Acknowledges fs bump v h = record {
  valid = ground arith;
  next_una = omega arith;
  next_pos = ground arith;
  bytes = omega arith;
  rx = ground arith;
}

pub pos_after_lem :
    (fs : Flow) (n : ℕ)
    → IsValid fs
    → n ≤ fs.tx_len
    → tx_pos_after fs n ≡ ring_pos fs.tx_len fs.tx_next_pos n
unfolding tx_pos_after
pos_after_lem fs n v h = ground arith

-- an acknowledgement of `ahead` bytes more than were sent
pub future-Acknowledges :
    (fs : Flow) (ahead : ℕ)
    → IsValid fs
    → ahead ≤ fs.tx_avail
    → Acknowledges fs
        (record fs {
          tx_next_seq = add32 fs.tx_next_seq ahead;
          tx_next_pos = ring_pos fs.tx_len fs.tx_next_pos ahead;
          tx_avail = sub32 fs.tx_avail ahead;
          tx_sent = 0;
        })
        (fs.tx_sent + ahead)
future-Acknowledges fs ahead v h = record {
  valid = ground arith;
  next_una = omega arith;
  next_pos = ground arith;
  bytes = omega arith;
  rx = ground arith;
}

pub bytes-Acknowledges :
    (fs : Flow) (bump : ℕ)
    → IsValid fs
    → bump ≤ fs.tx_sent + fs.tx_avail
    → Acknowledges fs (ack_bytes fs bump) bump
unfolding ack_bytes
bytes-Acknowledges fs bump v h = elim (Bool-cases (leb bump fs.tx_sent)) [
  | inl e ↦ rw e (sent-Acknowledges fs bump v (ground arith))
  | inr e ↦
      let total : fs.tx_sent + (bump - fs.tx_sent) ≡ bump = ground arith in
      rw (e, pos_after_lem fs (bump - fs.tx_sent) v (ground arith))
        (subst (Acknowledges fs _) total
          (future-Acknowledges fs (bump - fs.tx_sent) v (omega arith)))
]

pub stats-Acknowledges :
    (fs : Flow) (p : Packet) (bump : ℕ)
    → IsValid fs
    → bump ≤ fs.tx_sent + fs.tx_avail
    → Acknowledges fs (ack_bytes (ack_stats fs p bump) bump) bump
unfolding ack_stats
stats-Acknowledges fs p bump v h =
    let a = bytes-Acknowledges (ack_stats fs p bump) bump (ground arith) h in
    record {
      valid = a.valid;
      next_una = a.next_una;
      next_pos = a.next_pos;
      bytes = a.bytes;
      rx = record {
        conf = a.rx.conf;
        flags = a.rx.flags;
        avail = a.rx.avail;
        pos = a.rx.pos;
        seq = a.rx.seq;
        ooo_start = a.rx.ooo_start;
        ooo_len = a.rx.ooo_len;
      };
    }

-- a change of the duplicate count is none of the above
pub dup_count :
    (fs f : Flow) (bump k : ℕ)
    → Acknowledges fs f bump
    → Acknowledges fs (record f { rx_dupack_cnt = k }) bump
dup_count fs f bump k a = record {
  valid = ground arith;
  next_una = a.next_una;
  next_pos = a.next_pos;
  bytes = a.bytes;
  rx = record {
    conf = a.rx.conf;
    flags = a.rx.flags;
    avail = a.rx.avail;
    pos = a.rx.pos;
    seq = a.rx.seq;
    ooo_start = a.rx.ooo_start;
    ooo_len = a.rx.ooo_len;
  };
}

pub reset-SameRx : (fs : Flow) → SameRx fs (flow_reset_retransmit fs)
unfolding flow_reset_retransmit
reset-SameRx fs = record {
  conf = refl;
  flags = refl;
  avail = refl;
  pos = refl;
  seq = refl;
  ooo_start = refl;
  ooo_len = refl;
}

pub SameRx-trans : {f g h : Flow} → SameRx f g → SameRx g h → SameRx f h
SameRx-trans a b = record {
  conf = b.conf ∙ a.conf;
  flags = b.flags ∙ a.flags;
  avail = b.avail ∙ a.avail;
  pos = b.pos ∙ a.pos;
  seq = b.seq ∙ a.seq;
  ooo_start = b.ooo_start ∙ a.ooo_start;
  ooo_len = b.ooo_len ∙ a.ooo_len;
}

pub rewound :
    (fs f : Flow) (bump : ℕ)
    → Acknowledges fs f bump
    → Acknowledges fs (flow_reset_retransmit f) bump
rewound fs f bump a =
    let w = (reset-IsRewound f a.valid).keeps in
    record {
      valid = w.valid;
      next_una = w.same_seq ∙ a.next_una;
      next_pos = w.same_pos ∙ a.next_pos;
      bytes = omega (arith, w.same_bytes, a.bytes);
      rx = SameRx-trans a.rx (reset-SameRx f);
    }

pub valid_bump :
    (fs : Flow) (ack bump : ℕ)
    → IsValid fs
    → ack < 2 ^ 32
    → tcp_valid_rxack fs ack ≡ some bump
    → bump ≤ fs.tx_sent + fs.tx_avail
valid_bump fs ack bump v a e = ((valid_rxack_iff fs ack v.tx_seq_word a (omega arith) bump).0 e).0

pub none_acked : (fs : Flow) → IsValid fs → Acknowledges fs fs 0
none_acked fs v = record {
  valid = v;
  next_una = omega arith;
  next_pos = ground arith;
  bytes = omega arith;
  rx = ground arith;
}

-- the count of acknowledgements is none of it either
pub counted :
    (fs g : Flow) (bump k : ℕ)
    → Acknowledges (record fs { cnt_rx_acks = k }) g bump
    → Acknowledges fs g bump
counted fs g bump k a = record {
  valid = a.valid;
  next_una = a.next_una;
  next_pos = a.next_pos;
  bytes = a.bytes;
  rx = record {
    conf = a.rx.conf;
    flags = a.rx.flags;
    avail = a.rx.avail;
    pos = a.rx.pos;
    seq = a.rx.seq;
    ooo_start = a.rx.ooo_start;
    ooo_len = a.rx.ooo_len;
  };
}
