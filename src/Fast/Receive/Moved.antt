-- ===== src/Fast/Receive/Moved.antt =====
-- How far a flow has come while a packet is handled.
use tas.Base.{
  ℕ, ◌+◌, ◌-◌, ◌≤◌, ◌<◌, ◌^◌, ◌≡◌, ap, Bool, false, arith, leb, if◌then◌else◌, add32, Memory,
}
use tas.Fast.Flow.{Flow}
use tas.Fast.Buffer.Ring.{ring_pos}
use tas.Fast.Transmit.Valid.{IsValid, una_seq, una_pos}
use tas.Fast.Receive.{Rx, Stage, go, unlock, rx_advance}

-- How a flow has changed since the state `fs`: `tx_bump` bytes more are acknowledged, `rx_bump` bytes
-- more are received, and the sequence number counts these and a FIN.
pub record Moved (fs : Flow) (r : Rx) : Type 0 where
  pub valid : IsValid r.flow
  pub conf : r.flow.conf ≡ fs.conf
  pub next_una : una_seq r.flow ≡ add32 (una_seq fs) r.tx_bump
  pub next_una_pos : una_pos r.flow ≡ ring_pos fs.tx_len (una_pos fs) r.tx_bump
  pub tx_bytes : r.flow.tx_avail + r.flow.tx_sent + r.tx_bump ≡ fs.tx_avail + fs.tx_sent
  pub rx_bytes : r.flow.rx_avail + r.rx_bump ≡ fs.rx_avail
  pub rx_pos : r.flow.rx_next_pos ≡ ring_pos fs.rx_len fs.rx_next_pos r.rx_bump
  pub rx_seq : r.flow.rx_next_seq ≡ add32 fs.rx_next_seq (r.rx_bump + (if r.fin_bump then 1 else 0))

advance-IsValid : (f : Flow) (n : ℕ) → IsValid f → n ≤ f.rx_avail → IsValid (rx_advance f n)
unfolding rx_advance
advance-IsValid f n v h = ground arith

-- where a position is after `b` and then `n` bytes
ring_pos-ring_pos :
    (len pos b n p : ℕ)
    → pos < len
    → b + n ≤ len
    → len < 2 ^ 31
    → p ≡ ring_pos len pos b
    → (if leb len (add32 p n) then add32 p n - len else add32 p n) ≡ ring_pos len pos (b + n)
ring_pos-ring_pos len pos b n p h k s e = rw e (ground arith)

add32-add32 : (s b n q : ℕ) → q ≡ add32 s (b + 0) → add32 q n ≡ add32 s (b + n + 0)
add32-add32 s b n q e = omega arith

-- `n` bytes more are received.
pub receive-Moved :
    (fs : Flow) (r : Rx) (n : ℕ)
    → IsValid fs
    → Moved fs r
    → r.fin_bump ≡ false
    → n ≤ r.flow.rx_avail
    → Moved fs (record r { flow = rx_advance r.flow n; rx_bump = r.rx_bump + n })
unfolding rx_advance
receive-Moved fs r n v m fin h =
    let c : r.flow.rx_len ≡ fs.rx_len = ap (λ k. k.rx_len) m.conf in
    record {
      valid = advance-IsValid r.flow n m.valid h;
      conf = m.conf;
      next_una = m.next_una;
      next_una_pos = m.next_una_pos;
      tx_bytes = m.tx_bytes;
      rx_bytes = omega (arith, m.rx_bytes, m.valid.rx_fits, m.valid.rx_len_small);
      rx_pos = rw c (
          ring_pos-ring_pos fs.rx_len fs.rx_next_pos r.rx_bump n r.flow.rx_next_pos v.rx_pos_in
            (omega (arith, m.rx_bytes, v.rx_fits)) v.rx_len_small m.rx_pos);
      rx_seq =
          rw fin (add32-add32 fs.rx_next_seq r.rx_bump n r.flow.rx_next_seq (rw fin at m.rx_seq));
    }

-- The interval of out-of-order data is a word and short enough for the 16-bit length that it is
-- trimmed with.
pub record IsShort (fs : Flow) : Type 0 where
  pub start : fs.rx_ooo_start < 2 ^ 32
  pub len : fs.rx_ooo_len < 2 ^ 16

-- a flow with another interval
pub set_ooo-Moved :
    (fs : Flow) (r : Rx) (s l : ℕ)
    → Moved fs r
    → Moved fs (record r { flow = record (r.flow) { rx_ooo_start = s; rx_ooo_len = l } })
set_ooo-Moved fs r s l m = record {
  valid = ground (arith, m.valid);
  conf = m.conf;
  next_una = m.next_una;
  next_una_pos = m.next_una_pos;
  tx_bytes = m.tx_bytes;
  rx_bytes = m.rx_bytes;
  rx_pos = m.rx_pos;
  rx_seq = m.rx_seq;
}

-- What the stages before the payload's leave: nothing received yet, a payload in order that fits, and
-- a short interval.
pub record IsReady (fs : Flow) (r : Rx) : Type 0 where
  pub moved : Moved fs r
  pub no_bump : r.rx_bump ≡ 0
  pub no_fin : r.fin_bump ≡ false
  pub fits : r.payload_bytes ≤ r.flow.rx_avail
  pub short : IsShort r.flow

abbrev pub StageOk : (Rx → Type 0) → (Rx → Type 0) → Stage → Type 0
StageOk Q P (go r) = P r
StageOk Q P (unlock r) = Q r

-- Only the flow and the bumps matter.
pub other_locals :
    (fs : Flow) (r : Rx) (mem : Memory) (bytes off seq : ℕ) (ack : Bool)
    → Moved fs r
    → Moved fs (record r {
      mem = mem;
      payload_bytes = bytes;
      payload_off = off;
      seq = seq;
      trigger_ack = ack;
    })
other_locals fs r mem bytes off seq ack m = record {
  valid = m.valid;
  conf = m.conf;
  next_una = m.next_una;
  next_una_pos = m.next_una_pos;
  tx_bytes = m.tx_bytes;
  rx_bytes = m.rx_bytes;
  rx_pos = m.rx_pos;
  rx_seq = m.rx_seq;
}
