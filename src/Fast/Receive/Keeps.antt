-- ===== src/Fast/Receive/Keeps.antt =====
-- The stages together.
use tas.Base.{ℕ, ◌+◌, ◌≤◌, ◌<◌, ◌^◌, ◌≡◌, false, ◌∙◌, arith}
use tas.Fast.Flow.{Flow}
use tas.Fast.Transmit.Valid.{IsValid}
use tas.Fast.Receive.{
  Packet, Rx, Stage, go, unlock, ◌>>=◌, stage_rx, ack_stage, trim_stage, header_stage,
  payload_stage, fin_stage, rx_stages, payload_size, extra_hlen,
}
use tas.Fast.Receive.Acks.{AckDone, ack_stage-AckDone}
use tas.Fast.Receive.Moved.{Moved, IsShort, IsReady, StageOk}
use tas.Fast.Receive.Payload.{payload-Moved}
use tas.Fast.Receive.Order.{IsFresh, trim-IsReady, header-IsReady, fin-Moved}

-- A packet that the parser may hand over: its numbers are words, and its length counts its headers.
pub record IsWhole (p : Packet) : Type 0 where
  pub seq_word : p.seqno < 2 ^ 32
  pub ack_word : p.ackno < 2 ^ 32
  pub len_word : p.ip_len < 2 ^ 16
  pub headers : 40 + extra_hlen p ≤ p.ip_len

bind_ok :
    (Q P P' : Rx → Type 0) (m : Stage) (f : Rx → Stage)
    → StageOk Q P m
    → ((r : Rx) → P r → StageOk Q P' (f r))
    → StageOk Q P' (m >>= f)
bind_ok Q P P' (go r) f h k = k r h
bind_ok Q P P' (unlock r) f h k = h

stage_ok : (P : Rx → Type 0) (m : Stage) → StageOk P P m → P (stage_rx m)
stage_ok P (go r) h = h
stage_ok P (unlock r) h = h

-- The variables before the first stage.
pub record IsStart (p : Packet) (r : Rx) : Type 0 where
  pub seq : r.seq ≡ p.seqno
  pub size : r.payload_bytes ≡ payload_size p
  pub no_rx : r.rx_bump ≡ 0
  pub no_tx : r.tx_bump ≡ 0
  pub no_fin : r.fin_bump ≡ false

payload_size-small : (p : Packet) → IsWhole p → payload_size p < 2 ^ 16
unfolding payload_size
payload_size-small p w = omega (arith, w.headers, w.len_word)

acked-Moved :
    (fs : Flow) (p : Packet) (r r' : Rx) → IsValid fs → IsStart p r → AckDone fs r r' → Moved fs r'
acked-Moved fs p r r' v i a =
    let rx = a.flow.rx in
    let bump : r'.rx_bump ≡ 0 = a.locals.rx_bump ∙ i.no_rx in
    let fin : r'.fin_bump ≡ false = a.locals.fin_bump ∙ i.no_fin in
    record {
      valid = a.flow.valid;
      conf = rx.conf;
      next_una = a.flow.next_una;
      next_una_pos = a.flow.next_pos;
      tx_bytes = a.flow.bytes;
      rx_bytes = omega (arith, rx.avail, bump);
      rx_pos = rw (bump, rx.pos) (ground (arith, v));
      rx_seq = rw (bump, fin, rx.seq) (omega (arith, v.rx_seq_word));
    }

acked-IsFresh :
    (fs : Flow) (p : Packet) (r r' : Rx)
    → IsValid fs
    → IsShort fs
    → IsWhole p
    → IsStart p r
    → AckDone fs r r'
    → IsFresh fs r'
acked-IsFresh fs p r r' v s w i a =
    let rx = a.flow.rx in
    record {
      moved = acked-Moved fs p r r' v i a;
      no_bump = a.locals.rx_bump ∙ i.no_rx;
      no_fin = a.locals.fin_bump ∙ i.no_fin;
      seq_word = omega (arith, a.locals.seq, i.seq, w.seq_word);
      size = omega (arith, a.locals.payload_bytes, i.size, payload_size-small p w);
      short = record {
        start = omega (arith, rx.ooo_start, s.start);
        len = omega (arith, rx.ooo_len, s.len);
      };
    }

ack_ok : (Q P : Rx → Type 0) (m : Stage) → Q (stage_rx m) × P (stage_rx m) → StageOk Q P m
ack_ok Q P (go r) h = h.1
ack_ok Q P (unlock r) h = h.0

-- The handler's stages on a valid flow with a short interval and a whole packet.
pub stages-Moved :
    (p : Packet) (ts : ℕ) (r : Rx)
    → IsValid r.flow
    → IsShort r.flow
    → IsWhole p
    → IsStart p r
    → Moved r.flow (stage_rx (rx_stages p (payload_size p) ts r))
unfolding rx_stages
stages-Moved p ts r v s w i =
    let fs = r.flow in
    let n = payload_size p in
    let done = ack_stage-AckDone p n r v w.ack_word i.no_tx in
    stage_ok (Moved fs) _ (
      bind_ok (Moved fs) (λ r'. Moved fs r' × (r'.fin_bump ≡ false)) (Moved fs) _ (fin_stage p n)
        (bind_ok (Moved fs) (IsReady fs) (λ r'. Moved fs r' × (r'.fin_bump ≡ false)) _
          (payload_stage p)
          (bind_ok (Moved fs) (IsReady fs) (IsReady fs) _ (header_stage p ts)
            (bind_ok (Moved fs) (IsFresh fs) (IsReady fs) (ack_stage p n r) (trim_stage p)
              (ack_ok (Moved fs) (IsFresh fs) (ack_stage p n r)
                (acked-Moved fs p r _ v i done, acked-IsFresh fs p r _ v s w i done))
              (trim-IsReady fs p))
            (header-IsReady fs p ts))
          (λ r' d. payload-Moved fs p r' v d))
        (fin-Moved fs p n))
