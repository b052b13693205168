-- ===== src/Fast/Receive/Deliver.antt =====
-- Where the bytes of a packet in order end up.
use tas.Base.{
  ℕ, ◌+◌, ◌≤◌, ◌<◌, ◌^◌, ◌≡◌, refl, sym, ap, ◌∙◌, arith, true, false, not, ◌&&◌, Option, none, some,
  ltb, ◌==◌, Memory, read_bytes, length-read_bytes, get_or-read_bytes, add32, sub32, u16, has,
  Bool-cases, inl, inr,
}
use tas.Fast.Flow.{Flow, flag_rxfin}
use tas.Fast.Seq.{Cut, tcp_trim_rxbuf}
use tas.Fast.Seq.Trim.{trim_rxbuf_exact}
use tas.Fast.Buffer.Ring.{ring_offset, ring_pos, rx_write_ring}
use tas.Fast.Segment.{tcp_ack}
use tas.Fast.Transmit.Valid.{IsValid}
use tas.Fast.Receive.{
  Packet, Rx, go, ◌>>=◌, stage_rx, ack_dup, ack_valid, ack_stage, payload, order_stage, trim_to,
  trim_stage, header_stage, ooo_cut, ooo_merge, payload_take, payload_stage, fin_stage, rx_stages,
}
use tas.Fast.Receive.Acks.{AckDone, ack_stage-AckDone}

-- A packet with payload does not end the handler at its acknowledgement.
dup_goes : (r : Rx) (n bump : ℕ) → 0 < n → ack_dup r n bump ≡ go (stage_rx (ack_dup r n bump))
unfolding ack_dup
dup_goes r n bump h =
    let some_payload : not (n == 0) ≡ true = ground arith in
    elim (Bool-cases (not (bump == 0))) [ inl b ↦ rw b refl | inr b ↦ rw (b, some_payload) refl ]

valid_goes :
    (r : Rx) (p : Packet) (n : ℕ) (o : Option ℕ)
    → 0 < n
    → ack_valid r p n o ≡ go (stage_rx (ack_valid r p n o))
unfolding ack_valid
valid_goes r p n none h = refl
valid_goes r p n (some bump) h = dup_goes _ n bump h

ack_goes : (p : Packet) (n : ℕ) (r : Rx) → 0 < n → ack_stage p n r ≡ go (stage_rx (ack_stage p n r))
unfolding ack_stage
ack_goes p n r h = elim (Bool-cases (has p.flags tcp_ack)) [
  | inl y ↦ rw y (valid_goes _ p n _ h)
  | inr y ↦ rw y refl
]

trim_none :
    (fs : Flow) (seq n : ℕ)
    → IsValid fs
    → seq ≡ fs.rx_next_seq
    → n < 2 ^ 16
    → n ≤ fs.rx_avail
    → tcp_trim_rxbuf fs seq n ≡ some (record { start = 0; end = 0 })
trim_none fs seq n v e s a =
    trim_rxbuf_exact fs seq n (omega (arith, v.rx_seq_word)) v.rx_seq_word s
      (omega (arith, v.rx_fits, v.rx_len_small)) (λ w. absurd (omega (arith, w.starts_inside)))
    ∙ ground (arith, v.rx_seq_word)

fin_mem : (p : Packet) (n : ℕ) (r : Rx) → (stage_rx (fin_stage p n r)).mem ≡ r.mem
unfolding fin_stage
fin_mem p n r = ground arith

cut_mem : (r : Rx) (o : Option Cut) → (ooo_cut r o).mem ≡ r.mem
unfolding ooo_cut
cut_mem r none = refl
cut_mem r (some c) =
    elim (Bool-cases (
      ltb 0 (sub32 r.flow.rx_ooo_len (c.start + c.end))
      && (add32 r.flow.rx_ooo_start c.start == r.flow.rx_next_seq))) [
        | inl y ↦ rw y refl
        | inr y ↦ rw y refl
      ]

merge_mem : (r : Rx) → (ooo_merge r).mem ≡ r.mem
unfolding ooo_merge
merge_mem r = elim (Bool-cases (r.flow.rx_ooo_len == 0)) [
  | inl y ↦ rw y refl
  | inr y ↦ rw y (cut_mem r _)
]

-- The bytes that are copied, at their positions.
take_mem :
    (p : Packet) (r : Rx) (i : ℕ)
    → IsValid r.flow
    → r.payload_bytes < 2 ^ 16
    → r.payload_bytes ≤ r.flow.rx_avail
    → i < r.payload_bytes
    → (payload_take p r).mem (r.flow.rx_base + ring_pos r.flow.rx_len r.flow.rx_next_pos i)
      ≡ p.buf (r.payload_off + i)
unfolding payload_take payload
take_mem p r i v s a l =
    let same : u16 r.payload_bytes ≡ r.payload_bytes = omega arith in
    rw same (
      rx_write_ring r.flow r.mem r.flow.rx_next_pos r.payload_bytes
        (read_bytes p.buf r.payload_off r.payload_bytes) v.rx_pos_in (omega (arith, v.rx_fits))
        v.rx_len_small (omega (arith, length-read_bytes p.buf r.payload_off r.payload_bytes))
        (ring_pos r.flow.rx_len r.flow.rx_next_pos i) (ground (arith, v))
      ∙ rw (back, front) (get_or-read_bytes p.buf r.payload_off r.payload_bytes i 0 l))
  where
    back :
        ring_offset r.flow.rx_len r.flow.rx_next_pos (ring_pos r.flow.rx_len r.flow.rx_next_pos i)
        ≡ i
    back = ground (arith, v)

    front : ltb i r.payload_bytes ≡ true
    front = ground arith

-- What the stages after the acknowledgement need of the packet and the flow to take all of it.
pub record IsInOrder (r : Rx) : Type 0 where
  pub valid : IsValid r.flow
  pub next : r.seq ≡ r.flow.rx_next_seq
  pub some_bytes : 0 < r.payload_bytes
  pub small : r.payload_bytes < 2 ^ 16
  pub fits : r.payload_bytes ≤ r.flow.rx_avail
  pub off_word : r.payload_off < 2 ^ 32
  pub open_stream : has r.flow.flags flag_rxfin ≡ false

trim_goes : (p : Packet) (r : Rx) → IsInOrder r → trim_stage p r ≡ go r
unfolding trim_stage trim_to order_stage
trim_goes p r w =
    let same : u16 r.payload_bytes ≡ r.payload_bytes = omega (arith, w.small) in
    let bytes : sub32 r.payload_bytes (0 + 0) ≡ r.payload_bytes = omega (arith, w.small) in
    let off : add32 r.payload_off 0 ≡ r.payload_off = omega (arith, w.off_word) in
    let seq : add32 r.seq 0 ≡ r.seq = omega (arith, w.next, w.valid.rx_seq_word) in
    let here : (r.seq == r.flow.rx_next_seq) ≡ true = ground (arith, w.next) in
    rw
      (
        same,
        trim_none r.flow r.seq r.payload_bytes w.valid w.next w.small w.fits,
        bytes,
        off,
        seq,
        here,
      )
      refl

header_goes :
    (p : Packet) (ts : ℕ) (r : Rx)
    → IsInOrder r
    → header_stage p ts r ≡ go (stage_rx (header_stage p ts r))
unfolding header_stage
header_goes p ts r w = rw w.open_stream refl

deliver_from :
    (p : Packet) (n ts : ℕ) (r : Rx) (i : ℕ)
    → IsInOrder r
    → i < r.payload_bytes
    → (stage_rx (trim_stage p r >>= header_stage p ts >>= payload_stage p >>= fin_stage p n)).mem
        (r.flow.rx_base + ring_pos r.flow.rx_len r.flow.rx_next_pos i)
      ≡ p.buf (r.payload_off + i)
unfolding header_stage payload_stage
deliver_from p n ts r i w l =
    let addr = r.flow.rx_base + ring_pos r.flow.rx_len r.flow.rx_next_pos i in
    let some_bytes : ltb 0 r.payload_bytes ≡ true = ground (arith, w.some_bytes) in
    rw (trim_goes p r w, w.open_stream, some_bytes)
      (ap (λ m. m addr) (fin_mem p n _ ∙ merge_mem _)
        ∙ take_mem p _ i (ground (arith, w.valid)) w.small w.fits l)

-- The acknowledgement leaves the packet in order.
acked-IsInOrder : (r r' : Rx) → AckDone r.flow r r' → IsInOrder r → IsInOrder r'
acked-IsInOrder r r' a w =
    let rx = a.flow.rx in
    let l = a.locals in
    record {
      valid = a.flow.valid;
      next = omega (arith, l.seq, rx.seq, w.next);
      some_bytes = omega (arith, l.payload_bytes, w.some_bytes);
      small = omega (arith, l.payload_bytes, w.small);
      fits = omega (arith, l.payload_bytes, rx.avail, w.fits);
      off_word = omega (arith, l.payload_off, w.off_word);
      open_stream = rw rx.flags w.open_stream;
    }

moved : (m buf : Memory) (a a' b b' : ℕ) → a ≡ a' → b ≡ b' → m a' ≡ buf b' → m a ≡ buf b
moved m buf a a' b b' e f h = ap m e ∙ h ∙ sym (ap buf f)

ring_pos-same :
    (f f' : Flow) (i : ℕ)
    → f.rx_len ≡ f'.rx_len
    → f.rx_next_pos ≡ f'.rx_next_pos
    → ring_pos f.rx_len f.rx_next_pos i ≡ ring_pos f'.rx_len f'.rx_next_pos i
ring_pos-same f f' i e k = rw (e, k) refl

-- The stages of the handlers on a packet whose payload starts at the next expected byte and fits into
-- the receive window, of a valid flow whose stream has not ended, with an acknowledgement number below
-- 2^32 and no bump yet: byte `i` of the payload is then in the receive buffer, at the next position plus
-- `i`, going round the end.
pub stages_deliver :
    (p : Packet) (ts : ℕ) (r : Rx) (i : ℕ)
    → IsInOrder r
    → p.ackno < 2 ^ 32
    → r.tx_bump ≡ 0
    → i < r.payload_bytes
    → (stage_rx (rx_stages p r.payload_bytes ts r)).mem
        (r.flow.rx_base + ring_pos r.flow.rx_len r.flow.rx_next_pos i)
      ≡ p.buf (r.payload_off + i)
unfolding rx_stages
stages_deliver p ts r i w k z l =
    let r' = stage_rx (ack_stage p r.payload_bytes r) in
    let a = ack_stage-AckDone p r.payload_bytes r w.valid k z in
    let rx = a.flow.rx in
    let base : r'.flow.rx_base ≡ r.flow.rx_base = ap (λ c. c.rx_base) rx.conf in
    let size : r'.flow.rx_len ≡ r.flow.rx_len = ap (λ c. c.rx_len) rx.conf in
    let same : ring_pos r.flow.rx_len r.flow.rx_next_pos i
        ≡ ring_pos r'.flow.rx_len r'.flow.rx_next_pos i =
      ring_pos-same r.flow r'.flow i (sym size) (sym rx.pos) in
    rw (ack_goes p r.payload_bytes r w.some_bytes) (
      moved
        (stage_rx (
          trim_stage p r'
          >>= header_stage p ts
          >>= payload_stage p
          >>= fin_stage p r.payload_bytes)).mem
        p.buf (r.flow.rx_base + ring_pos r.flow.rx_len r.flow.rx_next_pos i)
        (r'.flow.rx_base + ring_pos r'.flow.rx_len r'.flow.rx_next_pos i) (r.payload_off + i)
        (r'.payload_off + i) (omega (arith, base, same)) (omega (arith, a.locals.payload_off))
        (deliver_from p r.payload_bytes ts r' i (acked-IsInOrder r r' a w)
          (omega (arith, a.locals.payload_bytes, l))))
