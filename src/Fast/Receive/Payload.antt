-- ===== src/Fast/Receive/Payload.antt =====
-- The payload in order, and the interval that it may join up with.
use tas.Base.{
  ℕ, ◌+◌, ◌≤◌, ◌≡◌, refl, subst, ◌∙◌, true, false, ◌&&◌, Option, none, some, arith, ltb, ◌==◌,
  add32, sub32, u16, Bool-cases, Option-cases, inl, inr,
}
use tas.Fast.Flow.{Flow}
use tas.Fast.Seq.{Cut, tcp_trim_rxbuf}
use tas.Fast.Seq.Trim.{trim_rxbuf_in_order}
use tas.Fast.Transmit.Valid.{IsValid}
use tas.Fast.Receive.{Packet, Rx, rx_advance, ooo_cut, ooo_merge, payload_take, payload_stage}
use tas.Fast.Receive.Moved.{
  Moved, receive-Moved, IsShort, set_ooo-Moved, other_locals, IsReady, StageOk,
}

-- What is kept of the interval is in the window.
cut_fits :
    (r : Rx) (c : Cut)
    → IsValid r.flow
    → IsShort r.flow
    → tcp_trim_rxbuf r.flow r.flow.rx_ooo_start (u16 r.flow.rx_ooo_len) ≡ some c
    → add32 r.flow.rx_ooo_start c.start ≡ r.flow.rx_next_seq
    → sub32 r.flow.rx_ooo_len (c.start + c.end) ≤ r.flow.rx_avail
cut_fits r c v s e o =
    let l : u16 r.flow.rx_ooo_len ≡ r.flow.rx_ooo_len = omega (arith, s.len) in
    let cut =
      trim_rxbuf_in_order r.flow r.flow.rx_ooo_start r.flow.rx_ooo_len s.start v.rx_seq_word s.len
        (omega (arith, v.rx_fits, v.rx_len_small)) c (rw l at e) o in
    omega (arith, cut.0, cut.1, s.len)

cut-Moved :
    (fs : Flow) (r : Rx) (c : Cut)
    → IsValid fs
    → Moved fs r
    → IsShort r.flow
    → r.fin_bump ≡ false
    → tcp_trim_rxbuf r.flow r.flow.rx_ooo_start (u16 r.flow.rx_ooo_len) ≡ some c
    → Moved fs (ooo_cut r (some c))
unfolding ooo_cut rx_advance
cut-Moved fs r c v m s fin e =
    elim (Bool-cases (
      ltb 0 (sub32 r.flow.rx_ooo_len (c.start + c.end))
      && add32 r.flow.rx_ooo_start c.start == r.flow.rx_next_seq)) [
        | inr n ↦ rw n (set_ooo-Moved fs r _ _ m)
        | inl y ↦ rw (y, bump (ground arith)) (set_ooo-Moved fs _ start 0 (taken (ground arith)))
      ]
  where
    start : ℕ
    start = add32 r.flow.rx_ooo_start c.start

    len : ℕ
    len = sub32 r.flow.rx_ooo_len (c.start + c.end)

    kept : Rx
    kept = record r { flow = record (r.flow) { rx_ooo_start = start; rx_ooo_len = len } }

    taken :
        start ≡ r.flow.rx_next_seq
        → Moved fs (record kept { flow = rx_advance kept.flow len; rx_bump = r.rx_bump + len })
    taken o =
        receive-Moved fs kept len v (set_ooo-Moved fs r start len m) fin
          (cut_fits r c m.valid s e o)

    bump : start ≡ r.flow.rx_next_seq → add32 r.rx_bump len ≡ r.rx_bump + len
    bump o = omega (arith, cut_fits r c m.valid s e o, m.rx_bytes, v.rx_fits, v.rx_len_small)

merge-Moved :
    (fs : Flow) (r : Rx)
    → IsValid fs
    → Moved fs r
    → IsShort r.flow
    → r.fin_bump ≡ false
    → Moved fs (ooo_merge r)
unfolding ooo_merge ooo_cut
merge-Moved fs r v m s fin = elim (Bool-cases (r.flow.rx_ooo_len == 0)) [
  | inl z ↦ rw z m
  | inr z ↦
      elim (Option-cases (tcp_trim_rxbuf r.flow r.flow.rx_ooo_start (u16 r.flow.rx_ooo_len))) [
        | inl e ↦ rw (z, e, ooo_cut) (set_ooo-Moved fs r r.flow.rx_ooo_start 0 m)
        | inr (c, e) ↦ rw (z, e) (cut-Moved fs r c v m s fin e)
      ]
]

cut_fin : (r : Rx) (o : Option Cut) → (ooo_cut r o).fin_bump ≡ r.fin_bump
unfolding ooo_cut
cut_fin r none = refl
cut_fin r (some c) = ground arith

merge_fin : (r : Rx) → (ooo_merge r).fin_bump ≡ r.fin_bump
unfolding ooo_merge
merge_fin r =
    ground (arith, cut_fin r (tcp_trim_rxbuf r.flow r.flow.rx_ooo_start (u16 r.flow.rx_ooo_len)))

take-Moved :
    (fs : Flow) (p : Packet) (r : Rx) → IsValid fs → IsReady fs r → Moved fs (payload_take p r)
unfolding payload_take
take-Moved fs p r v d =
    let n = r.payload_bytes in
    let e : r.rx_bump + n ≡ n = omega (arith, d.no_bump) in
    other_locals fs (record r { flow = rx_advance r.flow n; rx_bump = n }) _ n r.payload_off r.seq
      true
      (subst (λ b. Moved fs (record r { flow = rx_advance r.flow n; rx_bump = b })) e
        (receive-Moved fs r n v d.moved d.no_fin d.fits))

take-IsShort : (p : Packet) (r : Rx) → IsShort r.flow → IsShort (payload_take p r).flow
unfolding payload_take rx_advance
take-IsShort p r s = record { start = s.start; len = s.len }

take_fin : (p : Packet) (r : Rx) → (payload_take p r).fin_bump ≡ r.fin_bump
unfolding payload_take
take_fin p r = refl

pub payload-Moved :
    (fs : Flow) (p : Packet) (r : Rx)
    → IsValid fs
    → IsReady fs r
    → StageOk (Moved fs) (λ r'. Moved fs r' × (r'.fin_bump ≡ false)) (payload_stage p r)
unfolding payload_stage
payload-Moved fs p r v d = elim (Bool-cases (ltb 0 r.payload_bytes)) [
  | inr z ↦ rw z (d.moved, d.no_fin)
  | inl y ↦
      let fin = take_fin p r ∙ d.no_fin in
      rw y (
        merge-Moved fs (payload_take p r) v (take-Moved fs p r v d) (take-IsShort p r d.short) fin,
        merge_fin (payload_take p r) ∙ fin,
      )
]
