-- ===== src/Fast/Transmit/Rewind.antt =====
-- Retransmission: the flow goes back to its first unacknowledged byte.
use tas.Base.{
  ℕ, ◌+◌, ◌<◌, ◌^◌, ◌/◌, ◌≡◌, refl, true, arith, ltb, ◌==◌, if◌then◌else◌, Bool-cases, inl, inr,
  subst, sym,
}
use tas.Fast.Flow.{Flow}
use tas.Fast.Seq.{tcp_txavail}
use tas.Fast.Transmit.{flow_reset_retransmit, fast_flows_retransmit, queue_exists}
use tas.Fast.Transmit.Valid.{IsValid, una_seq, una_pos, Returns, KeepsUnacked, update_queue_lem}

-- The next byte to send is the first unacknowledged one.
pub record IsRewound (fs fs' : Flow) : Type 0 where
  pub keeps : KeepsUnacked fs fs'
  pub next_seq : fs'.tx_next_seq ≡ una_seq fs
  pub next_pos : fs'.tx_next_pos ≡ una_pos fs
  pub none_sent : fs'.tx_sent ≡ 0

-- `flow_reset_retransmit` on a valid flow makes every sent byte an unsent one: the next byte to send is
-- the first unacknowledged one, at its position in the buffer, and the flow stays valid.
pub reset-IsRewound : (fs : Flow) → IsValid fs → IsRewound fs (flow_reset_retransmit fs)
unfolding flow_reset_retransmit
reset-IsRewound fs v = ground arith

reset-vm_id : (fs : Flow) → (flow_reset_retransmit fs).vm_id ≡ fs.vm_id
unfolding flow_reset_retransmit
reset-vm_id fs = refl

nothing_sent-IsRewound : (fs : Flow) → IsValid fs → fs.tx_sent ≡ 0 → IsRewound fs fs
nothing_sent-IsRewound fs v z = ground arith

-- `fast_flows_retransmit` on a valid flow whose queue exists returns with the flow rewound.
pub retransmit-IsRewound :
    (fs : Flow) (flow_id : ℕ)
    → IsValid fs
    → queue_exists fs.vm_id flow_id ≡ true
    → Returns (fast_flows_retransmit fs flow_id) (λ r. IsRewound fs r.flow)
unfolding fast_flows_retransmit
retransmit-IsRewound fs flow_id v ex = elim (Bool-cases (fs.tx_sent == 0)) [
  | inl z ↦ rw z (nothing_sent-IsRewound fs v (ground arith))
  | inr m ↦ elim (Bool-cases (ltb (tcp_txavail fs) (tcp_txavail (flow_reset_retransmit fs)))) [
    | inl u ↦
        rw
          (
            m,
            u,
            update_queue_lem (flow_reset_retransmit fs) flow_id
                (tcp_txavail (flow_reset_retransmit fs)) ex',
          )
          (reset-IsRewound fs v)
    | inr u ↦ rw (m, u) (reset-IsRewound fs v)
  ]
]
  where
    ex' : queue_exists (flow_reset_retransmit fs).vm_id flow_id ≡ true
    ex' = subst (λ k. queue_exists k flow_id ≡ true) (sym (reset-vm_id fs)) ex

-- After `flow_reset_retransmit` with `cnt_tx_drops` below 2^16 - 2, the rate is halved at the
-- first loss since the counter was reset and at no later one.
pub reset_rate :
    (fs : Flow)
    → fs.cnt_tx_drops + 2 < 2 ^ 16
    → let once = flow_reset_retransmit fs in
      let twice = flow_reset_retransmit once in
      (twice.tx_rate ≡ once.tx_rate)
      × (once.tx_rate ≡ (if fs.cnt_tx_drops == 0 then fs.tx_rate / 2 else fs.tx_rate))
unfolding flow_reset_retransmit
reset_rate fs h = ground arith
