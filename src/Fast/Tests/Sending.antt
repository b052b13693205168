-- ===== src/Fast/Tests/Sending.antt =====
-- The transmit side at work.
use tas.Base.{◌+◌, ◌≤◌, ◌<◌, ◌≡◌, refl, true, false, if◌then◌else◌, [], ◌∷◌, min, arith}
use tas.Fast.Flow.{Flow}
use tas.Fast.Seq.{tcp_txavail}
use tas.Fast.Segment.{Segment}
use tas.Fast.Transmit.{
  send, tcp_mss, queue_exists, fast_flows_qman, fast_flows_retransmit, Notice, bump_stale,
  fast_flows_bump,
}
use tas.Fast.Transmit.Valid.{IsValid, Returns, KeepsUnacked}
use tas.Fast.Transmit.Send.{qman-KeepsUnacked, IsNextSegment, qman-IsNextSegment}
use tas.Fast.Transmit.Rewind.{IsRewound, retransmit-IsRewound}
use tas.Fast.Transmit.Bump.{Takes, Ignores, refuses, bump-Takes, bump_overcommits}
use tas.Fast.Tests.{conf, flow, flow-IsValid, core, bytes}

can_send : tcp_txavail flow ≡ 4
unfolding tcp_txavail
can_send = refl

queue_7 : queue_exists 1 7 ≡ true
unfolding queue_exists
queue_7 = refl

qman-IsNextSegment_example : Returns (fast_flows_qman core flow bytes 1 7 70) (λ r.
    (g : Segment) × (r.effects ≡ send g ∷ [])
    × IsNextSegment flow bytes (min (tcp_txavail flow) tcp_mss) g
    × (r.flow.tx_sent ≡ 4 + min (tcp_txavail flow) tcp_mss)
    × (r.flow.tx_avail + min (tcp_txavail flow) tcp_mss ≡ 6))
qman-IsNextSegment_example =
    qman-IsNextSegment core flow bytes 1 7 70 flow-IsValid refl (omega (arith, can_send))

qman-KeepsUnacked_example :
    Returns
      (fast_flows_qman core flow bytes 1 7 70)
      (λ r. KeepsUnacked flow r.flow × (r.flow.tx_sent ≤ 8))
qman-KeepsUnacked_example = qman-KeepsUnacked core flow bytes 1 7 70 flow-IsValid refl queue_7

-- the application read 6 bytes and wrote 3
abbrev notice : Notice
notice = record { bump_seq = 3; rx_bump = 6; tx_bump = 3; done = false }

bump-Takes_example :
    Returns
      (fast_flows_bump core flow bytes 7 notice 70)
      (λ r. if refuses flow notice then Ignores flow r.flow else Takes flow notice r.flow)
bump-Takes_example =
    bump-Takes core flow bytes 7 notice 70 flow-IsValid queue_7 (omega arith) (omega arith)
      (omega arith)

-- the same flow with a longer transmit buffer
abbrev uneven : Flow
uneven = record flow { conf = record conf { tx_len = 64 } }

uneven-IsValid : IsValid uneven
uneven-IsValid = ground arith

abbrev read_16 : Notice
read_16 = record { bump_seq = 65531; rx_bump = 16; tx_bump = 0; done = false }

read_16_fresh : bump_stale 65531 65530 ≡ false
unfolding bump_stale
read_16_fresh = refl

bump_overcommits_example :
    Returns
      (fast_flows_bump core uneven bytes 7 read_16 70)
      (λ r. (r.flow.rx_len ≡ 16) × (16 < r.flow.rx_avail))
bump_overcommits_example =
    bump_overcommits core uneven bytes 7 read_16 70 uneven-IsValid queue_7 refl refl read_16_fresh
      (omega arith) (omega arith) (omega arith)

retransmit-IsRewound_example : Returns (fast_flows_retransmit flow 7) (λ r. IsRewound flow r.flow)
retransmit-IsRewound_example = retransmit-IsRewound flow 7 flow-IsValid queue_7
