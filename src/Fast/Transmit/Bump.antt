-- ===== src/Fast/Transmit/Bump.antt =====
-- What `fast_flows_bump` takes from the application.
use tas.Base.{
  ℕ, ◌+◌, ◌-◌, ◌≤◌, ◌<◌, ◌^◌, ◌%◌, ◌≡◌, refl, Bool, true, false, ◌||◌, arith, ltb, has,
  if◌then◌else◌, Bool-cases, inl, inr, Memory,
}
use tas.Fast.Flow.{Flow, flag_txfin}
use tas.Fast.Seq.{tcp_txavail, tcp_txavail_of}
use tas.Fast.Transmit.{
  Core, update_queue, queue_exists, Notice, bump_stale, bump_tx, bump_empty_close, bump_too_large,
  bump_apply, bump_accept, fast_flows_bump,
}
use tas.Fast.Transmit.Valid.{IsValid, una_seq, Returns}

-- For 16-bit numbers, a notice from 1 to 32765 places behind the last one, mod 2^16, is refused as stale.
pub bump_stale_behind :
    (new old : ℕ)
    → new < 2 ^ 16
    → old < 2 ^ 16
    → 0 < (old + 2 ^ 16 - new) % 2 ^ 16
    → (old + 2 ^ 16 - new) % 2 ^ 16 ≤ 32765
    → bump_stale new old ≡ true
unfolding bump_stale
bump_stale_behind new old n o a b = ground arith

-- For 16-bit numbers, a notice from 0 to 16384 places ahead of the last one, mod 2^16, is not refused as
-- stale.
pub bump_stale_ahead :
    (new old : ℕ)
    → new < 2 ^ 16
    → old < 2 ^ 16
    → (new + 2 ^ 16 - old) % 2 ^ 16 ≤ 16384
    → bump_stale new old ≡ false
unfolding bump_stale
bump_stale_ahead new old n o a = ground arith

-- the bytes for transmission that count: none on a flow whose end of sending has been given
abbrev pub to_send : Flow → Notice → ℕ
to_send fs n = if has fs.flags flag_txfin then 0 else n.tx_bump

-- the fields that a notice changes, and by how much
pub record Takes (fs : Flow) (n : Notice) (fs' : Flow) : Type 0 where
  pub valid : IsValid fs'
  pub unacked : una_seq fs' ≡ una_seq fs
  pub next_seq : fs'.tx_next_seq ≡ fs.tx_next_seq
  pub more_tx : fs'.tx_avail ≡ fs.tx_avail + to_send fs n
  pub more_rx : fs'.rx_avail ≡ fs.rx_avail + n.rx_bump

apply-Takes :
    (fs : Flow) (n : Notice)
    → IsValid fs
    → fs.tx_len ≤ fs.rx_len
    → n.rx_bump < 2 ^ 32
    → n.tx_bump < 2 ^ 32
    → bump_too_large fs n.rx_bump (bump_tx fs n) ≡ false
    → Takes fs n (bump_apply (record fs { bump_seq = n.bump_seq }) n)
unfolding bump_too_large bump_apply bump_tx
apply-Takes fs n v l r t h = ground arith

empty_close-not_done : (fs : Flow) (n : Notice) → n.done ≡ false → bump_empty_close fs n ≡ false
unfolding bump_empty_close
empty_close-not_done fs n d = ground arith

rx_only-roomy :
    (fs : Flow) (n : Notice)
    → IsValid fs
    → n.tx_bump ≡ 0
    → n.rx_bump ≤ fs.rx_len
    → n.rx_bump + fs.rx_avail ≤ fs.tx_len
    → bump_too_large fs n.rx_bump (bump_tx fs n) ≡ false
unfolding bump_too_large bump_tx
rx_only-roomy fs n v z l k = ground arith

apply-grown :
    (fs : Flow) (n : Notice)
    → IsValid fs
    → n.rx_bump ≤ fs.rx_len
    → n.rx_bump + fs.rx_avail ≤ fs.tx_len
    → fs.rx_len < n.rx_bump + fs.rx_avail
    → let fs' = bump_apply (record fs { bump_seq = n.bump_seq }) n in
      (fs'.rx_len ≡ fs.rx_len) × (fs.rx_len < fs'.rx_avail)
unfolding bump_apply
apply-grown fs n v l k o = (refl, omega arith)

-- the fields that stay when a notice is refused
pub record Ignores (fs fs' : Flow) : Type 0 where
  pub valid : IsValid fs'
  pub unacked : una_seq fs' ≡ una_seq fs
  pub same_flags : fs'.flags ≡ fs.flags
  pub same_tx : fs'.tx_avail ≡ fs.tx_avail
  pub same_rx : fs'.rx_avail ≡ fs.rx_avail

-- A notice is refused for its number, for closing without the dummy byte, or for its size.
abbrev pub refuses : Flow → Notice → Bool
refuses fs n =
    bump_stale n.bump_seq fs.bump_seq
    || (bump_empty_close fs n || bump_too_large fs n.rx_bump (bump_tx fs n))

module _ (core : Core) (fs : Flow) (mem : Memory) (flow_id : ℕ) (n : Notice) (ts : ℕ)
    (v : IsValid fs) (ex : queue_exists fs.vm_id flow_id ≡ true) where
  seen_flow : Flow
  seen_flow = record fs { bump_seq = n.bump_seq }

  accept-flow :
      (P : Flow → Type 0)
      → P (bump_apply seen_flow n)
      → Returns (bump_accept core seen_flow mem flow_id n ts) (λ r. P r.flow)
  unfolding bump_accept update_queue seen_flow
  accept-flow P h =
      elim (Bool-cases (
        ltb (tcp_txavail seen_flow) (tcp_txavail_of seen_flow (bump_apply seen_flow n).tx_avail))) [
          | inl a ↦ rw (a, ex) h
          | inr a ↦ rw a h
        ]

  seen-Ignores : (k : ℕ) → Ignores fs (record fs { bump_seq = k })
  seen-Ignores k = record {
    valid = ground arith;
    unacked = refl;
    same_flags = refl;
    same_tx = refl;
    same_rx = refl;
  }

  -- `fast_flows_bump` on a valid flow whose queue exists, whose transmit buffer is no longer than its
  -- receive buffer, with bumps below 2^32, returns.
  -- A refused notice leaves the buffers as they
  -- were. Any other makes exactly the received bytes that it names free and the bytes for transmission
  -- that it names available, but none of the latter on a flow with TXFIN; and the flow stays valid with
  -- the same unacknowledged byte.
  pub bump-Takes :
      fs.tx_len ≤ fs.rx_len
      → n.rx_bump < 2 ^ 32
      → n.tx_bump < 2 ^ 32
      → Returns
          (fast_flows_bump core fs mem flow_id n ts)
          (λ r. if refuses fs n then Ignores fs r.flow else Takes fs n r.flow)
  unfolding fast_flows_bump seen_flow
  bump-Takes l rb tb = elim (Bool-cases (bump_stale n.bump_seq fs.bump_seq)) [
    | inl a ↦ rw a (seen-Ignores fs.bump_seq)
    | inr a ↦ elim (Bool-cases (bump_empty_close fs n)) [
      | inl b ↦ rw (a, b) (seen-Ignores n.bump_seq)
      | inr b ↦ elim (Bool-cases (bump_too_large fs n.rx_bump (bump_tx fs n))) [
        | inl c ↦ rw (a, b, c) (seen-Ignores n.bump_seq)
        | inr c ↦ rw (a, b, c) (accept-flow (λ f. Takes fs n f) (apply-Takes fs n v l rb tb c))
      ]
    ]
  ]

  -- `fast_flows_bump` on a valid flow whose queue exists, with a notice that is not stale, sends nothing
  -- and does not close: if the bytes that it frees are no more than the receive buffer's length, and
  -- together with `rx_avail` more than that but no more than the transmit buffer's length, then it
  -- returns with `rx_avail` greater than the receive buffer's length.
  pub bump_overcommits :
      n.tx_bump ≡ 0
      → n.done ≡ false
      → bump_stale n.bump_seq fs.bump_seq ≡ false
      → n.rx_bump ≤ fs.rx_len
      → n.rx_bump + fs.rx_avail ≤ fs.tx_len
      → fs.rx_len < n.rx_bump + fs.rx_avail
      → Returns
          (fast_flows_bump core fs mem flow_id n ts)
          (λ r. (r.flow.rx_len ≡ fs.rx_len) × (fs.rx_len < r.flow.rx_avail))
  unfolding fast_flows_bump seen_flow
  bump_overcommits z d s l k o =
      rw (s, quiet, roomy)
        (accept-flow (λ f. (f.rx_len ≡ fs.rx_len) × (fs.rx_len < f.rx_avail)) grown)
    where
      quiet : bump_empty_close fs n ≡ false
      quiet = empty_close-not_done fs n d

      roomy : bump_too_large fs n.rx_bump (bump_tx fs n) ≡ false
      roomy = rx_only-roomy fs n v z l k

      grown :
          ((bump_apply seen_flow n).rx_len ≡ fs.rx_len)
          × (fs.rx_len < (bump_apply seen_flow n).rx_avail)
      grown = apply-grown fs n v l k o
