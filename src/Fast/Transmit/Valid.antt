-- ===== src/Fast/Transmit/Valid.antt =====
-- What holds of a flow between two steps, and the point up to which its peer has acknowledged.
use tas.Base.{ℕ, ◌+◌, ◌-◌, ◌≤◌, ◌<◌, ◌^◌, ◌≡◌, refl, true, [], ◌∷◌, leb, if◌then◌else◌, sub32}
use tas.Fast.Flow.{Flow}
use tas.Fast.Transmit.{Outcome, abort, returns, update_queue, queue_exists, set_queue, tcp_mss}

pub record IsValid (fs : Flow) : Type 0 where
  pub rx_len_small : fs.rx_len < 2 ^ 31
  pub rx_pos_in : fs.rx_next_pos < fs.rx_len
  pub rx_fits : fs.rx_avail ≤ fs.rx_len
  pub rx_seq_word : fs.rx_next_seq < 2 ^ 32
  pub tx_len_small : fs.tx_len < 2 ^ 31
  pub tx_pos_in : fs.tx_next_pos < fs.tx_len
  pub tx_fits : fs.tx_avail + fs.tx_sent ≤ fs.tx_len
  pub tx_seq_word : fs.tx_next_seq < 2 ^ 32

-- the sequence number of the first unacknowledged byte, and its position in the transmit buffer
abbrev pub una_seq : Flow → ℕ
una_seq fs = sub32 fs.tx_next_seq fs.tx_sent

abbrev pub una_pos : Flow → ℕ
una_pos fs =
    if leb fs.tx_sent fs.tx_next_pos
    then fs.tx_next_pos - fs.tx_sent
    else fs.tx_next_pos + fs.tx_len - fs.tx_sent

-- The call returns, and `P` holds of the result.
abbrev pub Returns : {A : Type 0} → Outcome A → (A → Type 0) → Type 0
Returns abort P = ⊥
Returns (returns r) P = P r

-- What a step on the transmit side leaves as it was: the flow is valid, the first unacknowledged byte
-- has the same sequence number and position, and there are as many sent and unsent bytes together.
pub record KeepsUnacked (fs fs' : Flow) : Type 0 where
  pub valid : IsValid fs'
  pub same_seq : una_seq fs' ≡ una_seq fs
  pub same_pos : una_pos fs' ≡ una_pos fs
  pub same_bytes : fs'.tx_avail + fs'.tx_sent ≡ fs.tx_avail + fs.tx_sent

pub KeepsUnacked-refl : (fs : Flow) → IsValid fs → KeepsUnacked fs fs
KeepsUnacked-refl fs v = record { valid = v; same_seq = refl; same_pos = refl; same_bytes = refl }

-- A queue that exists can be set.
pub update_queue_lem :
    (fs : Flow) (flow_id avail : ℕ)
    → queue_exists fs.vm_id flow_id ≡ true
    → update_queue fs flow_id avail
      ≡ returns (
          set_queue (record {
            vm_id = fs.vm_id;
            flow_id = flow_id;
            rate = fs.tx_rate;
            avail = avail;
            max_chunk = tcp_mss;
          })
          ∷ [])
unfolding update_queue
update_queue_lem fs flow_id avail h = rw h
