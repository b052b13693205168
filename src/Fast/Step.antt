-- ===== src/Fast/Step.antt =====
-- What a step of the fast path reads besides the flow, and what it does besides changing it.
use tas.Base.{ℕ, Bool, List}
use tas.Fast.Flow.{Flow}
use tas.Fast.Segment.{Segment}

-- The arguments of a call of `tas_qman_set`.
pub record QueueSet : Type 0 where
  pub vm_id : ℕ
  pub flow_id : ℕ
  pub rate : ℕ
  pub avail : ℕ
  pub max_chunk : ℕ

-- A notification for the application's queue: an entry of `arx_cache`, made by `arx_cache_add`.
pub record AppUpdate : Type 0 where
  pub ctx_id : ℕ
  pub vm_id : ℕ
  pub opaque : ℕ
  pub rx_bump : ℕ
  pub rx_pos : ℕ
  pub tx_bump : ℕ
  pub rx_done : Bool

-- What a step does besides changing the flow. Each `set_queue` here has the flags
-- QMAN_SET_RATE | QMAN_SET_MAXCHUNK | QMAN_SET_AVAIL. `charge vm n` adds `n` to `counters_total` and
-- to `vm_counters[vm]`.
pub data Effect : Type 0 where
  forward : ℕ → Effect
  notify : ℕ → Effect
  set_queue : QueueSet → Effect
  charge : ℕ → ℕ → Effect
  update_app : AppUpdate → Effect
  send : Segment → Effect

-- `abort` is the process abort of a failed `rte_ring_enqueue` or `tas_qman_set`.
pub data Outcome {ℓ} (A : Type ℓ) : Type ℓ where
  abort : Outcome A
  returns : A → Outcome A

-- `ok` is the return value 0 rather than -1.
pub record Result : Type 0 where
  pub ok : Bool
  pub flow : Flow
  pub effects : List Effect

-- The core that runs the step, with what it reads: the flow groups' cores, whether its forwarding
-- ring takes an entry, the packet format and whether it signals congestion.
pub record Core : Type 0 where
  pub id : ℕ
  pub steering : ℕ → ℕ
  pub ring_takes : Bool
  pub gre : Bool
  pub congested : Bool
