-- ===== src/Slow/Arp.antt =====
-- The ARP cache, tas/slow/arp.c: requests, packets and timeouts. The table is a list of entries; an
-- entry is named by its address, which no two entries share. A completion is named by a number.
-- The byte order of packets, the headers' constant fields and the wake-up of a waiting thread
-- through its file descriptor are left out, and sending a packet is an effect: its failure has none.
pub mod Waiting
pub mod System
mod Requests
pub mod Sound
pub mod Timing
use tas.Base.{
  ℕ, ◌+◌, ◌*◌, ◌%◌, ◌^◌, Bool, true, false, not, ◌&&◌, ◌||◌, Option, none, some, List, [], ◌∷◌,
  ◌++◌, ltb, leb, ◌==◌, if◌then◌else◌,
}

-- `config.ip`, `eth_addr`, `config.arp_to` and `config.arp_to_max`
pub record ArpConfig : Type 0 where
  pub ip : ℕ
  pub eth_addr : ℕ
  pub arp_to : ℕ
  pub arp_to_max : ℕ

-- `struct arp_entry`; `ready` is `status == 0`.
pub record ArpEntry : Type 0 where
  pub ready : Bool
  pub ip : ℕ
  pub mac : ℕ
  pub compl : List ℕ
  pub timeout : ℕ

pub data ArpEffect : Type 0 where
  request_tx : (dst_ip : ℕ) → ArpEffect
  response_tx : (dst_mac dst_ip : ℕ) → ArpEffect
  timeout_arm : (ip us : ℕ) → ArpEffect
  timeout_disarm : (ip : ℕ) → ArpEffect
  resolved : (comp mac : ℕ) → ArpEffect
  timed_out : (comp : ℕ) → ArpEffect

-- 0 with the address, 1 and -1
pub data Answer : Type 0 where
  found : ℕ → Answer
  pending : Answer
  failed : Answer

pub record ArpResult : Type 0 where
  pub answer : Answer
  pub table : List ArpEntry
  pub effects : List ArpEffect

unfoldable pub arp_init : ArpConfig → List ArpEntry
arp_init conf =
    record { ready = true; ip = conf.ip; mac = conf.eth_addr; compl = []; timeout = 0 } ∷ []

unfoldable pub ae_lookup : List ArpEntry → ℕ → Option ArpEntry
ae_lookup [] ip = none
ae_lookup (ae ∷ rest) ip = let later = ae_lookup rest ip in if ae.ip == ip then some ae else later

-- the entry with the address of `e` replaced by `e`
unfoldable pub store : ArpEntry → List ArpEntry → List ArpEntry
store e [] = []
store e (ae ∷ rest) = let later = store e rest in if ae.ip == e.ip then e ∷ rest else ae ∷ later

-- the entry with the address `ip` taken out
unfoldable pub drop_entry : ℕ → List ArpEntry → List ArpEntry
drop_entry ip [] = []
drop_entry ip (ae ∷ rest) =
    let later = drop_entry ip rest in if ae.ip == ip then rest else ae ∷ later

-- the completion `comp` put in front of those that wait
unfoldable pub wait_for : ℕ → ArpEntry → ArpEntry
wait_for comp ae = record ae { compl = comp ∷ ae.compl }

-- `arp_request` with an entry in the table
unfoldable pub request_known : List ArpEntry → ℕ → ArpEntry → ArpResult
request_known table comp ae =
    if ae.ready
    then record { answer = found ae.mac; table = table; effects = [] }
    else record { answer = pending; table = store (wait_for comp ae) table; effects = [] }

-- `arp_request` without one, given whether `malloc` has memory. `none` is the `abort` of
-- `util_timeout_arm` for a time of 2^27 or more.
unfoldable pub request_new : ArpConfig → Bool → List ArpEntry → (comp ip : ℕ) → Option ArpResult
request_new conf malloc table comp ip =
    if not malloc
    then some (record { answer = failed; table = table; effects = [] })
    else if leb (2 ^ 27) conf.arp_to
    then none
    else some (record {
      answer = pending;
      table =
          record { ready = false; ip = ip; mac = 0; compl = comp ∷ []; timeout = conf.arp_to }
          ∷ table;
      effects = request_tx ip ∷ timeout_arm ip conf.arp_to ∷ [];
    })

-- by what `ae_lookup` finds
unfoldable pub request_by :
    ArpConfig → Bool → List ArpEntry → (comp ip : ℕ) → Option ArpEntry → Option ArpResult
request_by conf malloc table comp ip none = request_new conf malloc table comp ip
request_by conf malloc table comp ip (some ae) = some (request_known table comp ae)

unfoldable pub arp_request : ArpConfig → Bool → List ArpEntry → (comp ip : ℕ) → Option ArpResult
arp_request conf malloc table comp ip = request_by conf malloc table comp ip (ae_lookup table ip)

-- The fields of an ARP packet that are read. `is_ipv4` is the test of the types and lengths.
pub record ArpPacket : Type 0 where
  pub is_ipv4 : Bool
  pub oper : ℕ
  pub sha : ℕ
  pub spa : ℕ
  pub tpa : ℕ

unfoldable pub notify_all : ℕ → List ℕ → List ArpEffect
notify_all mac [] = []
notify_all mac (comp ∷ rest) = resolved comp mac ∷ notify_all mac rest

unfoldable pub fail_all : List ℕ → List ArpEffect
fail_all [] = []
fail_all (comp ∷ rest) = timed_out comp ∷ fail_all rest

-- the end of a request: the table and the effects
abbrev pub Step : Type 0
Step = List ArpEntry × List ArpEffect

-- a reply from `mac`, by what `ae_lookup` finds
unfoldable pub reply_by : List ArpEntry → ℕ → Option ArpEntry → Step
reply_by table mac none = (table, [])
reply_by table mac (some ae) = (
  store (record ae { ready = true; mac = mac; compl = [] }) table,
  (if ae.ready then [] else timeout_disarm ae.ip ∷ []) ++ notify_all mac ae.compl,
)

unfoldable pub arp_packet : ArpConfig → List ArpEntry → ArpPacket → Step
arp_packet conf table p =
    if not p.is_ipv4
    then (table, [])
    else if p.oper == 1
    then (table, if p.tpa == conf.ip then response_tx p.sha p.spa ∷ [] else [])
    else if p.oper == 2
    then reply_by table p.sha (ae_lookup table p.spa)
    else (table, [])

-- `ae->timeout * 2`
unfoldable pub doubled : ArpEntry → ℕ
doubled ae = (ae.timeout * 2) % 2 ^ 32

-- The timeout of the entry `ae`, or nothing for `abort`.
unfoldable pub timeout_of : ArpConfig → List ArpEntry → ArpEntry → Option Step
timeout_of conf table ae =
    if ae.ready
    then none
    else if leb conf.arp_to_max (doubled ae)
    then some (drop_entry ae.ip table, fail_all ae.compl)
    else if leb (2 ^ 27) (doubled ae)
    then none
    else some (
      store (record ae { timeout = doubled ae }) table,
      request_tx ae.ip ∷ timeout_arm ae.ip (doubled ae) ∷ [],
    )

-- The timeout of the address `ip`. The timer lies within its entry, so a timer without one is nothing
-- that the code can meet; here it does nothing.
unfoldable pub arp_timeout_by : ArpConfig → List ArpEntry → Option ArpEntry → Option Step
arp_timeout_by conf table none = some (table, [])
arp_timeout_by conf table (some ae) = timeout_of conf table ae

unfoldable pub arp_timeout : ArpConfig → List ArpEntry → ℕ → Option Step
arp_timeout conf table ip = arp_timeout_by conf table (ae_lookup table ip)
