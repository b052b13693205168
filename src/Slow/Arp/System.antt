-- ===== src/Slow/Arp/System.antt =====
-- The ARP cache with its timers, as a sequence of requests, packets and timeouts.
use tas.Base.{
  ℕ, ◌+◌, ◌^◌, ◌≤◌, ◌<◌, ◌≡◌, refl, sym, ap, subst, ◌∙◌, arith, Bool, true, false, not, Option,
  some, List, [], ◌∷◌, ◌++◌, ◌==◌, ==_iff, if◌then◌else◌, put, distinct, Bool-cases, inl, inr,
  ◌>>=◌,
}
use tas.Slow.Arp.{
  ArpConfig, ArpEntry, ArpEffect, request_tx, response_tx, timeout_arm, timeout_disarm, resolved,
  timed_out, Answer, found, pending, failed, ArpPacket, Step, arp_init, ae_lookup, store,
  arp_request, notify_all, fail_all, arp_packet, arp_timeout,
}
use tas.Slow.Arp.Waiting.{
  count, count-append, waiting, told, is_quiet, settled, ips, pending_at, lookup-ip,
  pending_at-lookup, waiting-store, ips-store, settled-store, pending_at-store, told-append,
}

pub data ArpEvent : Type 0 where
  request : (malloc : Bool) (comp ip : ℕ) → ArpEvent
  packet : ArpPacket → ArpEvent
  timeout : (ip : ℕ) → ArpEvent

-- The table, the timers that run, what has been done, and the completions that were told to wait.
pub record ArpState : Type 0 where
  pub table : List ArpEntry
  pub armed : ℕ → Bool
  pub log : List ArpEffect
  pub asked : List ℕ

-- the timers after the effects
unfoldable pub arm_by : List ArpEffect → (ℕ → Bool) → ℕ → Bool
arm_by [] armed = armed
arm_by (timeout_arm ip us ∷ es) armed = arm_by es (put armed ip true)
arm_by (timeout_disarm ip ∷ es) armed = arm_by es (put armed ip false)
arm_by (request_tx ip ∷ es) armed = arm_by es armed
arm_by (response_tx mac ip ∷ es) armed = arm_by es armed
arm_by (resolved comp mac ∷ es) armed = arm_by es armed
arm_by (timed_out comp ∷ es) armed = arm_by es armed

-- the completions that have to wait after the answer
unfoldable pub asked_by : ℕ → Answer → List ℕ
asked_by comp (found mac) = []
asked_by comp pending = comp ∷ []
asked_by comp failed = []

unfoldable pub after_step : ArpState → List ℕ → (ℕ → Bool) → Step → ArpState
after_step s comps armed r = record {
  table = r.0;
  armed = arm_by r.1 armed;
  log = r.1 ++ s.log;
  asked = comps ++ s.asked;
}

-- A timer fires only if it runs, and has stopped then. Nothing stands for `abort`.
unfoldable pub arp_event : ArpConfig → ArpEvent → ArpState → Option ArpState
arp_event conf (request malloc comp ip) s =
    arp_request conf malloc s.table comp ip
    >>= (λ r. some (after_step s (asked_by comp r.answer) s.armed (r.table, r.effects)))
arp_event conf (packet p) s = some (after_step s [] s.armed (arp_packet conf s.table p))
arp_event conf (timeout ip) s =
    if s.armed ip
    then arp_timeout conf s.table ip >>= (λ r. some (after_step s [] (put s.armed ip false) r))
    else some s

unfoldable pub arp_run : ArpConfig → List ArpEvent → ArpState → Option ArpState
arp_run conf [] s = some s
arp_run conf (e ∷ es) s = arp_event conf e s >>= (λ t. arp_run conf es t)

abbrev pub arp_start : ArpConfig → ArpState
arp_start conf = record { table = arp_init conf; armed = λ ip. false; log = []; asked = [] }

-- The times that are armed are below 2^27.
pub record IsTimed (conf : ArpConfig) : Type 0 where
  pub first : conf.arp_to < 2 ^ 27
  pub longest : conf.arp_to_max ≤ 2 ^ 27

-- No two entries share an address, nothing waits for a ready one, the timers that run are those of the
-- pending ones, and a completion that was told to wait either waits or was told a result, as often.
pub record IsSound (s : ArpState) : Type 0 where
  pub apart : distinct (ips s.table) ≡ true
  pub calm : settled s.table ≡ true
  pub timers : (ip : ℕ) → s.armed ip ≡ pending_at s.table ip
  pub kept : (c : ℕ) → waiting c s.table + told c s.log ≡ count c s.asked

pub arm_by-notify_all :
    (mac : ℕ) (l : List ℕ) (armed : ℕ → Bool) (j : ℕ) → arm_by (notify_all mac l) armed j ≡ armed j
unfolding arm_by notify_all
arm_by-notify_all mac [] armed j = refl
arm_by-notify_all mac (x ∷ xs) armed j = arm_by-notify_all mac xs armed j

pub arm_by-fail_all :
    (l : List ℕ) (armed : ℕ → Bool) (j : ℕ) → arm_by (fail_all l) armed j ≡ armed j
unfolding arm_by fail_all
arm_by-fail_all [] armed j = refl
arm_by-fail_all (x ∷ xs) armed j = arm_by-fail_all xs armed j

-- Nothing is waiting, armed or told by a step that leaves the table and has no such effects.
pub idle :
    (s : ArpState) (es : List ArpEffect)
    → ((c : ℕ) → told c es ≡ 0)
    → ((j : ℕ) → arm_by es s.armed j ≡ s.armed j)
    → IsSound s
    → IsSound (after_step s [] s.armed (s.table, es))
unfolding after_step
idle s es t a i = record {
  apart = i.apart;
  calm = i.calm;
  timers = λ j. a j ∙ i.timers j;
  kept = λ c. omega (arith, told-append c es s.log, t c, i.kept c);
}

-- A step that stores `e` for the entry `ae`.
pub stored :
    (s : ArpState) (ae e : ArpEntry) (comps : List ℕ) (armed : ℕ → Bool) (es : List ArpEffect)
    → ae_lookup s.table e.ip ≡ some ae
    → is_quiet e ≡ true
    → ((c : ℕ) → count c e.compl + told c es ≡ count c ae.compl + count c comps)
    → ((j : ℕ) → arm_by es armed j ≡ (if j == e.ip then not e.ready else s.armed j))
    → IsSound s
    → IsSound (after_step s comps armed (store e s.table, es))
unfolding after_step
stored s ae e comps armed es f calm told_all arm i =
    let at = e.ip in
    record {
      apart = subst (λ l. distinct l ≡ true) (sym (ips-store at ae e refl s.table f)) i.apart;
      calm = settled-store at ae e refl s.table f calm i.calm;
      timers = λ j.
          arm j
          ∙ ap (λ b. if j == at then not e.ready else b) (i.timers j)
          ∙ sym (pending_at-store at ae e refl j s.table f);
      kept = λ c. omega (
        arith,
        waiting-store at ae e refl c s.table f,
        told-append c es s.log,
        told_all c,
        count-append c comps s.asked,
        i.kept c,
      );
    }

pub same_ip :
    (s : ArpState) (ip : ℕ) (ae e : ArpEntry)
    → ae_lookup s.table ip ≡ some ae
    → e.ip ≡ ae.ip
    → ae_lookup s.table e.ip ≡ some ae
same_ip s ip ae e f h = let at : e.ip ≡ ip = h ∙ lookup-ip s.table ip ae f in rw at f

-- the timer of an entry of the table
pub armed_at :
    (s : ArpState) (ip : ℕ) (ae : ArpEntry)
    → ae_lookup s.table ip ≡ some ae
    → IsSound s
    → (j : ℕ) → s.armed j ≡ (if j == ae.ip then not ae.ready else s.armed j)
armed_at s ip ae f i j = elim (Bool-cases (j == ae.ip)) [
  | inr n ↦ rw n refl
  | inl y ↦
      let at : j ≡ ip = (==_iff j ae.ip).0 y ∙ lookup-ip s.table ip ae f in
      let now = i.timers ip ∙ pending_at-lookup s.table ip ae f in rw (y, at) now
]
