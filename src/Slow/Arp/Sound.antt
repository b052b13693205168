-- ===== src/Slow/Arp/Sound.antt =====
-- The cache with its timers from the start on.
use tas.Base.{
  ℕ, ◌^◌, ◌≡◌, refl, sym, ap, ◌∙◌, arith, true, false, not, some, List, [], ◌∷◌, ◌==◌, leb,
  if◌then◌else◌, put, Bool-cases, Option-cases, inl, inr,
}
use tas.Slow.Arp.{
  ArpConfig, ArpEntry, request_tx, timeout_arm, Step, arp_init, ae_lookup, store, drop_entry,
  arp_request, fail_all, doubled, timeout_of, arp_timeout_by, arp_timeout,
}
use tas.Slow.Arp.Waiting.{
  count, waiting, told, is_quiet, settled, ips, pending_at, lookup-ip, pending_at-lookup,
  pending_at-none, waiting-drop, settled-drop, distinct-drop, pending_at-drop, told-append,
  told-fail_all,
}
use tas.Slow.Arp.System.{
  ArpEvent, request, packet, timeout, ArpState, arm_by, after_step, arp_event, arp_run, arp_start,
  IsTimed, IsSound, stored, same_ip, arm_by-fail_all,
}
use tas.Slow.Arp.Requests.{request_by_lem, packet_lem}

timed_out_lem :
    (s : ArpState) (ip : ℕ) (ae : ArpEntry)
    → ae_lookup s.table ip ≡ some ae
    → IsSound s
    → IsSound (after_step s [] (put s.armed ip false) (drop_entry ae.ip s.table, fail_all ae.compl))
unfolding after_step
timed_out_lem s ip ae f i =
    let at = lookup-ip s.table ip ae f in
    rw at (record {
      apart = distinct-drop ip s.table i.apart;
      calm = settled-drop ip s.table i.calm;
      timers = λ j.
          arm_by-fail_all ae.compl (put s.armed ip false) j
          ∙ ap (λ b. if j == ip then false else b) (i.timers j)
          ∙ sym (pending_at-drop ip j s.table i.apart);
      kept = λ c. omega (
        arith,
        waiting-drop ip ae c s.table f,
        told-append c (fail_all ae.compl) s.log,
        told-fail_all c ae.compl,
        i.kept c,
      );
    })

repeated_lem :
    (s : ArpState) (ip us : ℕ) (ae : ArpEntry)
    → ae_lookup s.table ip ≡ some ae
    → IsSound s
    → IsSound (
        after_step s [] (put s.armed ip false) (
          store (record ae { ready = false; timeout = us }) s.table,
          request_tx ae.ip ∷ timeout_arm ae.ip us ∷ [],
        ))
unfolding is_quiet told count arm_by
repeated_lem s ip us ae f i =
    let e = record ae { ready = false; timeout = us } in
    let at = lookup-ip s.table ip ae f in
    stored s ae e [] (put s.armed ip false) (request_tx ae.ip ∷ timeout_arm ae.ip us ∷ [])
      (same_ip s ip ae e f refl) (calm ae.compl) (λ c. refl) (λ j. rw at (again j)) i
  where
    again : (j : ℕ) → put (put s.armed ip false) ip true j ≡ (if j == ip then true else s.armed j)
    again j = elim (Bool-cases (j == ip)) [ inl y ↦ rw y refl | inr m ↦ rw m refl ]

    calm : (l : List ℕ) → (elim l [ [] ↦ true | c ∷ cs ↦ not false ]) ≡ true
    calm [] = refl
    calm (c ∷ cs) = refl

timeout_of_lem :
    (conf : ArpConfig) (s : ArpState) (ip : ℕ) (ae : ArpEntry)
    → IsTimed conf
    → ae_lookup s.table ip ≡ some ae
    → s.armed ip ≡ true
    → IsSound s
    → (r : Step) × (timeout_of conf s.table ae ≡ some r)
      × IsSound (after_step s [] (put s.armed ip false) r)
unfolding timeout_of
timeout_of_lem conf s ip ae t f a i =
    let p : not ae.ready ≡ true = sym (i.timers ip ∙ pending_at-lookup s.table ip ae f) ∙ a in
    let n : ae.ready ≡ false = ground (arith, p) in
    simp (n) (elim (Bool-cases (leb conf.arp_to_max (doubled ae))) [
      | inl y ↦ rw y (_, refl, timed_out_lem s ip ae f i)
      | inr m ↦
          let short : leb (2 ^ 27) (doubled ae) ≡ false = ground (arith, m, t.longest) in
          rw (m, short) (_, refl, repeated_lem s ip (doubled ae) ae f i)
    ])

-- A timer that runs has an entry, and the entry is pending, so its timeout does not abort.
timeout_lem :
    (conf : ArpConfig) (s : ArpState) (ip : ℕ)
    → IsTimed conf
    → s.armed ip ≡ true
    → IsSound s
    → (r : Step) × (arp_timeout conf s.table ip ≡ some r)
      × IsSound (after_step s [] (put s.armed ip false) r)
unfolding arp_timeout arp_timeout_by
timeout_lem conf s ip t a i = elim (Option-cases (ae_lookup s.table ip)) [
  | inl e ↦ absurd (ground (arith, sym a ∙ i.timers ip ∙ pending_at-none s.table ip e))
  | inr w ↦ rw (w.1) (timeout_of_lem conf s ip w.0 t w.1 a i)
]

pub event-IsSound :
    (conf : ArpConfig) (e : ArpEvent) (s : ArpState)
    → IsTimed conf
    → IsSound s
    → (t : ArpState) × (arp_event conf e s ≡ some t) × IsSound t
unfolding arp_event arp_request
event-IsSound conf (request malloc comp ip) s t i =
    let w = request_by_lem conf malloc s comp ip (ae_lookup s.table ip) t refl i in
    rw (w.1) (_, refl, w.2)
event-IsSound conf (packet p) s t i = (_, refl, packet_lem conf s p i)
event-IsSound conf (timeout ip) s t i = elim (Bool-cases (s.armed ip)) [
  | inr n ↦ rw n (s, refl, i)
  | inl a ↦
      let w = timeout_lem conf s ip t a i in
      rw (a, w.1) (after_step s [] (put s.armed ip false) w.0, refl, w.2)
]

events-IsSound :
    (conf : ArpConfig) (es : List ArpEvent) (s : ArpState)
    → IsTimed conf
    → IsSound s
    → (t : ArpState) × (arp_run conf es s ≡ some t) × IsSound t
unfolding arp_run
events-IsSound conf [] s t i = (s, refl, i)
events-IsSound conf (e ∷ es) s t i =
    let w = event-IsSound conf e s t i in rw (w.1) (events-IsSound conf es w.0 t w.2)

-- Let the first time of a request be below 2^27 microseconds, and the longest at most that. Any sequence
-- of requests, packets and fired timers after `arp_init` ends without `abort`. Then no two
-- entries share an address, nothing waits for a ready entry, the timers that run are those of the
-- addresses with a pending request, and each completion was told to wait as often as it now waits and
-- was told a result together.
pub run-IsSound :
    (conf : ArpConfig) (es : List ArpEvent)
    → IsTimed conf
    → (t : ArpState) × (arp_run conf es (arp_start conf) ≡ some t) × IsSound t
unfolding arp_init ips settled is_quiet pending_at waiting told count
run-IsSound conf es t = events-IsSound conf es (arp_start conf) t (record {
  apart = refl;
  calm = refl;
  timers = λ ip. elim (Bool-cases (conf.ip == ip)) [ inl y ↦ rw y refl | inr n ↦ rw n refl ];
  kept = λ c. refl;
})
