-- ===== src/Slow/Arp/Timing.antt =====
-- A request that is never answered ends.
use tas.Base.{
  ℕ, zero, suc, ◌+◌, ◌*◌, ◌^◌, ◌≡◌, ◌≤◌, ◌<◌, refl, sym, ap, ◌∙◌, arith, true, false, not, Option,
  some, none, List, [], ◌∷◌, ◌==◌, ==_iff, leb, put, Bool-cases, inl, inr, ◌>>=◌, some_inj, if_yes,
  if_no,
}
use tas.Slow.Arp.{
  ArpConfig, ArpEntry, request_tx, timeout_arm, Step, ae_lookup, store, drop_entry, fail_all,
  doubled, timeout_of, arp_timeout_by, arp_timeout,
}
use tas.Slow.Arp.Waiting.{
  count, told, pending_at, found_ind, lookup-ip, pending_at-lookup, pending_at-drop, told-append,
  told-fail_all,
}
use tas.Slow.Arp.System.{
  ArpEvent, timeout, ArpState, after_step, arp_event, arp_run, IsTimed, IsSound,
}
use tas.Slow.Arp.Sound.{event-IsSound}

-- `n` timeouts of the address in a row
unfoldable pub timeouts : ℕ → ℕ → List ArpEvent
timeouts ip zero = []
timeouts ip (suc n) = timeout ip ∷ timeouts ip n

-- `t` doubled `n` times
grown : ℕ → ℕ → ℕ
grown t zero = t
grown t (suc n) = grown (2 * t) n

-- The request for the address is given up, and who waits in `l` is told so.
pub record IsOver (ip : ℕ) (l : List ℕ) (s t : ArpState) : Type 0 where
  pub stopped : pending_at t.table ip ≡ false
  pub timers : t.armed ip ≡ false
  pub informed : (c : ℕ) → told c t.log ≡ told c s.log + count c l

lookup-store :
    (ip : ℕ) (ae e : ArpEntry) (table : List ArpEntry)
    → e.ip ≡ ip
    → ae_lookup table ip ≡ some ae
    → ae_lookup (store e table) ip ≡ some e
unfolding store ae_lookup
lookup-store ip ae e table same f =
    found_ind (λ t. ae_lookup (store e t) ip ≡ some e) ip ae
      (λ rest at.
        let y : (ae.ip == e.ip) ≡ true = (==_iff ae.ip e.ip).1 (omega arith) in
        let z : (e.ip == ip) ≡ true = (==_iff e.ip ip).1 same in rw (y, z) refl)
      (λ x rest n h. let m : (x.ip == e.ip) ≡ false = rw same n in rw (m, n) h) table f

-- what one timeout of a pending entry does
module _ (conf : ArpConfig) (s : ArpState) (ip : ℕ) (ae : ArpEntry)
    (f : ae_lookup s.table ip ≡ some ae) (r : ae.ready ≡ false) (i : IsSound s) where
  fires :
      (o : Option Step)
      → timeout_of conf s.table ae ≡ o
      → arp_event conf (timeout ip) s
        ≡ (o >>= (λ w. some (after_step s [] (put s.armed ip false) w)))
  unfolding arp_event arp_timeout arp_timeout_by
  fires o e =
      let a : s.armed ip ≡ true = i.timers ip ∙ pending_at-lookup s.table ip ae f ∙ ap not r in
      rw (a, f) (ap (λ o. o >>= (λ w. some (after_step s [] (put s.armed ip false) w))) e)

  gives_up :
      leb conf.arp_to_max (doubled ae) ≡ true
      → arp_event conf (timeout ip) s
        ≡ some
            (after_step s [] (put s.armed ip false) (drop_entry ae.ip s.table, fail_all ae.compl))
  unfolding timeout_of
  gives_up y =
      fires (some (drop_entry ae.ip s.table, fail_all ae.compl)) (if_no _ _ r ∙ if_yes _ _ y)

  repeats :
      conf.arp_to_max ≤ 2 ^ 27
      → leb conf.arp_to_max (doubled ae) ≡ false
      → arp_event conf (timeout ip) s
        ≡ some (
            after_step s [] (put s.armed ip false) (
              store (record ae { timeout = doubled ae }) s.table,
              request_tx ae.ip ∷ timeout_arm ae.ip (doubled ae) ∷ [],
            ))
  unfolding timeout_of
  repeats k m =
      fires
        (some (
          store (record ae { timeout = doubled ae }) s.table,
          request_tx ae.ip ∷ timeout_arm ae.ip (doubled ae) ∷ [],
        ))
        (if_no _ _ r ∙ if_no _ _ m ∙ if_no none _ short)
    where
      short : leb (2 ^ 27) (doubled ae) ≡ false
      short = ground (arith, k, m)

IsOver-gives_up :
    (s : ArpState) (ip : ℕ) (ae : ArpEntry)
    → ae_lookup s.table ip ≡ some ae
    → IsSound s
    → (t : ArpState)
    → t ≡ after_step s [] (put s.armed ip false) (drop_entry ae.ip s.table, fail_all ae.compl)
    → IsSound t
    → IsOver ip ae.compl s t
unfolding after_step
IsOver-gives_up s ip ae f i t e j =
    let gone : pending_at t.table ip ≡ false =
      ap (λ u. pending_at u.table ip) e
      ∙ ap (λ k. pending_at (drop_entry k s.table) ip) (lookup-ip s.table ip ae f)
      ∙ pending_at-drop ip ip s.table i.apart
      ∙ if_yes _ _ ((==_iff ip ip).1 refl) in
    record {
      stopped = gone;
      timers = j.timers ip ∙ gone;
      informed = λ c.
          ap (λ u. told c u.log) e
          ∙ omega (arith, told-append c (fail_all ae.compl) s.log, told-fail_all c ae.compl);
    }

idle_timeouts :
    (conf : ArpConfig) (n : ℕ) (s : ArpState) (ip : ℕ)
    → s.armed ip ≡ false
    → arp_run conf (timeouts ip n) s ≡ some s
unfolding arp_run timeouts arp_event
idle_timeouts conf zero s ip a = refl
idle_timeouts conf (suc n) s ip a = rw a (idle_timeouts conf n s ip a)

-- the first of the timeouts ends the request
ends_now :
    (conf : ArpConfig) (n : ℕ) (s : ArpState) (ip : ℕ) (ae : ArpEntry)
    → ae_lookup s.table ip ≡ some ae
    → ae.ready ≡ false
    → leb conf.arp_to_max (doubled ae) ≡ true
    → IsTimed conf
    → IsSound s
    → (t : ArpState) × (arp_run conf (timeouts ip (suc n)) s ≡ some t) × IsOver ip ae.compl s t
unfolding arp_run timeouts
ends_now conf n s ip ae f r y k i =
    let w = event-IsSound conf (timeout ip) s k i in
    let left =
      after_step s [] (put s.armed ip false) (drop_entry ae.ip s.table, fail_all ae.compl) in
    let t : w.0 ≡ left = some_inj (sym (w.1) ∙ gives_up conf s ip ae f r i y) in
    let over = IsOver-gives_up s ip ae f i w.0 t w.2 in
    (
      w.0,
      ap (λ o. o >>= (λ u. arp_run conf (timeouts ip n) u)) w.1
          ∙ idle_timeouts conf n w.0 ip over.timers,
      over,
    )

-- or leaves an entry with twice the time
ends_later :
    (conf : ArpConfig) (n : ℕ) (s : ArpState) (ip : ℕ) (ae : ArpEntry)
    → ae_lookup s.table ip ≡ some ae
    → ae.ready ≡ false
    → leb conf.arp_to_max (doubled ae) ≡ false
    → IsTimed conf
    → IsSound s
    → ((u : ArpState)
        → ae_lookup u.table ip ≡ some (record ae { timeout = doubled ae })
        → IsSound u
        → (t : ArpState) × (arp_run conf (timeouts ip n) u ≡ some t) × IsOver ip ae.compl u t)
    → (t : ArpState) × (arp_run conf (timeouts ip (suc n)) s ≡ some t) × IsOver ip ae.compl s t
unfolding arp_run timeouts after_step told
ends_later conf n s ip ae f r z k i next =
    let e = record ae { timeout = doubled ae } in
    let w = event-IsSound conf (timeout ip) s k i in
    let t = some_inj (sym (w.1) ∙ repeats conf s ip ae f r i k.longest z) in
    let there : ae_lookup (w.0.table) ip ≡ some e =
      ap (λ u. ae_lookup u.table ip) t
      ∙ lookup-store ip ae e s.table (lookup-ip s.table ip ae f) f in
    let log : (c : ℕ) → told c w.0.log ≡ told c s.log = λ c. ap (λ u. told c u.log) t in
    let rest = next w.0 there w.2 in
    (
      rest.0,
      ap (λ o. o >>= (λ u. arp_run conf (timeouts ip n) u)) w.1 ∙ rest.1,
      record {
        stopped = rest.2.stopped;
        timers = rest.2.timers;
        informed = λ c. omega (arith, rest.2.informed c, log c);
      },
    )

timeouts_end :
    (conf : ArpConfig) (n : ℕ) (s : ArpState) (ip : ℕ) (ae : ArpEntry)
    → IsTimed conf
    → ae_lookup s.table ip ≡ some ae
    → ae.ready ≡ false
    → ae.timeout < 2 ^ 31
    → conf.arp_to_max ≤ grown ae.timeout n
    → IsSound s
    → (t : ArpState) × (arp_run conf (timeouts ip (suc n)) s ≡ some t) × IsOver ip ae.compl s t
unfolding grown doubled
timeouts_end conf zero s ip ae m f r small g i =
    ends_now conf zero s ip ae f r (ground (arith, m.longest)) m i
timeouts_end conf (suc n) s ip ae m f r small g i =
    elim (Bool-cases (leb conf.arp_to_max (doubled ae))) [
      | inl y ↦ ends_now conf (suc n) s ip ae f r y m i
      | inr z ↦
          let e = record ae { timeout = doubled ae } in
          let twice : doubled ae ≡ 2 * ae.timeout = omega arith in
          let longest = m.longest in
          ends_later conf (suc n) s ip ae f r z m i (λ u there j.
            timeouts_end conf n u ip e m there r (ground (arith, z))
              (omega (arith, g, ap (λ k. grown k n) twice)) j)
    ]

-- Let the first time of the configuration be below 2^27 microseconds, and the longest at most that. In a
-- sound state, a request that is pending, with no reply, is given up after at most 32 timeouts, if its time
-- is not 0 and below 2^31: then no request for the address is pending, its timer does not run, and each
-- completion was told a result once more for each time it waited.
pub timeouts-IsOver :
    (conf : ArpConfig) (s : ArpState) (ip : ℕ) (ae : ArpEntry)
    → IsTimed conf
    → ae_lookup s.table ip ≡ some ae
    → ae.ready ≡ false
    → 0 < ae.timeout
    → ae.timeout < 2 ^ 31
    → IsSound s
    → (t : ArpState) × (arp_run conf (timeouts ip 32) s ≡ some t) × IsOver ip ae.compl s t
unfolding grown
timeouts-IsOver conf s ip ae m f r p small i =
    timeouts_end conf 31 s ip ae m f r small (omega arith) i
