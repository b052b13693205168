-- ===== src/Slow/Arp/Requests.antt =====
-- Requests and packets keep the cache sound.
use tas.Base.{
  ℕ, ◌+◌, ◌^◌, ◌≡◌, refl, ◌∙◌, arith, Bool, true, false, not, Option, none, some, [], ◌∷◌, ◌++◌,
  ◌==◌, leb, if◌then◌else◌, put, Bool-cases, inl, inr,
}
use tas.Slow.Arp.{
  ArpConfig, ArpEntry, response_tx, timeout_disarm, ArpPacket, ArpResult, ae_lookup, store,
  wait_for, request_known, request_new, request_by, notify_all, reply_by, arp_packet,
}
use tas.Slow.Arp.Waiting.{
  count, waiting, told, is_quiet, settled, ips, pending_at, lookup-none, told-notify_all,
}
use tas.Slow.Arp.System.{
  ArpState, arm_by, asked_by, after_step, IsTimed, IsSound, idle, stored, same_ip, armed_at,
  arm_by-notify_all,
}

pushed :
    (s : ArpState) (comp ip : ℕ) (ae : ArpEntry)
    → ae_lookup s.table ip ≡ some ae
    → ae.ready ≡ false
    → IsSound s
    → IsSound (after_step s (comp ∷ []) s.armed (store (wait_for comp ae) s.table, []))
unfolding wait_for is_quiet told count arm_by
pushed s comp ip ae f n i =
    let calm : not ae.ready ≡ true = rw n refl in
    stored s ae (wait_for comp ae) (comp ∷ []) s.armed []
      (same_ip s ip ae (wait_for comp ae) f refl) calm (λ c. omega arith) (armed_at s ip ae f i) i

request_known_lem :
    (s : ArpState) (comp ip : ℕ) (ae : ArpEntry)
    → ae_lookup s.table ip ≡ some ae
    → IsSound s
    → IsSound (
        after_step s
          (asked_by comp (request_known s.table comp ae).answer)
          s.armed
          ((request_known s.table comp ae).table, (request_known s.table comp ae).effects))
unfolding request_known asked_by told arm_by
request_known_lem s comp ip ae f i = elim (Bool-cases ae.ready) [
  | inl y ↦ rw y (idle s [] (λ c. refl) (λ j. refl) i)
  | inr n ↦ simp (n) (pushed s comp ip ae f n i)
]

request_new_lem :
    (conf : ArpConfig) (malloc : Bool) (s : ArpState) (comp ip : ℕ)
    → IsTimed conf
    → ae_lookup s.table ip ≡ none
    → IsSound s
    → (r : ArpResult) × (request_new conf malloc s.table comp ip ≡ some r)
      × IsSound (after_step s (asked_by comp r.answer) s.armed (r.table, r.effects))
unfolding request_new asked_by after_step ips settled is_quiet pending_at waiting told count arm_by
request_new_lem conf false s comp ip t f i = (_, refl, idle s [] (λ c. refl) (λ j. refl) i)
request_new_lem conf true s comp ip t f i =
    let armed : leb (2 ^ 27) conf.arp_to ≡ false = ground (arith, t.first) in
    rw armed (
      _,
      refl,
      record {
        apart = let out = lookup-none s.table ip f in rw out i.apart;
        calm = i.calm;
        timers = timer;
        kept = λ c. omega (arith, i.kept c);
      },
    )
  where
    timer : (j : ℕ) → put s.armed ip true j ≡ (if ip == j then true else pending_at s.table j)
    timer j = elim (Bool-cases (ip == j)) [
      | inl y ↦ let z : (j == ip) ≡ true = ground (arith, y) in rw (y, z) refl
      | inr n ↦ let z : (j == ip) ≡ false = ground (arith, n) in rw (n, z) (i.timers j)
    ]

pub request_by_lem :
    (conf : ArpConfig) (malloc : Bool) (s : ArpState) (comp ip : ℕ) (o : Option ArpEntry)
    → IsTimed conf
    → ae_lookup s.table ip ≡ o
    → IsSound s
    → (r : ArpResult) × (request_by conf malloc s.table comp ip o ≡ some r)
      × IsSound (after_step s (asked_by comp r.answer) s.armed (r.table, r.effects))
unfolding request_by
request_by_lem conf malloc s comp ip none t f i = request_new_lem conf malloc s comp ip t f i
request_by_lem conf malloc s comp ip (some ae) t f i =
    (request_known s.table comp ae, refl, request_known_lem s comp ip ae f i)

reply_by_lem :
    (s : ArpState) (ip mac : ℕ) (o : Option ArpEntry)
    → ae_lookup s.table ip ≡ o
    → IsSound s
    → IsSound (after_step s [] s.armed (reply_by s.table mac o))
unfolding reply_by is_quiet count told arm_by
reply_by_lem s ip mac none f i = idle s [] (λ c. refl) (λ j. refl) i
reply_by_lem s ip mac (some ae) f i =
    let e = record ae { ready = true; mac = mac; compl = [] } in
    stored s ae e [] s.armed
      ((if ae.ready then [] else timeout_disarm ae.ip ∷ []) ++ notify_all mac ae.compl)
      (same_ip s ip ae e f refl) refl (tells ae.ready) timer i
  where
    tells :
        (b : Bool) (c : ℕ)
        → 0 + told c ((if b then [] else timeout_disarm ae.ip ∷ []) ++ notify_all mac ae.compl)
          ≡ count c ae.compl + 0
    tells true c = omega (arith, told-notify_all c mac ae.compl)
    tells false c = omega (arith, told-notify_all c mac ae.compl)

    timer :
        (j : ℕ)
        → arm_by
            ((if ae.ready then [] else timeout_disarm ae.ip ∷ []) ++ notify_all mac ae.compl)
            s.armed
            j
          ≡ (if j == ae.ip then false else s.armed j)
    timer j = elim (Bool-cases ae.ready) [
      | inl y ↦
          let same : s.armed j ≡ (if j == ae.ip then false else s.armed j) =
            rw y at (armed_at s ip ae f i j) in
          rw y (arm_by-notify_all mac ae.compl s.armed j ∙ same)
      | inr n ↦ rw n (arm_by-notify_all mac ae.compl (put s.armed ae.ip false) j)
    ]

pub packet_lem :
    (conf : ArpConfig) (s : ArpState) (p : ArpPacket)
    → IsSound s
    → IsSound (after_step s [] s.armed (arp_packet conf s.table p))
unfolding arp_packet told arm_by
packet_lem conf s p i = elim (Bool-cases p.is_ipv4) [
  | inr n ↦ rw n (idle s [] (λ c. refl) (λ j. refl) i)
  | inl y ↦ elim (Bool-cases (p.oper == 1)) [
    | inl z ↦ rw (y, z) (answers (p.tpa == conf.ip))
    | inr z ↦ elim (Bool-cases (p.oper == 2)) [
      | inl w ↦ rw (y, z, w) (reply_by_lem s p.spa p.sha (ae_lookup s.table p.spa) refl i)
      | inr w ↦ rw (y, z, w) (idle s [] (λ c. refl) (λ j. refl) i)
    ]
  ]
]
  where
    answers :
        (b : Bool)
        → IsSound
            (after_step s [] s.armed (s.table, if b then response_tx p.sha p.spa ∷ [] else []))
    answers true = idle s (response_tx p.sha p.spa ∷ []) (λ c. refl) (λ j. refl) i
    answers false = idle s [] (λ c. refl) (λ j. refl) i
