-- ===== src/Slow/Tcp/Connection/Good.antt =====
-- What each operation does for the timer, and the steps that arm it.
use tas.Base.{
  ℕ, zero, suc, ◌+◌, ◌-◌, ◌*◌, ◌/◌, ◌%◌, ◌^◌, ◌≤◌, ◌<◌, ◌≡◌, refl, sym, ap, subst, arith, Bool,
  true, false, not, ◌||◌, Option, none, some, List, [], ◌∷◌, ◌++◌, ltb, leb, ◌==◌, if◌then◌else◌,
  ◌∙◌, Bool-cases, inl, inr, if_yes, if_no, ◌>>=◌,
}
use native.Mathlib.Nat
use tas.Slow.Tcp.Connection.{
  ConnStatus, syn_sent, Conn, ConnEffect, control, arm, disarm, unregister, cc_init, cc_remove,
  app_opened, app_accepted, app_closed, free_port, free_buffers, free_flow, free_conn, ConnStep,
  TcpConfig, first_syn, tcp_mss_opt, send_control, conn_timeout_arm, conn_failed, conn_arp_done,
}
use tas.Slow.Tcp.Connection.Events.{handshake_timeout}
use tas.Slow.Tcp.Connection.Timer.{
  is_closed, has_timer, frees_port, grown, Retries, is_syn_sent, IsTimed, Outside, Fits,
  perform_all, perform, is_failed, is_accepted,
}

-- A step from the state `st` keeps the timer right and frees no port, and its effects do not abort.
pub record IsGood (conf : TcpConfig) (st : ConnStatus) (r : ConnStep) : Type 0 where
  pub timed : IsTimed conf r.0
  pub done :
      (o : Outside) → Fits st o → (q : Outside) × (perform_all r.1 o ≡ some q) × Fits r.0.status q
  pub kept : frees_port r.1 ≡ false

unfoldable pub Works : TcpConfig → ConnStatus → Option ConnStep → Type 0
Works conf before none = ⊥
Works conf before (some r) = IsGood conf before r

pub grown_le : (t n : ℕ) → t ≤ grown t n
unfolding grown
grown_le t zero = omega arith
grown_le t (suc n) = omega (arith, grown_le (2 * t) n)

pub frees-append :
    (xs ys : List ConnEffect) → frees_port xs ≡ false → frees_port (xs ++ ys) ≡ frees_port ys
unfolding frees_port
frees-append [] ys h = refl
frees-append (free_port ∷ xs) ys h = absurd (ground (arith, h))
frees-append (control c ∷ xs) ys h = frees-append xs ys h
frees-append (arm us ∷ xs) ys h = frees-append xs ys h
frees-append (disarm ∷ xs) ys h = frees-append xs ys h
frees-append (unregister ∷ xs) ys h = frees-append xs ys h
frees-append (cc_init ∷ xs) ys h = frees-append xs ys h
frees-append (cc_remove ∷ xs) ys h = frees-append xs ys h
frees-append (app_opened st ∷ xs) ys h = frees-append xs ys h
frees-append (app_accepted ∷ xs) ys h = frees-append xs ys h
frees-append (app_closed ∷ xs) ys h = frees-append xs ys h
frees-append (free_buffers ∷ xs) ys h = frees-append xs ys h
frees-append (free_flow ∷ xs) ys h = frees-append xs ys h
frees-append (free_conn ∷ xs) ys h = frees-append xs ys h

pub failed-IsGood :
    (conf : TcpConfig) (before : ConnStatus) (c : Conn) (st : ℕ)
    → is_failed before ≡ false
    → IsGood conf before (conn_failed c st)
unfolding conn_failed frees_port Fits perform_all perform is_failed is_accepted has_timer
    is_syn_sent is_closed Retries
failed-IsGood conf before c st n = record {
  timed = record { timer = refl; retries = tt };
  kept = quiet c.to_armed;
  done = λ o f.
      let there : o.registered ≡ true = f.0 ∙ ap not n in
      (
        record o { registered = false },
        ap
              (λ q. q >>= (λ u.
                perform_all ((if c.to_armed then disarm ∷ [] else []) ++ (app_opened st ∷ [])) u))
              (if_yes (some (record o { registered = false })) none there)
            ∙ told c.to_armed (record o { registered = false }),
        (refl, λ e. absurd (ground (arith, e))),
      );
}
  where
    told :
        (b : Bool) (o : Outside)
        → perform_all ((if b then disarm ∷ [] else []) ++ (app_opened st ∷ [])) o ≡ some o
    told true o = refl
    told false o = refl

    quiet :
        (b : Bool) → frees_port ((if b then disarm ∷ [] else []) ++ (app_opened st ∷ [])) ≡ false
    quiet true = refl
    quiet false = refl

-- nothing happens
pub idle :
    (conf : TcpConfig) (before : ConnStatus) (c : Conn)
    → c.status ≡ before
    → IsTimed conf c
    → IsGood conf before (c, [])
unfolding frees_port perform_all
idle conf before c e i = record {
  timed = i;
  kept = refl;
  done = λ o f. (o, refl, subst (λ s. Fits s o) (sym e) f);
}

-- what is waited for is less than one and a half of the time
pub wait_short : (random t : ℕ) → 0 < t → 3 * t ≤ 2 ^ 28 → (t / 2 + random % t) % 2 ^ 32 < 2 ^ 27
wait_short random t p h = let below : random % t < t = Nat.mod-lt random p in omega (arith, below)

short_now : (conf : TcpConfig) (c : Conn) → Retries conf c false → 3 * c.timeout ≤ 2 ^ 28
unfolding Retries
short_now conf c r =
    omega (arith, grown_le c.timeout (conf.tcp_handshake_retries - c.to_attempts), r.2)

vacuous : (o : Outside) → o.registered ≡ true → Fits syn_sent o
unfolding Fits is_failed is_accepted
vacuous o h = (h, λ e. absurd (ground (arith, e)))

-- the timer armed for the handshake
arm-Works :
    (conf : TcpConfig) (random : ℕ) (before : ConnStatus) (c e : Conn)
    → is_failed before ≡ false
    → c.status ≡ syn_sent
    → c.to_armed ≡ false
    → Retries conf c false
    → Works conf before (
        conn_timeout_arm random c
        >>= (λ r. some (r.0, r.1 ++ (send_control e first_syn (some 0) tcp_mss_opt ∷ []))))
unfolding conn_timeout_arm Works Retries frees_port has_timer is_syn_sent is_closed send_control
    Fits perform_all perform is_failed is_accepted
arm-Works conf random before c e n st a r =
    let us = (c.timeout / 2 + random % c.timeout) % 2 ^ 32 in
    let going : (c.to_armed || (c.timeout == 0 || leb (2 ^ 27) us)) ≡ false =
      ground (arith, a, r.0, wait_short random c.timeout r.0 (short_now conf c r)) in
    let send = λ (o : Option ConnStep).
      o >>= (λ q. some (q.0, q.1 ++ (send_control e first_syn (some 0) tcp_mss_opt ∷ []))) in
    subst (λ o. Works conf before (send o)) (sym (if_no none _ going))
      (record {
        timed = record {
          timer = sym (ap has_timer st);
          retries =
              subst (λ q. Retries conf (record c { to_armed = true }) (not (is_syn_sent q)))
                (sym st) r;
        };
        kept = refl;
        done = λ o f. (o, refl, subst (λ s. Fits s o) (sym st) (vacuous o (f.0 ∙ ap not n)));
      })

-- The configuration's times can be armed.
unfoldable pub IsFit : TcpConfig → Type 0
IsFit conf =
    (0 < conf.tcp_handshake_to)
    × (3 * grown conf.tcp_handshake_to conf.tcp_handshake_retries ≤ 2 ^ 28)

pub arp-Works :
    (conf : TcpConfig) (random : ℕ) (before : ConnStatus) (c : Conn)
    → is_failed before ≡ false
    → IsFit conf
    → c.to_armed ≡ false
    → Works conf before (conn_arp_done conf random c)
unfolding conn_arp_done IsFit Retries
arp-Works conf random before c n f a =
    let d = record c { status = syn_sent; to_attempts = 0; timeout = conf.tcp_handshake_to } in
    let all : conf.tcp_handshake_retries ≡ conf.tcp_handshake_retries - 0 = omega arith in
    arm-Works conf random before d d n refl a
      (f.0, omega arith, subst (λ n. 3 * grown conf.tcp_handshake_to n ≤ 2 ^ 28) all f.1)

pub timeout-Works :
    (conf : TcpConfig) (random : ℕ) (c : Conn)
    → c.status ≡ syn_sent
    → Retries conf c false
    → Works conf syn_sent (handshake_timeout conf random c)
unfolding is_failed handshake_timeout Retries Works grown
timeout-Works conf random c st r =
    elim (Bool-cases (ltb conf.tcp_handshake_retries (c.to_attempts + 1))) [
      | inl y ↦ rw y (
          failed-IsGood conf syn_sent
            (record c { to_attempts = c.to_attempts + 1; to_armed = false }) 1 refl)
      | inr n ↦
          let left = conf.tcp_handshake_retries - (c.to_attempts + 1) in
          let more : conf.tcp_handshake_retries - c.to_attempts ≡ suc left = ground (arith, n) in
          let fits : 3 * grown (2 * c.timeout) left ≤ 2 ^ 28 =
            subst (λ k. 3 * grown c.timeout k ≤ 2 ^ 28) more r.2 in
          let twice : (c.timeout * 2) % 2 ^ 32 ≡ 2 * c.timeout =
            omega (arith, fits, grown_le (2 * c.timeout) left) in
          let d = record c {
            to_attempts = c.to_attempts + 1;
            to_armed = false;
            timeout = (c.timeout * 2) % 2 ^ 32;
          } in
          rw n (
            arm-Works conf random syn_sent d d refl st refl
              (omega (arith, twice, r.0), ground (arith, n), rw twice fits))
    ]
