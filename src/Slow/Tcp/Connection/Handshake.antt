-- ===== src/Slow/Tcp/Connection/Handshake.antt =====
-- A handshake that is never answered, and one whose SYN-ACK is lost.
use tas.Base.{
  ℕ, zero, suc, ◌+◌, ◌*◌, ◌/◌, ◌%◌, ◌^◌, ◌≤◌, ◌<◌, ◌≡◌, refl, sym, ap, subst, ◌∙◌, arith, true,
  false, Option, some, List, [], ◌∷◌, ◌++◌, ltb, leb, ◌==◌, if◌then◌else◌, length, if_no,
}
use tas.Slow.Tcp.Connection.{
  syn_sent, opened, failed, Conn, ConnEffect, control, arm, unregister, app_opened, TcpConfig,
  TcpPacket, first_syn, tcp_mss_opt, send_control, conn_timeout_arm, conn_failed, packet_in,
  conn_packet,
}
use tas.Slow.Tcp.Connection.Events.{handshake_timeout, timeout_in, tcp_timeout}
use tas.Slow.Tcp.Connection.Timer.{
  ConnEvent, timer, ConnState, is_closed, timer_type, after_event, live_event, conn_event, conn_run,
  grown, perform, perform_all,
}
use tas.Slow.Tcp.Connection.Good.{grown_le, wait_short}

unfoldable pub timers : List ℕ → List ConnEvent
timers [] = []
timers (random ∷ rs) = timer random ∷ timers rs

-- the number of SYNs of the handshake, and of results for the application
unfoldable pub tally : (ConnEffect → ℕ) → List ConnEffect → ℕ
tally f [] = 0
tally f (e ∷ es) = f e + tally f es

unfoldable pub is_syn : ConnEffect → ℕ
is_syn e = elim e [ control c ↦ if c.flags == first_syn then 1 else 0 | _ ↦ 0 ]

unfoldable pub is_failure : ConnEffect → ℕ
is_failure e = elim e [ app_opened st ↦ st | _ ↦ 0 ]

tally-append :
    (f : ConnEffect → ℕ) (xs ys : List ConnEffect) → tally f (xs ++ ys) ≡ tally f xs + tally f ys
unfolding tally
tally-append f [] ys = omega arith
tally-append f (x ∷ xs) ys = omega (arith, tally-append f xs ys)

-- a connection in the handshake, with its timer
abbrev pub calling : Conn → List ConnEffect → ConnState
calling c log = record {
  conn = record c { status = syn_sent; to_armed = true };
  outside = record { registered = true; in_cc = false };
  log = log;
  freed = false;
}

-- the next attempt
abbrev retried : Conn → Conn
retried c = record c { to_attempts = c.to_attempts + 1; timeout = (c.timeout * 2) % 2 ^ 32 }

abbrev waits : ℕ → ℕ → ℕ
waits random t = (t / 2 + random % t) % 2 ^ 32

again :
    (conf : TcpConfig) (random : ℕ) (c : Conn) (log : List ConnEffect)
    → c.to_attempts < conf.tcp_handshake_retries
    → 0 < (c.timeout * 2) % 2 ^ 32
    → 3 * ((c.timeout * 2) % 2 ^ 32) ≤ 2 ^ 28
    → conn_event conf (timer random) (calling c log)
      ≡ some (
          calling (retried c) (
            log
            ++ (arm (waits random ((c.timeout * 2) % 2 ^ 32))
                ∷ send_control c first_syn (some 0) tcp_mss_opt
                ∷ [])))
unfolding conn_event live_event timer_type is_closed tcp_timeout timeout_in handshake_timeout
    conn_timeout_arm after_event send_control perform_all perform
again conf random c log h p w =
    let less : ltb conf.tcp_handshake_retries (c.to_attempts + 1) ≡ false = ground (arith, h) in
    let some_time : ((c.timeout * 2) % 2 ^ 32 == 0) ≡ false = ground (arith, p) in
    let short : leb (2 ^ 27) (waits random ((c.timeout * 2) % 2 ^ 32)) ≡ false =
      ground (arith, wait_short random ((c.timeout * 2) % 2 ^ 32) p w) in
    rw (less, some_time, short) refl

gives_up :
    (conf : TcpConfig) (random : ℕ) (c : Conn) (log : List ConnEffect)
    → conf.tcp_handshake_retries ≤ c.to_attempts
    → conn_event conf (timer random) (calling c log)
      ≡ some (record {
        conn = record c { status = failed; to_armed = false; to_attempts = c.to_attempts + 1 };
        outside = record { registered = false; in_cc = false };
        log = log ++ (unregister ∷ app_opened 1 ∷ []);
        freed = false;
      })
unfolding conn_event live_event timer_type is_closed tcp_timeout timeout_in handshake_timeout
    conn_failed after_event perform_all perform
gives_up conf random c log h =
    let more : ltb conf.tcp_handshake_retries (c.to_attempts + 1) ≡ true = ground (arith, h) in
    rw more refl

-- The handshake is over, and failed: what was sent and told.
pub record IsGivenUp (n : ℕ) (log : List ConnEffect) (t : ConnState) : Type 0 where
  pub status : t.conn.status ≡ failed
  pub timer : t.conn.to_armed ≡ false
  pub syns : tally is_syn t.log ≡ tally is_syn log + n
  pub failures : tally is_failure t.log ≡ tally is_failure log + 1

-- A handshake of a connection in the table of connections, with `n` retries left, whose time is not 0 and,
-- doubled for each of them, at most a third of 2^28: without a packet it fails with timeout `n + 1`. The SYN has been sent `n` times more, the
-- application is told the failure once, and no timer is left.
pub handshake_ends :
    (conf : TcpConfig) (n : ℕ) (c : Conn) (log : List ConnEffect) (randoms : List ℕ)
    → c.to_attempts + n ≡ conf.tcp_handshake_retries
    → length randoms ≡ n + 1
    → 0 < c.timeout
    → 3 * grown c.timeout n ≤ 2 ^ 28
    → (t : ConnState) × (conn_run conf (timers randoms) (calling c log) ≡ some t)
      × IsGivenUp n log t
unfolding conn_run timers grown tally is_syn is_failure send_control
handshake_ends conf n c log [] a l p g = absurd (omega (arith, l))
handshake_ends conf zero c log (r ∷ []) a l p g = rw (gives_up conf r c log (omega (arith, a))) (
  _,
  refl,
  record {
    status = refl;
    timer = refl;
    syns = tally-append is_syn log (unregister ∷ app_opened 1 ∷ []);
    failures = tally-append is_failure log (unregister ∷ app_opened 1 ∷ []);
  },
)
handshake_ends conf zero c log (r ∷ q ∷ rs) a l p g = absurd (omega (arith, l))
handshake_ends conf (suc n) c log (r ∷ rs) a l p g =
    let fits = grown_le (2 * c.timeout) n in
    let twice : (c.timeout * 2) % 2 ^ 32 ≡ 2 * c.timeout = omega (arith, fits, g) in
    let more =
      arm (waits r ((c.timeout * 2) % 2 ^ 32))
      ∷ send_control c first_syn (some 0) tcp_mss_opt
      ∷ [] in
    let w =
      handshake_ends conf n (retried c) (log ++ more) rs (omega (arith, a)) (omega (arith, l))
        (omega (arith, twice, p)) (subst (λ k. 3 * grown k n ≤ 2 ^ 28) (sym twice) g) in
    rw
      (again conf r c log (omega (arith, a)) (omega (arith, twice, p))
        (omega (arith, twice, fits, g)))
      (
        w.0,
        w.1,
        record {
          status = w.2.status;
          timer = w.2.timer;
          syns = omega (arith, w.2.syns, tally-append is_syn log more);
          failures = omega (arith, w.2.failures, tally-append is_failure log more);
        },
      )

-- Let a connection in the state SYN_SENT, in the table of connections, have a retry left, and let its
-- doubled time, mod 2^32, be neither 0 nor more than a third of 2^28. The SYN that a timeout of the
-- handshake sends again offers ECN. An open connection that receives a packet with its flags, whatever
-- else is in it, does nothing: the lost SYN-ACK is not sent again.
pub syn_again_ignored :
    (conf : TcpConfig) (random : ℕ) (c d : Conn) (p : TcpPacket) (flow : Option ℕ)
    (log : List ConnEffect)
    → c.to_attempts < conf.tcp_handshake_retries
    → 0 < (c.timeout * 2) % 2 ^ 32
    → 3 * ((c.timeout * 2) % 2 ^ 32) ≤ 2 ^ 28
    → d.status ≡ opened
    → p.flags ≡ first_syn
    → (t : ConnState) × (conn_event conf (timer random) (calling c log) ≡ some t)
      × (tally is_syn t.log ≡ tally is_syn log + 1)
      × (conn_packet d p flow ≡ some (d, []))
unfolding tally is_syn send_control conn_packet packet_in
syn_again_ignored conf random c d p flow log h q w o f =
    let more =
      arm (waits random ((c.timeout * 2) % 2 ^ 32))
      ∷ send_control c first_syn (some 0) tcp_mss_opt
      ∷ [] in
    let other : (p.flags == 2) ≡ false = ground (arith, f) in
    (
      calling (retried c) (log ++ more),
      again conf random c log h q w,
      tally-append is_syn log more,
      ap (λ st. packet_in st d p flow) o ∙ if_no _ _ other,
    )
