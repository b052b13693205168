-- ===== src/Slow/Tcp/Connection/Steps.antt =====
-- Each operation leaves the timer as the state demands, and frees no port.
use tas.Base.{
  ℕ, ◌≡◌, refl, sym, ap, subst, ◌∙◌, arith, Bool, true, false, not, ◌||◌, Option, none, some, [],
  ◌∷◌, ◌++◌, add32, has, ◌==◌, if◌then◌else◌, Bool-cases, inl, inr, if_yes, if_no, ◌>>=◌,
}
use tas.Slow.Nicif.Connections.{Disabled}
use tas.Slow.Tcp.Connection.{
  ConnStatus, syn_wait, ovs_pending, ovs_comp, arp_pending, syn_sent, reg_synack, opened, closed,
  failed, Conn, arm, disarm, cc_remove, TcpConfig, TcpPacket, send_control, conn_timeout_disarm,
  confirms_ecn, is_syn_ack, syn_sent_open, syn_sent_by, conn_syn_sent_packet, syn_again, packet_in,
  conn_packet,
}
use tas.Slow.Tcp.Connection.Events.{
  to_handshake, to_closed, timeout_in, tcp_timeout, conn_close_timeout, conn_reg_synack, poll_in,
  tcp_poll, close_open, is_opened, tcp_close,
}
use tas.Slow.Tcp.Connection.Timer.{
  is_closed, has_timer, frees_port, Retries, is_syn_sent, IsTimed, Outside, perform, perform_all,
  Fits, is_failed, is_accepted,
}
use tas.Slow.Tcp.Connection.Good.{
  IsGood, Works, failed-IsGood, idle, IsFit, arp-Works, timeout-Works,
}

open_works :
    (conf : TcpConfig) (c : Conn) (p : TcpPacket) (ts : ℕ) (flow : Option ℕ)
    → c.to_armed ≡ false
    → IsGood conf syn_sent (syn_sent_open c p ts flow)
unfolding Fits perform_all perform is_failed is_accepted syn_sent_open frees_port has_timer
    is_syn_sent is_closed Retries send_control
open_works conf c p ts (some id) a = record {
  timed = record { timer = a; retries = tt };
  kept = refl;
  done = λ o f. (record o { in_cc = true }, refl, (f.0, λ h. refl));
}
open_works conf c p ts none a =
    let d = record c {
      remote_seq = add32 p.seqno 1;
      local_seq = p.ackno;
      syn_ts = ts;
      is_ecn = c.is_ecn || confirms_ecn p.flags;
    } in
    let f = failed-IsGood conf syn_sent d 1 refl in
    record {
      timed = f.timed;
      kept = f.kept;
      done = λ o g. f.done (record o { in_cc = true }) (g.0, λ h. refl);
    }

answer_works :
    (conf : TcpConfig) (c : Conn) (p : TcpPacket) (o flow : Option ℕ)
    → c.to_armed ≡ false
    → IsGood conf syn_sent (syn_sent_by c p o flow)
unfolding is_failed syn_sent_by
answer_works conf c p none flow a = failed-IsGood conf syn_sent c 1 refl
answer_works conf c p (some ts) flow a = elim (Bool-cases (is_syn_ack p.flags)) [
  | inl y ↦ rw y (open_works conf c p ts flow a)
  | inr n ↦ rw n (failed-IsGood conf syn_sent c 1 refl)
]

syn_sent-Works :
    (conf : TcpConfig) (c : Conn) (p : TcpPacket) (flow : Option ℕ)
    → c.to_armed ≡ true
    → Works conf syn_sent (conn_syn_sent_packet c p flow)
unfolding perform_all perform conn_syn_sent_packet conn_timeout_disarm Works frees_port
syn_sent-Works conf c p flow a =
    let d = record c { to_armed = false } in
    let f = answer_works conf d p p.ts_val flow refl in
    subst
      (λ o. Works conf syn_sent (
        o >>= (λ r.
          some ((syn_sent_by r.0 p p.ts_val flow).0, r.1 ++ (syn_sent_by r.0 p p.ts_val flow).1))))
      (sym (if_yes (some (d, disarm ∷ [])) none a))
      (record { timed = f.timed; kept = f.kept; done = λ o g. f.done o g })

again_works :
    (conf : TcpConfig) (c : Conn) (o : Option ℕ)
    → c.status ≡ opened
    → IsTimed conf c
    → IsGood conf opened (syn_again c o)
unfolding is_failed perform_all perform syn_again frees_port send_control
again_works conf c none e i = failed-IsGood conf opened c 1 refl
again_works conf c (some ts) e i = record {
  timed = i;
  kept = refl;
  done = λ o f. (o, refl, subst (λ s. Fits s o) (sym e) f);
}

packet-Works :
    (conf : TcpConfig) (c : Conn) (p : TcpPacket) (flow : Option ℕ) (st : ConnStatus)
    → c.status ≡ st
    → IsTimed conf c
    → Works conf st (packet_in st c p flow)
unfolding perform_all perform packet_in Works has_timer frees_port send_control
packet-Works conf c p flow syn_sent e i = syn_sent-Works conf c p flow (i.timer ∙ ap has_timer e)
packet-Works conf c p flow opened e i = elim (Bool-cases (p.flags == 2)) [
  | inl y ↦ rw y (again_works conf c p.ts_val e i)
  | inr n ↦ rw n (idle conf opened c e i)
]
packet-Works conf c p flow closed e i = elim (Bool-cases (has p.flags 1)) [
  | inl y ↦
      rw y (record {
        timed = i;
        kept = refl;
        done = λ o f. (o, refl, subst (λ s. Fits s o) (sym e) f);
      })
  | inr n ↦ rw n (idle conf closed c e i)
]
packet-Works conf c p flow syn_wait e i = idle conf syn_wait c e i
packet-Works conf c p flow ovs_pending e i = idle conf ovs_pending c e i
packet-Works conf c p flow ovs_comp e i = idle conf ovs_comp c e i
packet-Works conf c p flow arp_pending e i = idle conf arp_pending c e i
packet-Works conf c p flow reg_synack e i = idle conf reg_synack c e i
packet-Works conf c p flow failed e i = idle conf failed c e i

pub conn_packet-Works :
    (conf : TcpConfig) (c : Conn) (p : TcpPacket) (flow : Option ℕ)
    → IsTimed conf c
    → Works conf c.status (conn_packet c p flow)
unfolding conn_packet
conn_packet-Works conf c p flow i = packet-Works conf c p flow c.status refl i

poll-Works :
    (conf : TcpConfig) (random : ℕ) (ok : Bool) (c : Conn) (st : ConnStatus)
    → IsFit conf
    → c.status ≡ st
    → IsTimed conf c
    → Works conf st (poll_in conf random ok st c)
unfolding Fits perform_all perform is_failed is_accepted poll_in Works has_timer frees_port
    send_control conn_reg_synack is_syn_sent Retries
poll-Works conf random true c arp_pending f e i =
    arp-Works conf random arp_pending c refl f (i.timer ∙ ap has_timer e)
poll-Works conf random false c arp_pending f e i = failed-IsGood conf arp_pending c 1 refl
poll-Works conf random true c reg_synack f e i = record {
  timed = record { timer = i.timer ∙ ap has_timer e; retries = tt };
  kept = refl;
  done = λ o g. (o, refl, g);
}
poll-Works conf random false c reg_synack f e i = failed-IsGood conf reg_synack c 1 refl
poll-Works conf random ok c syn_wait f e i = idle conf syn_wait c e i
poll-Works conf random ok c ovs_pending f e i = idle conf ovs_pending c e i
poll-Works conf random ok c ovs_comp f e i = idle conf ovs_comp c e i
poll-Works conf random ok c syn_sent f e i = idle conf syn_sent c e i
poll-Works conf random ok c opened f e i = idle conf opened c e i
poll-Works conf random ok c closed f e i = idle conf closed c e i
poll-Works conf random ok c failed f e i = idle conf failed c e i

pub tcp_poll-Works :
    (conf : TcpConfig) (random : ℕ) (ok : Bool) (c : Conn)
    → IsFit conf
    → IsTimed conf c
    → Works conf c.status (tcp_poll conf random ok c)
unfolding tcp_poll
tcp_poll-Works conf random ok c f i = poll-Works conf random ok c c.status f refl i

close-Works :
    (conf : TcpConfig) (c : Conn) (r : Disabled)
    → c.to_armed ≡ false
    → Works conf opened (close_open c r)
unfolding Fits perform_all perform is_failed is_accepted close_open Works has_timer is_syn_sent
    is_closed Retries frees_port send_control
close-Works conf c r a = subst (Works conf opened) (sym (if_no none _ a)) (record {
  timed = record { timer = refl; retries = tt };
  kept = quiet (not r.tx_closed || not r.rx_closed);
  done = λ o f. (
    record o { in_cc = false },
    removes (not r.tx_closed || not r.rx_closed) o (f.1 refl),
    (f.0, λ h. absurd (ground (arith, h))),
  );
})
  where
    removes :
        (b : Bool) (o : Outside)
        → o.in_cc ≡ true
        → perform_all
            ((if b
                then send_control
                    (record c { remote_seq = r.rx_seq; local_seq = r.tx_seq })
                    0x04
                    none
                    0
                  ∷ []
                else [])
              ++ (cc_remove ∷ arm 10000 ∷ []))
            o
          ≡ some (record o { in_cc = false })
    removes true o e = rw e refl
    removes false o e = rw e refl

    quiet :
        (b : Bool)
        → frees_port (
            (if b
              then send_control
                  (record c { remote_seq = r.rx_seq; local_seq = r.tx_seq })
                  0x04
                  none
                  0
                ∷ []
              else [])
            ++ (cc_remove ∷ arm 10000 ∷ []))
          ≡ false
    quiet true = refl
    quiet false = refl

opened_timer : (st : ConnStatus) → is_opened st ≡ true → has_timer st ≡ false
unfolding is_opened has_timer
opened_timer opened e = refl
opened_timer syn_sent e = absurd (ground (arith, e))
opened_timer closed e = absurd (ground (arith, e))
opened_timer syn_wait e = refl
opened_timer ovs_pending e = refl
opened_timer ovs_comp e = refl
opened_timer arp_pending e = refl
opened_timer reg_synack e = refl
opened_timer failed e = refl

is_opened_only : (st : ConnStatus) → is_opened st ≡ true → st ≡ opened
unfolding is_opened
is_opened_only opened e = refl
is_opened_only syn_sent e = absurd (ground (arith, e))
is_opened_only closed e = absurd (ground (arith, e))
is_opened_only syn_wait e = absurd (ground (arith, e))
is_opened_only ovs_pending e = absurd (ground (arith, e))
is_opened_only ovs_comp e = absurd (ground (arith, e))
is_opened_only arp_pending e = absurd (ground (arith, e))
is_opened_only reg_synack e = absurd (ground (arith, e))
is_opened_only failed e = absurd (ground (arith, e))

pub tcp_close-Works :
    (conf : TcpConfig) (c : Conn) (r : Disabled)
    → IsTimed conf c
    → Works conf c.status (tcp_close c r)
unfolding tcp_close Works
tcp_close-Works conf c r i = elim (Bool-cases (is_opened c.status)) [
  | inl y ↦ rw y (
      subst (λ s. Works conf s (close_open c r)) (sym (is_opened_only c.status y))
        (close-Works conf c r (i.timer ∙ opened_timer c.status y)))
  | inr n ↦ rw n (idle conf c.status c refl i)
]

timer-Works :
    (conf : TcpConfig) (random : ℕ) (c : Conn) (st : ConnStatus)
    → c.status ≡ st
    → c.to_armed ≡ true
    → is_closed st ≡ false
    → IsTimed conf c
    → Works conf st (timeout_in conf random st to_handshake c)
unfolding timeout_in is_closed has_timer is_syn_sent
timer-Works conf random c syn_sent e a n i =
    timeout-Works conf random c e (subst (λ q. Retries conf c (not (is_syn_sent q))) e i.retries)
timer-Works conf random c closed e a n i = absurd (ground (arith, n))
timer-Works conf random c syn_wait e a n i =
    absurd (ground (arith, sym a ∙ i.timer ∙ ap has_timer e))
timer-Works conf random c ovs_pending e a n i =
    absurd (ground (arith, sym a ∙ i.timer ∙ ap has_timer e))
timer-Works conf random c ovs_comp e a n i =
    absurd (ground (arith, sym a ∙ i.timer ∙ ap has_timer e))
timer-Works conf random c arp_pending e a n i =
    absurd (ground (arith, sym a ∙ i.timer ∙ ap has_timer e))
timer-Works conf random c reg_synack e a n i =
    absurd (ground (arith, sym a ∙ i.timer ∙ ap has_timer e))
timer-Works conf random c opened e a n i = absurd (ground (arith, sym a ∙ i.timer ∙ ap has_timer e))
timer-Works conf random c failed e a n i = absurd (ground (arith, sym a ∙ i.timer ∙ ap has_timer e))

-- The timer of a connection that is not closed.
pub tcp_timeout-Works :
    (conf : TcpConfig) (random : ℕ) (c : Conn)
    → c.to_armed ≡ true
    → is_closed c.status ≡ false
    → IsTimed conf c
    → Works conf c.status (tcp_timeout conf random to_handshake c)
unfolding tcp_timeout
tcp_timeout-Works conf random c a n i =
    subst (Works conf c.status) (sym (if_yes _ none a))
      (timer-Works conf random c c.status refl a n i)

-- The timer of a closed connection.
pub closed_timeout :
    (conf : TcpConfig) (random : ℕ) (c : Conn)
    → c.to_armed ≡ true
    → tcp_timeout conf random to_closed c ≡ some (conn_close_timeout c)
unfolding tcp_timeout timeout_in
closed_timeout conf random c a = if_yes _ none a
