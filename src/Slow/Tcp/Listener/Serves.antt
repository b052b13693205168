-- ===== src/Slow/Tcp/Listener/Serves.antt =====
-- One packet or accept, as a step of two queues.
use tas.Base.{
  ℕ, ◌<◌, ◌≡◌, refl, sym, ap, subst, ◌∙◌, arith, false, Option, none, some, List, [], ◌∷◌, ◌++◌,
  ltb, ◌==◌, if◌then◌else◌, Bool-cases, inl, inr, if_no,
}
use mathlib.Core.List.{append-nil, append_assoc}
use tas.Slow.Tcp.Listener.{
  Syn, Listener, ListenEffect, reset, newconn, accepted, refused, ListenStep, is_plain_syn,
  has_conn, pop_backlog, accept_with, accept_by, listener_accept, then_step, backlog_push, syn_len,
  accept_waiting, listener_packet, tcp_accept,
}
use tas.Slow.Tcp.Listener.Backlog.{IsRing, IsWhole, contents, push_lem, pop_lem}

-- the SYNs that came, those that were taken, and the connections that got one
unfoldable pub came : List ListenEffect → List Syn
came [] = []
came (newconn p ∷ es) = p ∷ came es
came (reset p ∷ es) = came es
came (accepted c id p ∷ es) = came es
came (refused p ∷ es) = came es

unfoldable pub taken : List ListenEffect → List Syn
taken [] = []
taken (accepted c id p ∷ es) = p ∷ taken es
taken (refused p ∷ es) = p ∷ taken es
taken (reset p ∷ es) = taken es
taken (newconn p ∷ es) = taken es

unfoldable pub served : List ListenEffect → List ℕ
served [] = []
served (accepted c id p ∷ es) = c ∷ served es
served (refused p ∷ es) = served es
served (reset p ∷ es) = served es
served (newconn p ∷ es) = served es

-- A step takes from the front of the two queues and adds `calls` at the end of the second.
pub record IsInOrder (l : Listener) (calls : List ℕ) (r : ListenStep) : Type 0 where
  pub ring : IsRing r.0
  pub syns : taken r.1 ++ contents r.0 ≡ contents l ++ came r.1
  pub conns : served r.1 ++ r.0.wait_conns ≡ l.wait_conns ++ calls

unfoldable pub Serves : Listener → List ℕ → Option ListenStep → Type 0
Serves l calls none = ⊥
Serves l calls (some r) = IsInOrder l calls r

idle : (l : Listener) → IsRing l → IsInOrder l [] (l, [])
unfolding taken came served
idle l i = record {
  ring = i;
  syns = sym (append-nil (contents l));
  conns = sym (append-nil l.wait_conns);
}

pub idle_run : (l : Listener) → IsRing l → Serves l [] (some (l, []))
unfolding Serves
idle_run l i = idle l i

resets : (l : Listener) (p : Syn) → IsRing l → IsInOrder l [] (l, reset p ∷ [])
unfolding taken came served
resets l p i = record {
  ring = i;
  syns = sym (append-nil (contents l));
  conns = sym (append-nil l.wait_conns);
}

accept-IsInOrder :
    (l : Listener) (c : ℕ) (rest : List ℕ) (o : Option ℕ)
    → l.wait_conns ≡ c ∷ rest
    → IsRing l
    → 0 < l.backlog_used
    → IsInOrder l [] (accept_with l c rest o)
unfolding accept_with taken came served pop_backlog contents
accept-IsInOrder l c rest none e i h =
    let w = pop_lem l i h in
    record {
      ring = w.0;
      syns = w.1 ∙ sym (append-nil (contents l));
      conns = sym (append-nil l.wait_conns);
    }
accept-IsInOrder l c rest (some id) e i h =
    let w = pop_lem (record l { wait_conns = rest }) (ring_of l rest i) h in
    record {
      ring = w.0;
      syns = w.1 ∙ sym (append-nil (contents l));
      conns = sym e ∙ sym (append-nil l.wait_conns);
    }
  where
    ring_of : (m : Listener) (r : List ℕ) → IsRing m → IsRing (record m { wait_conns = r })
    ring_of m r j = record { some_room = j.some_room; inside = j.inside; fits = j.fits }

by-Serves :
    (l : Listener) (c : ℕ) (rest : List ℕ) (add : Syn → Option ℕ)
    → l.wait_conns ≡ c ∷ rest
    → IsRing l
    → 0 < l.backlog_used
    → Serves l [] (listener_accept l add)
unfolding listener_accept accept_by Serves
by-Serves l c rest add e i h =
    let some_syn : (l.backlog_used == 0) ≡ false = ground (arith, h) in
    let flow =
      if (l.backlog l.backlog_pos).has_options then add (l.backlog l.backlog_pos) else none in
    subst (λ ws. Serves l [] (accept_by l ws add)) (sym e)
      (subst (Serves l []) (sym (if_no none _ some_syn)) (accept-IsInOrder l c rest flow e i h))

-- a step after a SYN was pushed
join :
    (l : Listener) (p : Syn) (o : Option ListenStep)
    → contents (backlog_push l p) ≡ contents l ++ (p ∷ [])
    → Serves (backlog_push l p) [] o
    → Serves l [] (then_step (newconn p ∷ []) o)
unfolding then_step Serves taken came served backlog_push
join l p none e s = absurd s
join l p (some r) e s = record {
  ring = s.ring;
  syns = s.syns ∙ ap (λ q. q ++ came r.1) e ∙ append_assoc (contents l) (p ∷ []) (came r.1);
  conns = s.conns;
}

pushed-Serves :
    (l : Listener) (p : Syn) (add : Syn → Option ℕ) (ws : List ℕ)
    → l.wait_conns ≡ ws
    → IsWhole p
    → IsRing l
    → l.backlog_used < l.backlog_len
    → Serves l [] (then_step (newconn p ∷ []) (accept_waiting (backlog_push l p) ws add))
unfolding accept_waiting backlog_push
pushed-Serves l p add [] e whole i h =
    let w = push_lem l p whole i h in
    join l p (some (backlog_push l p, [])) w.1 (idle_run (backlog_push l p) w.0)
pushed-Serves l p add (c ∷ rest) e whole i h =
    let w = push_lem l p whole i h in
    join l p (listener_accept (backlog_push l p) add) w.1
      (by-Serves (backlog_push l p) c rest add e w.0 (omega arith))

pub packet-Serves :
    (l : Listener) (p : Syn) (add : Syn → Option ℕ)
    → IsWhole p
    → IsRing l
    → Serves l [] (listener_packet l p add)
unfolding listener_packet Serves
packet-Serves l p add whole i = elim (Bool-cases (is_plain_syn p.flags)) [
  | inr n ↦ rw n (resets l p i)
  | inl y ↦ elim (Bool-cases (ltb 126 (syn_len p))) [
    | inl z ↦ rw (y, z) (idle l i)
    | inr z ↦ elim (Bool-cases (has_conn l p l.backlog_used l.backlog_pos)) [
      | inl k ↦ rw (y, z, k) (idle l i)
      | inr k ↦ elim (Bool-cases (l.backlog_len == l.backlog_used)) [
        | inl m ↦ rw (y, z, k, m) (idle l i)
        | inr m ↦
            rw (y, z, k, m)
              (pushed-Serves l p add l.wait_conns refl whole i (ground (arith, m, i.fits)))
      ]
    ]
  ]
]

-- the last of the connections that wait is `c`
last-Serves :
    (l : Listener) (c : ℕ) (add : Syn → Option ℕ) (ws : List ℕ)
    → l.wait_conns ≡ ws ++ (c ∷ [])
    → IsRing l
    → 0 < l.backlog_used
    → Serves l [] (listener_accept l add)
last-Serves l c add [] e i h = by-Serves l c [] add e i h
last-Serves l c add (d ∷ ds) e i h = by-Serves l d (ds ++ (c ∷ [])) add e i h

-- a connection at the end of those that wait
called :
    (l : Listener) (c : ℕ) (o : Option ListenStep)
    → Serves (record l { wait_conns = l.wait_conns ++ (c ∷ []) }) [] o
    → contents (record l { wait_conns = l.wait_conns ++ (c ∷ []) }) ≡ contents l
    → Serves l (c ∷ []) o
unfolding Serves
called l c none s e = s
called l c (some r) s e = record {
  ring = s.ring;
  syns = s.syns ∙ ap (λ q. q ++ came r.1) e;
  conns = s.conns ∙ append-nil (l.wait_conns ++ (c ∷ []));
}

pub accept-Serves :
    (l : Listener) (c : ℕ) (add : Syn → Option ℕ)
    → IsRing l
    → Serves l (c ∷ []) (tcp_accept l c add)
unfolding tcp_accept contents Serves
accept-Serves l c add i =
    let m = record l { wait_conns = l.wait_conns ++ (c ∷ []) } in
    let ring : IsRing m = record { some_room = i.some_room; inside = i.inside; fits = i.fits } in
    elim (Bool-cases (ltb 0 l.backlog_used)) [
      | inl y ↦ rw y (
          called l c (listener_accept m add)
            (last-Serves m c add l.wait_conns refl ring (ground (arith, y))) refl)
      | inr n ↦ rw n (called l c (some (m, [])) (idle m ring) refl)
    ]
