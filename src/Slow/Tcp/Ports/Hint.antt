-- ===== src/Slow/Tcp/Ports/Hint.antt =====
-- The hint that `tcp_init` draws.
use tas.Base.{ℕ, zero, suc, ◌%◌, ◌^◌, ◌≤◌, ◌<◌, ◌≡◌, refl, arith, true, false, ◌==◌, if_yes}
use tas.Slow.Tcp.Ports.{
  PortTable, port_first_eph, is_unused, port_next, init_hint, got, port_running, port_loop,
  port_alloc,
}
use tas.Slow.Tcp.Ports.Search.{IsEphemeral}

next-first : (p : ℕ) → p < 2 ^ 16 → port_first_eph ≤ port_next p
unfolding port_next
next-first p h = ground arith

next-last : (p : ℕ) → p < 2 ^ 16 → port_next p < 2 ^ 16
unfolding port_next
next-last p h = ground arith

runs_on :
    (fuel : ℕ) (ports : PortTable) (start p : ℕ)
    → start < port_first_eph
    → p < 2 ^ 16
    → is_unused (ports p) ≡ false
    → ((q : ℕ) → IsEphemeral q → is_unused (ports q) ≡ false)
    → port_loop fuel ports start p ≡ port_running
unfolding port_loop
runs_on zero ports start p s h n used = refl
runs_on (suc fuel) ports start p s h n used =
    let first = next-first p h in
    let last = next-last p h in
    let other : (port_next p == start) ≡ false = ground (arith, first, s) in
    rw (n, other)
      (runs_on fuel ports start (port_next p) s last
        (used (port_next p) (record { first = first; last = last })) used)

-- If `tcp_init` draws a hint below the ephemeral ports and no port is used, the first port that
-- `port_alloc` hands out is the hint itself, which is not ephemeral.
low_hint_first :
    (fuel random : ℕ) (ports : PortTable)
    → random % 57343 < port_first_eph
    → ((q : ℕ) → is_unused (ports q) ≡ true)
    → port_alloc (suc fuel) ports (init_hint random)
      ≡ got (random % 57343) (port_next (random % 57343))
unfolding port_alloc port_loop init_hint
low_hint_first fuel random ports l free =
    let hint : random % 57343 % 65536 ≡ random % 57343 = omega arith in
    rw (hint) (if_yes _ _ (free (random % 57343)))

-- If `tcp_init` draws a hint below the ephemeral ports, and `port_alloc` is called with this hint, before
-- any port was allocated, while the hint's port and all ephemeral ports are used, then its loop does not
-- end, on any fuel.
pub low_hint_hangs :
    (fuel random : ℕ) (ports : PortTable)
    → random % 57343 < port_first_eph
    → is_unused (ports (random % 57343)) ≡ false
    → ((q : ℕ) → IsEphemeral q → is_unused (ports q) ≡ false)
    → port_alloc fuel ports (init_hint random) ≡ port_running
unfolding port_alloc init_hint
low_hint_hangs fuel random ports l n used =
    let hint : random % 57343 % 65536 ≡ random % 57343 = omega arith in
    rw (hint) (runs_on fuel ports (random % 57343) (random % 57343) l (omega (arith, l)) n used)
