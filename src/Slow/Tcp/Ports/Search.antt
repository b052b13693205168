-- ===== src/Slow/Tcp/Ports/Search.antt =====
-- The search from a hint among the ephemeral ports.
use tas.Base.{
  ℕ, zero, suc, ◌+◌, ◌-◌, ◌%◌, ◌^◌, ◌≤◌, ◌<◌, ◌≡◌, ◌≢◌, ap, ◌∙◌, arith, true, false, ltb, ◌==◌,
  ==_iff, u16, Bool-cases, inl, inr, ℕ_discrete,
}
use tas.Slow.Tcp.Ports.{
  PortTable, port_first_eph, is_unused, port_next, PortResult, got, no_port, port_running,
  port_loop, port_alloc,
}

-- an ephemeral port
pub record IsEphemeral (p : ℕ) : Type 0 where
  pub first : port_first_eph ≤ p
  pub last : p < 2 ^ 16

-- how many ephemeral ports there are, and how many lie between two
abbrev ephemeral_num : ℕ
ephemeral_num = 2 ^ 16 - 8192

abbrev ahead : (a b : ℕ) → ℕ
ahead a b = (b + ephemeral_num - a) % ephemeral_num

-- What the allocation promises.
unfoldable pub Finds : PortTable → PortResult → Type 0
Finds ports (got p hint) = IsEphemeral p × IsEphemeral hint × (is_unused (ports p) ≡ true)
Finds ports no_port = (q : ℕ) → IsEphemeral q → is_unused (ports q) ≡ false
Finds ports port_running = ⊥

next_lem :
    (start p : ℕ)
    → IsEphemeral start
    → IsEphemeral p
    → IsEphemeral (port_next p) × (ahead start (port_next p) ≡ (ahead start p + 1) % ephemeral_num)
unfolding port_next
next_lem start p s e = elim (Bool-cases (ltb (u16 (p + 1)) port_first_eph)) [
  | inl y ↦
      let last : p ≡ 65535 = ground (arith, y, e.first, e.last) in
      rw y
        (record { first = omega arith; last = omega arith }, omega (arith, last, s.first, s.last))
  | inr n ↦
      let more : p < 65535 = ground (arith, n, e.last) in
      rw n (
        record { first = omega (arith, e.first); last = omega (arith, more) },
        omega (arith, more, e.first, s.first, s.last),
      )
]

same_port :
    (start p q : ℕ)
    → IsEphemeral start
    → IsEphemeral p
    → IsEphemeral q
    → ahead start q ≡ ahead start p
    → q ≡ p
same_port start p q s e h a = omega (arith, a, s.first, s.last, e.first, e.last, h.first, h.last)

-- one more port is known to be used
one_more :
    (ports : PortTable) (start p : ℕ)
    → IsEphemeral start
    → IsEphemeral p
    → is_unused (ports p) ≡ false
    → ((q : ℕ) → IsEphemeral q → ahead start q < ahead start p → is_unused (ports q) ≡ false)
    → (q : ℕ) → IsEphemeral q
    → ahead start q ≤ ahead start p
    → is_unused (ports q) ≡ false
one_more ports start p s e n used q h l = elim (ℕ_discrete (ahead start q) (ahead start p)) [
  | no m ↦ used q h (omega (arith, l, m))
  | yes a ↦ ap (λ k. is_unused (ports k)) (same_port start p q s e h a) ∙ n
]

loop-Finds :
    (fuel : ℕ) (ports : PortTable) (start p : ℕ)
    → IsEphemeral start
    → IsEphemeral p
    → ephemeral_num ≤ ahead start p + fuel
    → ((q : ℕ) → IsEphemeral q → ahead start q < ahead start p → is_unused (ports q) ≡ false)
    → Finds ports (port_loop fuel ports start p)
unfolding port_loop Finds
loop-Finds zero ports start p s e f used = absurd (omega (arith, f))
loop-Finds (suc fuel) ports start p s e f used =
    let w = next_lem start p s e in
    let next = port_next p in
    elim (Bool-cases (is_unused (ports p))) [
      | inl y ↦ rw y (e, w.0, y)
      | inr n ↦
          let known = one_more ports start p s e n used in
          elim (Bool-cases (next == start)) [
            | inl z ↦
                let round : ahead start next ≡ 0 =
                  ap (ahead start) ((==_iff next start).0 z) ∙ omega (arith, s.first) in
                rw (n, z) (λ q h. known q h (omega (arith, round, w.1)))
            | inr m ↦
                let apart : ahead start next ≢ 0 = λ a.
                  absurd
                    (ground (arith, m, same_port start start next s s w.0 (omega (arith, a)))) in
                rw (n, m)
                  (loop-Finds fuel ports start next s w.0 (omega (arith, apart, w.1, f))
                    (λ q h l. known q h (omega (arith, apart, w.1, l))))
          ]
    ]

-- From an ephemeral hint, 57344 rounds of the loop of `port_alloc` are enough. The port that it hands out
-- is an unused ephemeral port, and the next hint is ephemeral too; it hands out none only if every
-- ephemeral port is used.
pub port_alloc-Finds :
    (fuel : ℕ) (ports : PortTable) (hint : ℕ)
    → 2 ^ 16 - 8192 ≤ fuel
    → IsEphemeral hint
    → Finds ports (port_alloc fuel ports hint)
unfolding port_alloc
port_alloc-Finds fuel ports hint f s =
    loop-Finds fuel ports hint hint s s (omega (arith, f))
      (λ q h l. absurd (omega (arith, l, s.first)))
