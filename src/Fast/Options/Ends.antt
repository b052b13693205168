-- ===== src/Fast/Options/Ends.antt =====
-- Where the option loop ends, and where it does not.
use tas.Base.{ℕ, zero, suc, ◌+◌, ◌≤◌, ◌<◌, ◌^◌, ◌≡◌, ◌≢◌, Option, none, some, arith, Memory, refl}
use tas.Fast.Options.Cases.{loop_cases}
use tas.Fast.Options.{
  running, options_loop, options_len, parse_options, tcp_parse_options, tcp_parse_options_gre,
  pkt_tcp_size, pkt_gre_size,
}

-- The offsets at which the loop reads an option's kind, started at 0.
pub data OptionAt (opt : Memory) (n : ℕ) : ℕ → Type 0 where
  first : OptionAt opt n 0
  after_nop : {off : ℕ} → OptionAt opt n off → off < n → opt off ≡ 1 → OptionAt opt n (off + 1)
  after_option :
      {off : ℕ}
      → OptionAt opt n off
      → off + 1 < n
      → 1 < opt off
      → (opt off ≡ 8 → opt (off + 1) ≡ 10)
      → OptionAt opt n (off + opt (off + 1))

-- Each option of variable length that the loop reaches, the timestamp apart, has a length byte other
-- than 0.
pub record HasLengths (opt : Memory) (n : ℕ) : Type 0 where
  pub nonzero :
      (off : ℕ) → OptionAt opt n off → off + 1 < n → 1 < opt off → opt off ≢ 8 → 0 < opt (off + 1)

module _ (opt : Memory) (n : ℕ) (lengths : HasLengths opt n) (small : n < 2 ^ 8) where
  loop_ends :
      (fuel off : ℕ) (ts : Option ℕ)
      → OptionAt opt n off
      → 0 < fuel
      → n < fuel + off
      → options_loop fuel opt n off ts ≢ running
  loop_ends zero off ts at p f = absurd (omega arith)
  loop_ends (suc fuel) off ts at p f =
      loop_cases (λ r. r ≢ running) fuel opt n off ts small (λ e. cc) (λ e. cc)
        (λ l e. loop_ends fuel (off + 1) ts (after_nop at l e) (omega arith) (omega arith))
        (λ l e t.
          loop_ends fuel (off + opt (off + 1)) (some off) (after_option at l (omega arith) (λ _. t))
            (omega arith) (omega arith))
        (λ l e t.
          loop_ends fuel (off + opt (off + 1)) ts (after_option at l e (λ s. absurd (t s)))
            (omega arith) (omega (arith, lengths.nonzero off at l e t)))

abbrev Stuck : Memory → ℕ → ℕ → Type 0
Stuck opt n off = (fuel : ℕ) (ts : Option ℕ) → options_loop fuel opt n off ts ≡ running

-- A zero length byte keeps the loop where it is.
zero_length-Stuck :
    (opt : Memory) (n off : ℕ)
    → off + 1 < n
    → n < 2 ^ 8
    → 1 < opt off
    → opt off ≢ 8
    → opt (off + 1) ≡ 0
    → Stuck opt n off
unfolding options_loop
zero_length-Stuck opt n off l s k t z zero ts = refl
zero_length-Stuck opt n off l s k t z (suc fuel) ts =
    let here : off + opt (off + 1) ≡ off = omega arith in
    rw here (ground (arith, zero_length-Stuck opt n off l s k t z fuel ts))

module _ (opt : Memory) (n : ℕ) (small : n < 2 ^ 8) where
  nop-Stuck : (off : ℕ) → off < n → opt off ≡ 1 → Stuck opt n (off + 1) → Stuck opt n off
  unfolding options_loop
  nop-Stuck off l e h zero ts = refl
  nop-Stuck off l e h (suc fuel) ts = ground (arith, h fuel ts)

  option-Stuck :
      (off : ℕ)
      → off + 1 < n
      → 1 < opt off
      → (opt off ≡ 8 → opt (off + 1) ≡ 10)
      → Stuck opt n (off + opt (off + 1))
      → Stuck opt n off
  unfolding options_loop
  option-Stuck off l e t h zero ts = refl
  option-Stuck off l e t h (suc fuel) ts = ground (arith, h fuel ts, h fuel (some off))

  -- The loop gets to every offset of `OptionAt`, so it is stuck if one of them is.
  reach-Stuck : {off : ℕ} → OptionAt opt n off → Stuck opt n off → Stuck opt n 0
  reach-Stuck first h = h
  reach-Stuck (after_nop {off} at l e) h = reach-Stuck at (nop-Stuck off l e h)
  reach-Stuck (after_option {off} at l e t) h = reach-Stuck at (option-Stuck off l e t h)

pub options_len-le : (hdrlen : ℕ) → 5 ≤ hdrlen → hdrlen < 16 → options_len hdrlen ≤ 40
unfolding options_len
options_len-le hdrlen h k = omega arith

module _ (opt : Memory) (hdrlen len : ℕ) (header : hdrlen < 16) where
  parse_ends :
      (fuel hdr_size : ℕ)
      → 40 < fuel
      → HasLengths opt (options_len hdrlen)
      → parse_options fuel hdr_size opt hdrlen len ≢ running
  unfolding parse_options
  parse_ends fuel hdr_size f h = ground (
    arith,
    λ (v : 5 ≤ hdrlen).
        let short : options_len hdrlen ≤ 40 = options_len-le hdrlen v header in
        loop_ends opt (options_len hdrlen) h (omega arith) fuel 0 none first (omega arith)
          (omega arith),
  )

  parse_hangs :
      (fuel hdr_size : ℕ)
      → 5 ≤ hdrlen
      → hdr_size + 40 ≤ len
      → len < 2 ^ 16
      → Stuck opt (options_len hdrlen) 0
      → parse_options fuel hdr_size opt hdrlen len ≡ running
  unfolding parse_options options_len
  parse_hangs fuel hdr_size h w s stuck = ground (arith, stuck fuel none)

  -- For a data offset below 16 and 41 rounds or more, the parsers of both packet formats end, if each
  -- option of variable length that they reach, the timestamp apart, has a length byte other than 0.
  pub parse_options_ends :
      (fuel : ℕ)
      → 40 < fuel
      → HasLengths opt (options_len hdrlen)
      → (tcp_parse_options fuel opt hdrlen len ≢ running)
        × (tcp_parse_options_gre fuel opt hdrlen len ≢ running)
  unfolding tcp_parse_options tcp_parse_options_gre
  parse_options_ends fuel f h = (parse_ends fuel pkt_tcp_size f h, parse_ends fuel pkt_gre_size f h)

  -- For a data offset from 5 to 15 and a packet of less than 2^16 bytes with room for 40 of options: if
  -- the walk over the options reaches one of variable length other than the timestamp, whose length byte
  -- is within the options and is 0, the parsers of both packet formats do not end on any fuel.
  pub parse_options_hangs :
      (fuel off : ℕ)
      → 5 ≤ hdrlen
      → pkt_gre_size + 40 ≤ len
      → len < 2 ^ 16
      → OptionAt opt (options_len hdrlen) off
      → off + 1 < options_len hdrlen
      → 1 < opt off
      → opt off ≢ 8
      → opt (off + 1) ≡ 0
      → (tcp_parse_options fuel opt hdrlen len ≡ running)
        × (tcp_parse_options_gre fuel opt hdrlen len ≡ running)
  unfolding tcp_parse_options tcp_parse_options_gre
  parse_options_hangs fuel off h w s at l k t z =
      let short : options_len hdrlen ≤ 40 = options_len-le hdrlen h header in
      let small : options_len hdrlen < 2 ^ 8 = omega arith in
      let stuck : Stuck opt (options_len hdrlen) 0 =
        reach-Stuck opt (options_len hdrlen) small at
          (zero_length-Stuck opt (options_len hdrlen) off l small k t z) in
      (
        parse_hangs fuel pkt_tcp_size h (omega arith) s stuck,
        parse_hangs fuel pkt_gre_size h w s stuck,
      )
