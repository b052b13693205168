-- ===== src/Fast/Options/Timestamp.antt =====
-- The timestamp option that the parser reports.
use tas.Base.{
  ℕ, zero, suc, ◌+◌, ◌≤◌, ◌<◌, ◌^◌, ◌≡◌, Option, none, some, arith, Memory, subst, dec_le,
}
use tas.Fast.Options.Cases.{loop_cases}
use tas.Fast.Options.{Parse, done, options_loop, options_len, parse_options}
use tas.Fast.Options.Ends.{OptionAt, after_nop, after_option, first, options_len-le}

-- `o` is the offset of a timestamp option: its kind and length bytes are there.
pub record IsTimestamp (opt : Memory) (n o : ℕ) : Type 0 where
  pub at : OptionAt opt n o
  pub kind : opt o ≡ 8
  pub len : opt (o + 1) ≡ 10
  pub inside : o + 1 < n

-- What a result may say of the timestamp.
abbrev pub Reports : Memory → ℕ → Parse → Type 0
Reports opt n (done (some o)) = IsTimestamp opt n o
Reports opt n _ = Unit {0}

module _ (opt : Memory) (n : ℕ) (small : n < 2 ^ 8) where
  loop-Reports :
      (fuel off : ℕ) (ts : Option ℕ)
      → OptionAt opt n off
      → Reports opt n (done ts)
      → Reports opt n (options_loop fuel opt n off ts)
  unfolding options_loop
  loop-Reports zero off ts at r = tt
  loop-Reports (suc fuel) off ts at r =
      loop_cases (Reports opt n) fuel opt n off ts small r tt
        (λ l e. loop-Reports fuel (off + 1) ts (after_nop at l e) r)
        (λ l e t.
          loop-Reports fuel (off + opt (off + 1)) (some off)
            (after_option at l (omega arith) (λ _. t))
            (record { at = at; kind = e; len = t; inside = l }))
        (λ l e t.
          loop-Reports fuel (off + opt (off + 1)) ts (after_option at l e (λ s. absurd (t s))) r)

reported :
    (opt : Memory) (n o : ℕ) {r : Parse} → Reports opt n r → r ≡ done (some o) → IsTimestamp opt n o
reported opt n o h e = subst (Reports opt n) e h

-- A timestamp that `parse_options` reports, for a data offset below 16, is an option that its walk over the option bytes reaches, with
-- kind 8 and length 10, and both of these bytes lie within the options.
pub parse_options-IsTimestamp :
    (fuel hdr_size : ℕ) (opt : Memory) (hdrlen len o : ℕ)
    → hdrlen < 16
    → parse_options fuel hdr_size opt hdrlen len ≡ done (some o)
    → IsTimestamp opt (options_len hdrlen) o
unfolding parse_options
parse_options-IsTimestamp fuel hdr_size opt hdrlen len o h e = elim (dec_le 5 hdrlen) [
  | yes v ↦
      let small : options_len hdrlen < 2 ^ 8 = omega (arith, options_len-le hdrlen v h) in
      reported opt _ o (loop-Reports opt (options_len hdrlen) small fuel 0 none first tt)
        (ground arith)
  | no v ↦ absurd (ground arith)
]

-- With more than 4 units of fuel, a data offset of 6 and a packet of less than 2^16 bytes that has room
-- for its options: if these are 1, 1, 8, 10, `parse_options` reports a timestamp at offset 2, whose 10
-- bytes reach behind the end of the options.
pub parse_options_overrun :
    (fuel hdr_size : ℕ) (opt : Memory) (len : ℕ)
    → 4 < fuel
    → opt 0 ≡ 1
    → opt 1 ≡ 1
    → opt 2 ≡ 8
    → opt 3 ≡ 10
    → hdr_size + 4 ≤ len
    → len < 2 ^ 16
    → (parse_options fuel hdr_size opt 6 len ≡ done (some 2)) × (options_len 6 < 2 + 10)
unfolding parse_options options_loop options_len
parse_options_overrun (suc (suc (suc (suc fuel)))) hdr_size opt len f a b c d w s =
    (ground arith, ground arith)
parse_options_overrun _ hdr_size opt len f a b c d w s = absurd (omega arith)
