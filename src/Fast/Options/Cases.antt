-- ===== src/Fast/Options/Cases.antt =====
-- One round of the option loop, by cases.
use tas.Base.{
  ℕ, suc, ◌+◌, ◌-◌, ◌<◌, ◌^◌, ◌%◌, ◌≡◌, ◌≢◌, inl, inr, Option, some, arith, Memory, Bool-cases, ltb,
  ◌==◌,
}
use tas.Fast.Options.{Parse, fail, done, options_loop, timestamp_size, opt_timestamp}

-- To show `P` of a call, show it of each way in which the round can go.
pub loop_cases {ℓ} :
    (P : Parse → Type ℓ) (fuel : ℕ) (opt : Memory) (n off : ℕ) (ts : Option ℕ)
    → n < 2 ^ 8
    → P (done ts)
    → P fail
    → (off < n → opt off ≡ 1 → P (options_loop fuel opt n (off + 1) ts))
    → (off + 1 < n
        → opt off ≡ 8
        → opt (off + 1) ≡ 10
        → P (options_loop fuel opt n (off + opt (off + 1)) (some off)))
    → (off + 1 < n
        → 1 < opt off
        → opt off ≢ 8
        → P (options_loop fuel opt n (off + opt (off + 1)) ts))
    → P (options_loop (suc fuel) opt n off ts)
unfolding options_loop
loop_cases P fuel opt n off ts small d f nop stamp other = elim (Bool-cases (ltb off n)) [
  | inr a ↦ rw a d
  | inl a ↦ elim (Bool-cases (opt off == 0)) [
    | inl b ↦ rw (a, b) d
    | inr b ↦ elim (Bool-cases (opt off == 1)) [
      | inl c ↦ rw (a, b, c) (nop (ground arith) (ground arith))
      | inr c ↦ elim (Bool-cases (ltb ((n - off) % 2 ^ 8) 2)) [
        | inl e ↦ rw (a, b, c, e) f
        | inr e ↦ elim (Bool-cases (opt off == opt_timestamp)) [
          | inr g ↦ rw (a, b, c, e, g) (other (ground arith) (ground arith) (ground arith))
          | inl g ↦ elim (Bool-cases (opt (off + 1) == timestamp_size)) [
            | inl h ↦ rw (a, b, c, e, g, h) (stamp (ground arith) (ground arith) (ground arith))
            | inr h ↦ rw (a, b, c, e, g, h) f
          ]
        ]
      ]
    ]
  ]
]
