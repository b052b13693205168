-- ===== src/Fast/Tests/Parsing.antt =====
-- Sequence numbers and options at work.
use tas.Base.{
  ◌+◌, ◌≤◌, ◌<◌, ◌≡◌, ◌≢◌, ◌↔◌, refl, [], ◌∷◌, get_or, some, arith, Memory, add32, sub32,
}
use tas.Fast.Seq.{trim_window, tcp_trim_rxbuf, tcp_valid_rxack}
use tas.Fast.Seq.Ack.{valid_rxack_iff}
use tas.Fast.Seq.Trim.{WrapsOutOfWindow, trim_rxbuf_exact}
use tas.Fast.Options.{
  done, running, options_loop, options_len, parse_options, tcp_parse_options, tcp_parse_options_gre,
  pkt_tcp_size,
}
use tas.Fast.Options.Ends.{first, HasLengths, parse_options_ends, parse_options_hangs}
use tas.Fast.Tests.{flow}

-- The first unacknowledged byte is 2^32 - 2; number 1 acknowledges 3 bytes.
valid_rxack_iff_example : (tcp_valid_rxack flow 1 ≡ some 3) ↔ ((3 ≤ 10) × (1 ≡ add32 (sub32 2 4) 3))
valid_rxack_iff_example = valid_rxack_iff flow 1 (omega arith) (omega arith) (omega arith) 3

not_wrapping : ¬ WrapsOutOfWindow 97 20 100 10
not_wrapping w = absurd (omega (arith, w.packet_wraps))

trim_rxbuf_exact_example : tcp_trim_rxbuf flow 97 20 ≡ some (record { start = 3; end = 7 })
trim_rxbuf_exact_example =
    trim_rxbuf_exact flow 97 20 (omega arith) (omega arith) (omega arith) (omega arith) not_wrapping

wrapping : WrapsOutOfWindow 4294967282 20 4294967280 10
wrapping = ground arith

trimmed : tcp_trim_rxbuf flow 97 20 ≡ some (record { start = 3; end = 7 })
unfolding tcp_trim_rxbuf trim_window
trimmed = refl

-- two bytes of padding and a timestamp
abbrev stamped : Memory
stamped a = get_or (1 ∷ 1 ∷ 8 ∷ 10 ∷ []) a 0

stamped_parsed : parse_options 41 pkt_tcp_size stamped 8 66 ≡ done (some 2)
unfolding parse_options options_loop options_len
stamped_parsed = refl

-- options of kind 4 and length 4
abbrev fours : Memory
fours a = 4

fours-HasLengths : HasLengths fours (options_len 10)
fours-HasLengths = record { nonzero = λ off at l k t. omega arith }

parse_options_ends_example :
    (tcp_parse_options 41 fours 10 74 ≢ running) × (tcp_parse_options_gre 41 fours 10 74 ≢ running)
parse_options_ends_example =
    parse_options_ends fours 10 74 (omega arith) 41 (omega arith) fours-HasLengths

-- an option of kind 5 and length 0
abbrev no_length : Memory
no_length a = get_or (5 ∷ []) a 0

room : 0 + 1 < options_len 6
unfolding options_len
room = omega arith

not_timestamp : no_length 0 ≢ 8
not_timestamp e = absurd (omega (arith, e))

parse_options_hangs_example :
    (tcp_parse_options 1000 no_length 6 122 ≡ running)
    × (tcp_parse_options_gre 1000 no_length 6 122 ≡ running)
parse_options_hangs_example =
    parse_options_hangs no_length 6 122 (omega arith) 1000 0 (omega arith) (omega arith)
      (omega arith) first room (omega arith) not_timestamp refl
