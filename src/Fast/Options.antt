-- ===== src/Fast/Options.antt =====
-- The TCP option parser of tas/fast/tcp_common.h: `tcp_parse_options` and `tcp_parse_options_gre`,
-- which differ in the size of the headers before the options.
pub mod Cases
pub mod Ends
pub mod Timestamp
use tas.Base.{
  ℕ, zero, suc, ◌+◌, ◌-◌, ◌*◌, ◌%◌, ◌^◌, Bool, ◌||◌, Option, none, some, ltb, ◌==◌, if◌then◌else◌,
  Memory, sub32, u16,
}

-- `fail` is the return value -1 and `done ts` is 0, with the offset of the timestamp option in the
-- option bytes, if there is one. `running` means that the fuel ran out in the loop.
pub data Parse : Type 0 where
  fail : Parse
  done : Option ℕ → Parse
  running : Parse

-- TCP_OPT_TIMESTAMP, and the size of `struct tcp_timestamp_opt`
abbrev pub opt_timestamp : ℕ
opt_timestamp = 8

abbrev pub timestamp_size : ℕ
timestamp_size = 10

-- The loop, at the offset `off` of the `n` option bytes `opt`. `off` is at most 40 + 255, so it does
-- not wrap.
unfoldable pub options_loop : ℕ → Memory → ℕ → ℕ → Option ℕ → Parse
options_loop zero opt n off ts = running
options_loop (suc fuel) opt n off ts =
    let kind = opt off in
    let len = opt (off + 1) in
    let after_nop = options_loop fuel opt n (off + 1) ts in
    let after_ts = options_loop fuel opt n (off + len) (some off) in
    let after_other = options_loop fuel opt n (off + len) ts in
    if ltb off n
    then (if kind == 0
        then done ts
        else if kind == 1
        then after_nop
        else if ltb ((n - off) % 2 ^ 8) 2
        then fail
        else if kind == opt_timestamp
        then (if len == timestamp_size then after_ts else fail)
        else after_other)
    else done ts

-- `opts_len`, a `uint16_t`
unfoldable pub options_len : ℕ → ℕ
options_len hdrlen = u16 (hdrlen * 4 + 2 ^ 16 - 20)

-- A call: `hdr_size` is the size of the packet's headers without options, `hdrlen` the TCP header's
-- data offset and `len` the length of the packet. `len - sizeof(*p)` is a 64-bit difference.
unfoldable pub parse_options : ℕ → ℕ → Memory → ℕ → ℕ → Parse
parse_options fuel hdr_size opt hdrlen len =
    if ltb hdrlen 5 || ltb ((len + 2 ^ 64 - hdr_size) % 2 ^ 64) (options_len hdrlen)
    then fail
    else options_loop fuel opt (options_len hdrlen) 0 none

-- sizeof(struct pkt_tcp) and sizeof(struct pkt_gre)
abbrev pub pkt_tcp_size : ℕ
pkt_tcp_size = 14 + 20 + 20

abbrev pub pkt_gre_size : ℕ
pkt_gre_size = 14 + 20 + 8 + 20 + 20

unfoldable pub tcp_parse_options : ℕ → Memory → ℕ → ℕ → Parse
tcp_parse_options fuel = parse_options fuel pkt_tcp_size

unfoldable pub tcp_parse_options_gre : ℕ → Memory → ℕ → ℕ → Parse
tcp_parse_options_gre fuel = parse_options fuel pkt_gre_size
