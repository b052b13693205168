-- ===== src/Slow/Tcp/Listener/Backlog.antt =====
-- The backlog ring as a queue.
use tas.Base.{
  ℕ, zero, suc, ◌+◌, ◌-◌, ◌≤◌, ◌<◌, ◌≡◌, ◌≢◌, refl, sym, true, ap, ◌∙◌, arith, List, [], ◌∷◌, ◌++◌,
  leb, if◌then◌else◌, put, put-same, put-other,
}
use tas.Slow.Tcp.Listener.{
  Syn, Listener, ring_index, pop_backlog, backlog_push, cut_field, copied, syn_len,
}

-- The ring's indices are within it.
pub record IsRing (l : Listener) : Type 0 where
  pub some_room : 0 < l.backlog_len
  pub inside : l.backlog_pos < l.backlog_len
  pub fits : l.backlog_used ≤ l.backlog_len

-- `n` packets of a ring of `len`, from `pos` on
unfoldable pub ring : (len : ℕ) → (ℕ → Syn) → (pos n : ℕ) → List Syn
ring len b pos zero = []
ring len b pos (suc n) = b pos ∷ ring len b (if leb len (pos + 1) then pos + 1 - len else pos + 1) n

-- the packets of the backlog, the oldest first
unfoldable pub contents : Listener → List Syn
contents l = ring l.backlog_len l.backlog l.backlog_pos l.backlog_used

abbrev wrap : (len x : ℕ) → ℕ
wrap len x = if leb len x then x - len else x

ring-put :
    (len : ℕ) (b : ℕ → Syn) (p : Syn) (pos n : ℕ)
    → pos < len
    → n < len
    → ring len (put b (wrap len (pos + n)) p) pos (suc n) ≡ ring len b pos n ++ (p ∷ [])
unfolding ring
ring-put len b p pos zero h m =
    let here : wrap len (pos + 0) ≡ pos = ground arith in
    rw here (ap (λ s. s ∷ []) (put-same b pos p))
ring-put len b p pos (suc n) h m =
    let next = wrap len (pos + 1) in
    let apart : pos ≢ wrap len (pos + suc n) = ground arith in
    let same : wrap len (pos + suc n) ≡ wrap len (next + n) = ground arith in
    let tail =
      ap (λ k. ring len (put b k p) next (suc n)) same
      ∙ ring-put len b p next n (ground arith) (omega (arith, m)) in
    ap (λ s. s ∷ ring len (put b (wrap len (pos + suc n)) p) next (suc n))
      (put-other b (wrap len (pos + suc n)) p pos apart)
    ∙ ap (λ r. b pos ∷ r) tail

-- The packet's length covers its headers.
abbrev pub IsWhole : Syn → Type 0
IsWhole p = 54 ≤ syn_len p

cut_whole : (off w len new old : ℕ) → off + w ≤ len → cut_field off w len new old ≡ new
unfolding cut_field
cut_whole off w len new old h = ground (arith, h)

copied_whole : (len : ℕ) (old p : Syn) → 54 ≤ len → copied len old p ≡ p
unfolding copied
copied_whole len old p h =
    let all : leb 54 len ≡ true = ground (arith, h) in
    rw
      (
        cut_whole 46 2 len p.flags old.flags (omega (arith, h)),
        cut_whole 16 2 len p.ip_len old.ip_len (omega (arith, h)),
        cut_whole 26 4 len p.src_ip old.src_ip (omega (arith, h)),
        cut_whole 30 4 len p.dest_ip old.dest_ip (omega (arith, h)),
        cut_whole 34 2 len p.src_port old.src_port (omega (arith, h)),
        cut_whole 36 2 len p.dest_port old.dest_port (omega (arith, h)),
        all,
      )
      refl

-- `listener_packet` puts a whole packet behind the others.
pub push_lem :
    (l : Listener) (p : Syn)
    → IsWhole p
    → IsRing l
    → l.backlog_used < l.backlog_len
    → IsRing (backlog_push l p) × (contents (backlog_push l p) ≡ contents l ++ (p ∷ []))
unfolding contents backlog_push ring_index ring
push_lem l p whole i h =
    let bp = wrap l.backlog_len (l.backlog_pos + l.backlog_used) in
    let slot = copied_whole (syn_len p) (l.backlog bp) p whole in
    let more : l.backlog_used + 1 ≡ suc l.backlog_used = omega arith in
    (
      record { some_room = i.some_room; inside = i.inside; fits = omega (arith, h) },
      ap (ring l.backlog_len (put l.backlog bp (copied (syn_len p) (l.backlog bp) p)) l.backlog_pos)
            more
          ∙ ap (λ s. ring l.backlog_len (put l.backlog bp s) l.backlog_pos (suc l.backlog_used))
              slot
          ∙ ring-put l.backlog_len l.backlog p l.backlog_pos l.backlog_used i.inside h,
    )

-- `listener_accept` takes the oldest packet out.
pub pop_lem :
    (l : Listener)
    → IsRing l
    → 0 < l.backlog_used
    → IsRing (pop_backlog l) × (l.backlog l.backlog_pos ∷ contents (pop_backlog l) ≡ contents l)
unfolding contents pop_backlog ring_index ring
pop_lem l i h = (
  record {
    some_room = i.some_room;
    inside = ground (arith, i.inside);
    fits = omega (arith, i.fits);
  },
  sym (ap (ring l.backlog_len l.backlog l.backlog_pos) (more l.backlog_used h)),
)
  where
    more : (n : ℕ) → 0 < n → n ≡ suc (n - 1)
    more n h = omega (arith, h)
