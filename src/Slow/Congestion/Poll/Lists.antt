-- ===== src/Slow/Congestion/Poll/Lists.antt =====
-- The order in which a poll of congestion control goes over the connections.
use tas.Base.{
  ℕ, zero, suc, ◌-◌, ◌≡◌, refl, sym, ◌∙◌, ap, subst, arith, Bool, true, false, not, ◌&&◌, List, [],
  ◌∷◌, ◌++◌, Option, none, some, ◌==◌, ==_iff, put, ◌>>=◌, Bool-cases, inl, inr, take, mem,
  distinct, mem-append,
}
use mathlib.Core.List.{append_assoc}
use tas.Slow.Congestion.{Config, Connection}
use tas.Slow.Congestion.Poll.{
  Network, Group, poll_conn, head, after, or_else, poll_loop, poll_from, cc_poll_vm,
}

-- what follows `id` in the round
abbrev next_of : List ℕ → ℕ → Option ℕ
next_of order id = or_else (after order id) (head order)

-- From one to the next, and from the last to `first`, which is not on the way.
abbrev IsRoute : List ℕ → ℕ → List ℕ → Type 0
IsRoute order first [] = Unit {0}
IsRoute order first (c ∷ []) = next_of order c ≡ some first
IsRoute order first (c ∷ d ∷ ids) =
    (next_of order c ≡ some d) × ((d == first) ≡ false) × IsRoute order first (d ∷ ids)

after-append : (us zs : List ℕ) (c : ℕ) → mem c us ≡ false → after (us ++ c ∷ zs) c ≡ head zs
after-append [] zs c m = let e : (c == c) ≡ true = ground arith in rw e refl
after-append (u ∷ us) zs c m =
    let far : (u == c) ≡ false = ground (arith, m, ==_iff c u) in
    rw far (after-append us zs c (ground (arith, m)))

distinct-before : (us zs : List ℕ) (c : ℕ) → distinct (us ++ c ∷ zs) ≡ true → mem c us ≡ false
distinct-before [] zs c d = refl
distinct-before (u ∷ us) zs c d =
    ground (arith, distinct-before us zs c, mem-append u us (c ∷ zs), ==_iff c u, ==_iff u c, d)

distinct-after :
    (us ws : List ℕ) (c f : ℕ) → distinct (us ++ c ∷ ws) ≡ true → mem f ws ≡ true → (c == f) ≡ false
distinct-after [] ws c f d m = elim (Bool-cases (c == f)) [
  | inr n ↦ n
  | inl y ↦
      let same : c ≡ f = ground arith in
      absurd (ground (arith, subst (λ k. mem k ws ≡ true) (sym same) m, d))
]
distinct-after (u ∷ us) ws c f d m = distinct-after us ws c f (ground (arith, d)) m

next-in :
    (order us zs : List ℕ) (c d : ℕ)
    → order ≡ us ++ c ∷ d ∷ zs
    → distinct order ≡ true
    → next_of order c ≡ some d
next-in order us zs c d e u =
    let before = distinct-before us (d ∷ zs) c (subst (λ l. distinct l ≡ true) e u) in
    ap (λ a. or_else a (head order)) (ap (λ l. after l c) e ∙ after-append us (d ∷ zs) c before)

next-last :
    (order us : List ℕ) (c : ℕ)
    → order ≡ us ++ c ∷ []
    → distinct order ≡ true
    → next_of order c ≡ head order
next-last order us c e u =
    let before = distinct-before us [] c (subst (λ l. distinct l ≡ true) e u) in
    ap (λ a. or_else a (head order)) (ap (λ l. after l c) e ∙ after-append us [] c before)

-- the connections before `first`
front-IsRoute :
    (order us vs zs : List ℕ) (c first : ℕ)
    → order ≡ us ++ (c ∷ (vs ++ first ∷ zs))
    → distinct order ≡ true
    → IsRoute order first (c ∷ vs)
front-IsRoute order us [] zs c first e d = next-in order us zs c first e d
front-IsRoute order us (v ∷ vs) zs c first e d =
    let e' : order ≡ (us ++ c ∷ []) ++ (v ∷ (vs ++ first ∷ zs)) =
      e ∙ sym (append_assoc us (c ∷ []) _) in
    let apart =
      distinct-after (us ++ c ∷ []) (vs ++ first ∷ zs) v first (subst (λ l. distinct l ≡ true) e' d)
        (ground (arith, mem-append first vs (first ∷ zs))) in
    (
      next-in order us (vs ++ first ∷ zs) c v e d,
      apart,
      front-IsRoute order (us ++ c ∷ []) vs zs v first e' d,
    )

-- those from `first` on, and then those before it
around-IsRoute :
    (order us vs front : List ℕ) (c first : ℕ)
    → order ≡ us ++ c ∷ vs
    → distinct order ≡ true
    → head order ≡ head (front ++ first ∷ [])
    → IsRoute order first front
    → mem first vs ≡ false
    → mem first front ≡ false
    → IsRoute order first (c ∷ vs ++ front)
around-IsRoute order us [] [] c first e d h f m n = next-last order us c e d ∙ h
around-IsRoute order us [] (g ∷ front) c first e d h f m n =
    (next-last order us c e d ∙ h, ground (arith, n, ==_iff g first, ==_iff first g), f)
around-IsRoute order us (v ∷ vs) front c first e d h f m n = (
  next-in order us vs c v e d,
  ground (arith, m, ==_iff v first, ==_iff first v),
  around-IsRoute order (us ++ c ∷ []) vs front v first (e ∙ sym (append_assoc us (c ∷ []) _)) d h f
      (ground (arith, m)) n,
)

distinct-behind : (us zs : List ℕ) (c : ℕ) → distinct (us ++ c ∷ zs) ≡ true → mem c zs ≡ false
distinct-behind [] zs c d = ground (arith, d)
distinct-behind (u ∷ us) zs c d = distinct-behind us zs c (ground (arith, d))

-- all of the list, from `first` on
whole-IsRoute :
    (order us zs : List ℕ) (first : ℕ)
    → order ≡ us ++ first ∷ zs
    → distinct order ≡ true
    → IsRoute order first (first ∷ zs ++ us)
whole-IsRoute order [] zs first e d =
    around-IsRoute order [] zs [] first first e d (ap head e) tt
      (distinct-behind [] zs first (subst (λ l. distinct l ≡ true) e d)) refl
whole-IsRoute order (u ∷ us) zs first e d =
    let once = subst (λ l. distinct l ≡ true) e d in
    around-IsRoute order (u ∷ us) zs (u ∷ us) first first e d (ap head e)
      (front-IsRoute order [] us zs u first e d) (distinct-behind (u ∷ us) zs first once)
      (distinct-before (u ∷ us) zs first once)

-- The connections `ids` polled one after the other.
pub poll_each : Config → Network → ℕ → Group → List ℕ → Option Group
poll_each g net cur_ts v [] = some v
poll_each g net cur_ts v (id ∷ ids) = poll_conn g net cur_ts id (v.conns id) >>= λ d.
    poll_each g net cur_ts (record v { conns = put v.conns id d }) ids

-- where the poll goes on the next time
abbrev pub stop : ℕ → List ℕ → (first : ℕ) → Option ℕ
stop fuel [] first = some first
stop zero (c ∷ ids) first = some c
stop (suc fuel) (c ∷ ids) first = stop fuel ids first

abbrev pub with_next : Option ℕ → Group → Option Group
with_next w u = some (record u { next_conn = w })

at_first :
    (fuel : ℕ) (g : Config) (net : Network) (cur_ts first : ℕ) (v : Group)
    → poll_loop fuel g net cur_ts first false v (some first) ≡ with_next (some first) v
unfolding poll_loop
at_first zero g net cur_ts first v = refl
at_first (suc fuel) g net cur_ts first v =
    let e : (first == first) ≡ true = ground arith in rw e refl

-- two chains of steps that are the same after their first
then_same :
    (o : Option Connection) (f h : Connection → Option Group) (k : Group → Option Group)
    → ((d : Connection) → f d ≡ (h d >>= k))
    → (o >>= f) ≡ ((o >>= h) >>= k)
then_same none f h k e = refl
then_same (some d) f h k e = e d

-- the loop along a route, up to the connections that the budget of 128 leaves
loop-each :
    (ids : List ℕ) (fuel : ℕ) (g : Config) (net : Network) (cur_ts first c : ℕ) (starts : Bool)
    (v : Group)
    → IsRoute v.order first (c ∷ ids)
    → (not starts && (c == first)) ≡ false
    → poll_loop fuel g net cur_ts first starts v (some c)
      ≡ (poll_each g net cur_ts v (take fuel (c ∷ ids)) >>= with_next (stop fuel (c ∷ ids) first))
unfolding poll_loop poll_each
loop-each ids zero g net cur_ts first c starts v r k = refl
loop-each [] (suc zero) g net cur_ts first c starts v r k = rw k (
    then_same (poll_conn g net cur_ts c (v.conns c)) _ _ _
      (λ d. ap (λ o. some (record v { conns = put v.conns c d; next_conn = o })) r))
loop-each [] (suc (suc fuel)) g net cur_ts first c starts v r k = rw k (
    then_same (poll_conn g net cur_ts c (v.conns c)) _ _ _ (λ d.
      ap (poll_loop (suc fuel) g net cur_ts first false (record v { conns = put v.conns c d })) r
      ∙ at_first (suc fuel) g net cur_ts first (record v { conns = put v.conns c d })))
loop-each (d ∷ ids) (suc fuel) g net cur_ts first c starts v r k = rw k (
    then_same (poll_conn g net cur_ts c (v.conns c)) _ _ _ (λ e.
      let v' : Group = record v { conns = put v.conns c e } in
      ap (poll_loop fuel g net cur_ts first false v') r.0
      ∙ loop-each ids fuel g net cur_ts first d false v' r.2 r.1))

-- `cc_poll_vm` after `n` connections, where the list is `us`, then `first`, then `zs`, no connection twice,
-- and the last poll stopped before `first`: it polls `first`, `zs` and `us`, each once, in this order, as
-- many as are left of 128; the next poll goes on where this one stopped. It fails where one of them does.
pub poll_goes_round :
    (g : Config) (net : Network) (cur_ts n : ℕ) (v : Group) (us zs : List ℕ) (first : ℕ)
    → v.order ≡ us ++ first ∷ zs
    → distinct v.order ≡ true
    → v.next_conn ≡ some first
    → cc_poll_vm g net cur_ts n v ≡ (
        poll_each g net cur_ts v (take (128 - n) (first ∷ (zs ++ us)))
        >>= with_next (stop (128 - n) (first ∷ (zs ++ us)) first))
unfolding cc_poll_vm poll_from
poll_goes_round g net cur_ts n v us zs first e d s =
    ap (λ o. poll_from (128 - n) g net cur_ts v (or_else o (head v.order))) s
    ∙ loop-each (zs ++ us) (128 - n) g net cur_ts first first true v
        (whole-IsRoute v.order us zs first e d) refl
