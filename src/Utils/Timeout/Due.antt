-- ===== src/Utils/Timeout/Due.antt =====
-- The order of the pending timeouts, and those of them that become due.
use tas.Base.{
  ℕ, ◌+◌, ◌-◌, ◌^◌, ◌%◌, ◌≤◌, ◌<◌, ◌≡◌, refl, sym, ◌∙◌, arith, Bool, true, false, ◌&&◌, List, [],
  ◌∷◌, ◌++◌, ltb, leb, if◌then◌else◌, Bool-cases, inl, inr,
}
use mathlib.Core.List.{append_assoc, append-nil}
use tas.Utils.Timeout.{Timeout, rel_time_us, timeout_due, move_due}

-- how far ahead of `cur` a timeout lies, on 28 bits
abbrev pub ahead : ℕ → Timeout → ℕ
ahead cur t = (t.ts + 2 ^ 28 - cur) % 2 ^ 28

-- From `lo` on, in order, each less than half way round ahead of `cur`.
abbrev pub ordered : (cur lo : ℕ) → List Timeout → Bool
ordered cur lo [] = true
ordered cur lo (t ∷ ts) =
    leb lo (ahead cur t)
    && (ltb (ahead cur t) (2 ^ 27) && (ltb t.ts (2 ^ 28) && ordered cur (ahead cur t) ts))

-- those at most `d` ahead, and the others
abbrev pub expired : (cur d : ℕ) → List Timeout → List Timeout
expired cur d [] = []
expired cur d (t ∷ ts) =
    let rest = expired cur d ts in if leb (ahead cur t) d then t ∷ rest else rest

abbrev pub later : (cur d : ℕ) → List Timeout → List Timeout
later cur d [] = []
later cur d (t ∷ ts) = let rest = later cur d ts in if leb (ahead cur t) d then rest else t ∷ rest

due_iff :
    (t : Timeout) (cur cur' d : ℕ)
    → cur < 2 ^ 28
    → d < 2 ^ 27
    → cur' ≡ (cur + d) % 2 ^ 28
    → t.ts < 2 ^ 28
    → ahead cur t < 2 ^ 27
    → timeout_due t cur' ≡ leb (ahead cur t) d
unfolding timeout_due rel_time_us
due_iff t cur cur' d c e s b a = ground (arith, c, e, s, b, a)

ahead_later :
    (t : Timeout) (cur cur' d : ℕ)
    → cur < 2 ^ 28
    → d < 2 ^ 27
    → cur' ≡ (cur + d) % 2 ^ 28
    → t.ts < 2 ^ 28
    → d ≤ ahead cur t
    → ahead cur' t ≡ ahead cur t - d
ahead_later t cur cur' d c e s b a = omega (arith, c, e, s, b, a)

-- all of them later, as they are from beyond `d` on
pub all_later :
    (ts : List Timeout) (cur cur' d lo : ℕ)
    → cur < 2 ^ 28
    → d < 2 ^ 27
    → cur' ≡ (cur + d) % 2 ^ 28
    → d < lo
    → ordered cur lo ts ≡ true
    → (later cur d ts ≡ ts) × (expired cur d ts ≡ []) × (ordered cur' (lo - d) ts ≡ true)
all_later [] cur cur' d lo c e s b h = (refl, refl, refl)
all_later (t ∷ ts) cur cur' d lo c e s b h =
    let far : d < ahead cur t = ground (arith, h, b) in
    let rest = all_later ts cur cur' d (ahead cur t) c e s far (ground (arith, h)) in
    let beyond : leb (ahead cur t) d ≡ false = ground (arith, far) in
    let now = ahead_later t cur cur' d c e s (ground (arith, h)) (omega (arith, far)) in
    (rw (beyond, rest.0) refl, rw (beyond, rest.1) refl, rw now (ground (arith, rest.2, h, b)))

pub move_exact :
    (ts due : List Timeout) (cur cur' d lo : ℕ)
    → cur < 2 ^ 28
    → d < 2 ^ 27
    → cur' ≡ (cur + d) % 2 ^ 28
    → ordered cur lo ts ≡ true
    → ((move_due cur' due ts).timeouts ≡ later cur d ts)
      × ((move_due cur' due ts).due ≡ due ++ expired cur d ts)
      × (ordered cur' 1 (later cur d ts) ≡ true)
unfolding move_due
move_exact [] due cur cur' d lo c e s h = (refl, sym (append-nil due), refl)
move_exact (t ∷ ts) due cur cur' d lo c e s h =
    let i = due_iff t cur cur' d c e s (ground (arith, h)) (ground (arith, h)) in
    elim (Bool-cases (leb (ahead cur t) d)) [
      | inl y ↦
          let rest =
            move_exact ts (due ++ t ∷ []) cur cur' d (ahead cur t) c e s (ground (arith, h)) in
          rw (i, y) (rest.0, rest.1 ∙ append_assoc due (t ∷ []) (expired cur d ts), rest.2)
      | inr n ↦
          let far : d < ahead cur t = ground (arith, n) in
          let rest = all_later ts cur cur' d (ahead cur t) c e s far (ground (arith, h)) in
          let now = ahead_later t cur cur' d c e s (ground (arith, h)) (omega (arith, far)) in
          rw (i, n, rest.0, rest.1)
            (refl, sym (append-nil due), rw now (ground (arith, rest.2, far, h)))
    ]
