-- ===== src/Slow/Arp/Waiting.antt =====
-- Lookups and changes of the ARP table: its addresses, the completions that wait in it, and which
-- addresses have a request pending.
use tas.Base.{
  ℕ, ◌+◌, ◌≡◌, refl, ap, sym, ◌∙◌, arith, Bool, true, false, not, ◌&&◌, none, some, List, [], ◌∷◌,
  ◌++◌, ◌==◌, ==_iff, some_inj, if◌then◌else◌, mem, distinct, Bool-cases, inl, inr,
}
use tas.Slow.Arp.{
  ArpEntry, ArpEffect, request_tx, response_tx, timeout_arm, timeout_disarm, resolved, timed_out,
  ae_lookup, store, drop_entry, notify_all, fail_all,
}

unfoldable pub count : ℕ → List ℕ → ℕ
count c [] = 0
count c (x ∷ xs) = (if x == c then 1 else 0) + count c xs

pub count-append : (c : ℕ) (xs ys : List ℕ) → count c (xs ++ ys) ≡ count c xs + count c ys
unfolding count
count-append c [] ys = omega arith
count-append c (x ∷ xs) ys = omega (arith, count-append c xs ys)

-- how often the completion waits
unfoldable pub waiting : ℕ → List ArpEntry → ℕ
waiting c [] = 0
waiting c (ae ∷ rest) = count c ae.compl + waiting c rest

-- how often it is told a result
unfoldable pub told : ℕ → List ArpEffect → ℕ
told c [] = 0
told c (resolved comp mac ∷ es) = (if comp == c then 1 else 0) + told c es
told c (timed_out comp ∷ es) = (if comp == c then 1 else 0) + told c es
told c (request_tx ip ∷ es) = told c es
told c (response_tx mac ip ∷ es) = told c es
told c (timeout_arm ip us ∷ es) = told c es
told c (timeout_disarm ip ∷ es) = told c es

-- Nothing waits for an entry that is ready.
unfoldable pub is_quiet : ArpEntry → Bool
is_quiet ae = elim ae.compl [ [] ↦ true | c ∷ cs ↦ not ae.ready ]

unfoldable pub settled : List ArpEntry → Bool
settled [] = true
settled (ae ∷ rest) = is_quiet ae && settled rest

unfoldable pub ips : List ArpEntry → List ℕ
ips [] = []
ips (ae ∷ rest) = ae.ip ∷ ips rest

-- A request for the address is pending.
unfoldable pub pending_at : List ArpEntry → ℕ → Bool
pending_at [] ip = false
pending_at (ae ∷ rest) ip =
    let later = pending_at rest ip in if ae.ip == ip then not ae.ready else later

-- an induction over the table for an address that it has
pub found_ind :
    (P : List ArpEntry → Type 0) (ip : ℕ) (ae : ArpEntry)
    → ((rest : List ArpEntry) → ae.ip ≡ ip → P (ae ∷ rest))
    → ((x : ArpEntry) (rest : List ArpEntry) → (x.ip == ip) ≡ false → P rest → P (x ∷ rest))
    → (table : List ArpEntry) → ae_lookup table ip ≡ some ae
    → P table
unfolding ae_lookup
found_ind P ip ae here there [] e = absurd (ground (arith, e))
found_ind P ip ae here there (x ∷ rest) e = elim (Bool-cases (x.ip == ip)) [
  | inl y ↦
      let same : x ≡ ae = some_inj (rw y at e) in
      let at : ae.ip ≡ ip = ap (λ a. a.ip) (sym same) ∙ (==_iff x.ip ip).0 y in
      rw same (here rest at)
  | inr n ↦ there x rest n (found_ind P ip ae here there rest (rw n at e))
]

pub lookup-ip :
    (table : List ArpEntry) (ip : ℕ) (ae : ArpEntry) → ae_lookup table ip ≡ some ae → ae.ip ≡ ip
lookup-ip table ip ae e =
    found_ind (λ t. ae.ip ≡ ip) ip ae (λ rest at. at) (λ x rest n h. h) table e

pub lookup-none :
    (table : List ArpEntry) (ip : ℕ) → ae_lookup table ip ≡ none → mem ip (ips table) ≡ false
unfolding ae_lookup ips
lookup-none [] ip e = refl
lookup-none (x ∷ rest) ip e = elim (Bool-cases (x.ip == ip)) [
  | inl y ↦ absurd (ground (arith, rw y at e))
  | inr n ↦
      let later : mem ip (ips rest) ≡ false = lookup-none rest ip (rw n at e) in
      ground (arith, n, later)
]

pub lookup-calm :
    (table : List ArpEntry) (ip : ℕ) (ae : ArpEntry)
    → settled table ≡ true
    → ae_lookup table ip ≡ some ae
    → is_quiet ae ≡ true
unfolding settled
lookup-calm table ip ae c e =
    found_ind (λ t. settled t ≡ true → is_quiet ae ≡ true) ip ae (λ rest at h. ground (arith, h))
      (λ x rest n f h. f (ground (arith, h))) table e c

pub pending_at-lookup :
    (table : List ArpEntry) (ip : ℕ) (ae : ArpEntry)
    → ae_lookup table ip ≡ some ae
    → pending_at table ip ≡ not ae.ready
unfolding pending_at
pending_at-lookup table ip ae e =
    found_ind (λ t. pending_at t ip ≡ not ae.ready) ip ae
      (λ rest at. let y : (ae.ip == ip) ≡ true = (==_iff ae.ip ip).1 at in rw y refl)
      (λ x rest n h. rw n h) table e

pub pending_at-none :
    (table : List ArpEntry) (ip : ℕ) → ae_lookup table ip ≡ none → pending_at table ip ≡ false
unfolding ae_lookup pending_at
pending_at-none [] ip e = refl
pending_at-none (x ∷ rest) ip e = elim (Bool-cases (x.ip == ip)) [
  | inl y ↦ absurd (ground (arith, rw y at e))
  | inr n ↦ rw n (pending_at-none rest ip (rw n at e))
]

-- what `store` does to an entry of the table
module _ (ip : ℕ) (ae e : ArpEntry) (same : e.ip ≡ ip) where
  pub waiting-store :
      (c : ℕ) (table : List ArpEntry)
      → ae_lookup table ip ≡ some ae
      → waiting c (store e table) + count c ae.compl ≡ waiting c table + count c e.compl
  unfolding store waiting
  waiting-store c table f =
      found_ind (λ t. waiting c (store e t) + count c ae.compl ≡ waiting c t + count c e.compl) ip
        ae
        (λ rest at.
          let y : (ae.ip == e.ip) ≡ true = (==_iff ae.ip e.ip).1 (omega arith) in
          rw y (omega arith))
        (λ x rest n h. let m : (x.ip == e.ip) ≡ false = rw same n in rw m (omega (arith, h))) table
        f

  pub ips-store :
      (table : List ArpEntry) → ae_lookup table ip ≡ some ae → ips (store e table) ≡ ips table
  unfolding store ips
  ips-store table f =
      found_ind (λ t. ips (store e t) ≡ ips t) ip ae
        (λ rest at.
          let y : (ae.ip == e.ip) ≡ true = (==_iff ae.ip e.ip).1 (omega arith) in
          rw y (ap (λ i. i ∷ ips rest) (omega arith)))
        (λ x rest n h. let m : (x.ip == e.ip) ≡ false = rw same n in rw m (ap (λ l. x.ip ∷ l) h))
        table f

  pub settled-store :
      (table : List ArpEntry)
      → ae_lookup table ip ≡ some ae
      → is_quiet e ≡ true
      → settled table ≡ true
      → settled (store e table) ≡ true
  unfolding store settled
  settled-store table f c =
      found_ind (λ t. settled t ≡ true → settled (store e t) ≡ true) ip ae
        (λ rest at h.
          let y : (ae.ip == e.ip) ≡ true = (==_iff ae.ip e.ip).1 (omega arith) in
          rw y (ground (arith, h, c)))
        (λ x rest n f h.
          let m : (x.ip == e.ip) ≡ false = rw same n in
          let later = f (ground (arith, h)) in rw m (ground (arith, h, later)))
        table f

  pub pending_at-store :
      (j : ℕ) (table : List ArpEntry)
      → ae_lookup table ip ≡ some ae
      → pending_at (store e table) j ≡ (if j == ip then not e.ready else pending_at table j)
  unfolding store pending_at
  pending_at-store j table f =
      found_ind (λ t. pending_at (store e t) j ≡ (if j == ip then not e.ready else pending_at t j))
        ip ae
        (λ rest at.
          let y : (ae.ip == e.ip) ≡ true = (==_iff ae.ip e.ip).1 (omega arith) in
          rw y (ground (arith, same, at)))
        (λ x rest n h. let m : (x.ip == e.ip) ≡ false = rw same n in rw m (ground (arith, n, h)))
        table f

-- what `drop_entry` does
module _ (ip : ℕ) (ae : ArpEntry) where
  pub waiting-drop :
      (c : ℕ) (table : List ArpEntry)
      → ae_lookup table ip ≡ some ae
      → waiting c (drop_entry ip table) + count c ae.compl ≡ waiting c table
  unfolding drop_entry waiting
  waiting-drop c table f =
      found_ind (λ t. waiting c (drop_entry ip t) + count c ae.compl ≡ waiting c t) ip ae
        (λ rest at. let y : (ae.ip == ip) ≡ true = (==_iff ae.ip ip).1 at in rw y (omega arith))
        (λ x rest n h. rw n (omega (arith, h))) table f

pub settled-drop :
    (ip : ℕ) (table : List ArpEntry) → settled table ≡ true → settled (drop_entry ip table) ≡ true
unfolding drop_entry settled
settled-drop ip [] h = refl
settled-drop ip (x ∷ rest) h =
    let later = settled-drop ip rest (ground (arith, h)) in ground (arith, h, later)

pub mem-drop :
    (i ip : ℕ) (table : List ArpEntry)
    → mem i (ips table) ≡ false
    → mem i (ips (drop_entry ip table)) ≡ false
unfolding drop_entry ips
mem-drop i ip [] h = refl
mem-drop i ip (x ∷ rest) h =
    let later = mem-drop i ip rest (ground (arith, h)) in ground (arith, h, later)

pub distinct-drop :
    (ip : ℕ) (table : List ArpEntry)
    → distinct (ips table) ≡ true
    → distinct (ips (drop_entry ip table)) ≡ true
unfolding drop_entry ips
distinct-drop ip [] h = refl
distinct-drop ip (x ∷ rest) h =
    let later = distinct-drop ip rest (ground (arith, h)) in
    let apart = mem-drop x.ip ip rest (ground (arith, h)) in ground (arith, h, later, apart)

pub pending_at-out :
    (ip : ℕ) (table : List ArpEntry) → mem ip (ips table) ≡ false → pending_at table ip ≡ false
unfolding pending_at ips
pending_at-out ip [] h = refl
pending_at-out ip (x ∷ rest) h =
    let later = pending_at-out ip rest (ground (arith, h)) in
    ground (arith, h, later, ==_iff x.ip ip, ==_iff ip x.ip)

pub pending_at-drop :
    (ip j : ℕ) (table : List ArpEntry)
    → distinct (ips table) ≡ true
    → pending_at (drop_entry ip table) j ≡ (if j == ip then false else pending_at table j)
unfolding drop_entry pending_at ips
pending_at-drop ip j [] h = ground arith
pending_at-drop ip j (x ∷ rest) h =
    let later = pending_at-drop ip j rest (ground (arith, h)) in
    let out = pending_at-out x.ip rest (ground (arith, h)) in
    elim (Bool-cases (x.ip == ip)) [
      | inl y ↦
          let here : x.ip ≡ ip = (==_iff x.ip ip).0 y in
          let gone : pending_at rest ip ≡ false = rw here at out in
          elim (Bool-cases (j == ip)) [
            | inl z ↦ rw (y, z, (==_iff j ip).0 z) gone
            | inr z ↦ let w : (x.ip == j) ≡ false = ground (arith, z, here) in rw (y, z, w) refl
          ]
      | inr n ↦ elim (Bool-cases (x.ip == j)) [
        | inl w ↦ let z : (j == ip) ≡ false = ground (arith, w, n) in rw (n, w, z) refl
        | inr w ↦ rw (n, w) later
      ]
    ]

pub told-append : (c : ℕ) (xs ys : List ArpEffect) → told c (xs ++ ys) ≡ told c xs + told c ys
unfolding told
told-append c [] ys = omega arith
told-append c (resolved comp mac ∷ xs) ys = omega (arith, told-append c xs ys)
told-append c (timed_out comp ∷ xs) ys = omega (arith, told-append c xs ys)
told-append c (request_tx ip ∷ xs) ys = told-append c xs ys
told-append c (response_tx mac ip ∷ xs) ys = told-append c xs ys
told-append c (timeout_arm ip us ∷ xs) ys = told-append c xs ys
told-append c (timeout_disarm ip ∷ xs) ys = told-append c xs ys

pub told-notify_all : (c mac : ℕ) (l : List ℕ) → told c (notify_all mac l) ≡ count c l
unfolding told notify_all count
told-notify_all c mac [] = refl
told-notify_all c mac (x ∷ xs) = omega (arith, told-notify_all c mac xs)

pub told-fail_all : (c : ℕ) (l : List ℕ) → told c (fail_all l) ≡ count c l
unfolding told fail_all count
told-fail_all c [] = refl
told-fail_all c (x ∷ xs) = omega (arith, told-fail_all c xs)
