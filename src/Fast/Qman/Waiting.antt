-- ===== src/Fast/Qman/Waiting.antt =====
-- The bytes that wait in all the flow queues of a machine.
use tas.Base.{
  ℕ, zero, suc, ◌+◌, ◌≤◌, ◌<◌, ◌≡◌, ◌≢◌, refl, sym, ◌∙◌, ap, arith, Bool, true, ◌&&◌, List, [], ◌∷◌,
  ltb, ℕ_discrete, ◌==◌, if◌then◌else◌,
}
use tas.Fast.Qman.{FlowQman}
use tas.Fast.Qman.Flows.{Chunk}
use tas.Fast.Qman.Poll.{flow_queues}
use tas.Fast.Qman.Chunks.{taken}
use tas.Fast.Qman.SafePoll.{all_below}
use tas.Fast.Qman.Vms.{bytes_of}

-- `f 0 + … + f (n - 1)`
unfoldable pub total : ℕ → (ℕ → ℕ) → ℕ
total zero f = 0
total (suc n) f = total n f + f n

pub waiting : FlowQman → ℕ
waiting fq = total flow_queues (λ i. (fq.queues i).avail)

total_add :
    (n : ℕ) (f g h : ℕ → ℕ) → ((i : ℕ) → f i + g i ≡ h i) → total n f + total n g ≡ total n h
unfolding total
total_add zero f g h e = omega arith
total_add (suc n) f g h e = omega (arith, total_add n f g h e, e n)

total_same : (n : ℕ) (f g : ℕ → ℕ) → ((i : ℕ) → f i ≡ g i) → total n f ≡ total n g
unfolding total
total_same zero f g e = refl
total_same (suc n) f g e = omega (arith, total_same n f g e, e n)

total_zero : (n : ℕ) → total n (λ i. 0) ≡ 0
unfolding total
total_zero zero = refl
total_zero (suc n) = omega (arith, total_zero n)

total_one : (n k b : ℕ) → total n (λ i. if k == i then b else 0) ≡ (if ltb k n then b else 0)
unfolding total
total_one zero k b = ground arith
total_one (suc n) k b = ground (arith, total_one n k b)

-- Each chunk is of one of the first `n` queues.
abbrev all_under : ℕ → List Chunk → Bool
all_under n [] = true
all_under n (c ∷ cs) = ltb c.q_id n && all_under n cs

total-taken :
    (n : ℕ) (cs : List Chunk) → all_under n cs ≡ true → total n (λ i. taken i cs) ≡ bytes_of cs
total-taken n [] h = total_zero n
total-taken n (c ∷ cs) h =
    let rest = total-taken n cs (ground (arith, h)) in
    let one = total_one n c.q_id c.bytes in
    let under : ltb c.q_id n ≡ true = ground (arith, h) in
    let all =
      total_add n (λ i. if c.q_id == i then c.bytes else 0) (λ i. taken i cs)
        (λ i. taken i (c ∷ cs)) (λ i. refl) in
    sym all
    ∙ ap (λ k. k + total n (λ i. taken i cs)) (one ∙ rw under refl)
    ∙ ap (λ k. c.bytes + k) rest

under_below : (cs : List Chunk) → all_below cs ≡ true → all_under flow_queues cs ≡ true
under_below [] h = refl
under_below (c ∷ cs) h = ground (arith, under_below cs)

-- What a report takes from the queues of the array is what it takes from the sum.
pub waiting-report :
    (fq fq' : FlowQman) (cs : List Chunk)
    → all_below cs ≡ true
    → ((i : ℕ) → (fq'.queues i).avail + taken i cs ≡ (fq.queues i).avail)
    → waiting fq' + bytes_of cs ≡ waiting fq
unfolding waiting
waiting-report fq fq' cs b h =
    ap (λ k. waiting fq' + k) (sym (total-taken flow_queues cs (under_below cs b)))
    ∙ total_add flow_queues (λ i. (fq'.queues i).avail) (λ i. taken i cs) (λ i. (fq.queues i).avail)
        h

total_under : (n : ℕ) (f g : ℕ → ℕ) → ((i : ℕ) → i < n → f i ≡ g i) → total n f ≡ total n g
unfolding total
total_under zero f g e = refl
total_under (suc n) f g e =
    omega (arith, total_under n f g (λ i b. e i (omega arith)), e n (omega arith))

total_change :
    (n k x : ℕ) (f g : ℕ → ℕ)
    → k < n
    → ((i : ℕ) → i ≢ k → g i ≡ f i)
    → g k ≡ x
    → total n g + f k ≡ total n f + x
unfolding total
total_change zero k x f g h far at = absurd (omega arith)
total_change (suc n) k x f g h far at = elim (ℕ_discrete n k) [
  | yes e ↦
      let same : total n g ≡ total n f =
        total_under n g f (λ i b. far i (λ c. omega (arith, c, e))) in
      let here : f n ≡ f k = ap f e in let there : g n ≡ x = ap g e ∙ at in omega arith
  | no d ↦ omega (arith, total_change n k x f g (omega (arith, d)) far at, far n d)
]

-- One queue of the array with other bytes.
pub waiting-change :
    (fq fq' : FlowQman) (idx : ℕ)
    → idx < flow_queues
    → ((i : ℕ) → i ≢ idx → (fq'.queues i).avail ≡ (fq.queues i).avail)
    → waiting fq' + (fq.queues idx).avail ≡ waiting fq + (fq'.queues idx).avail
unfolding waiting
waiting-change fq fq' idx b far =
    total_change flow_queues idx (fq'.queues idx).avail (λ i. (fq.queues i).avail)
      (λ i. (fq'.queues i).avail) b far refl

pub waiting-same :
    (fq fq' : FlowQman)
    → ((i : ℕ) → (fq'.queues i).avail ≡ (fq.queues i).avail)
    → waiting fq' ≡ waiting fq
unfolding waiting
waiting-same fq fq' h =
    total_same flow_queues (λ i. (fq'.queues i).avail) (λ i. (fq.queues i).avail) h

pub waiting-empty : (fq : FlowQman) → ((i : ℕ) → (fq.queues i).avail ≡ 0) → waiting fq ≡ 0
unfolding waiting
waiting-empty fq h =
    total_same flow_queues (λ i. (fq.queues i).avail) (λ i. 0) h ∙ total_zero flow_queues

total_has : (n k : ℕ) (f : ℕ → ℕ) → k < n → f k ≤ total n f
unfolding total
total_has zero k f h = absurd (omega arith)
total_has (suc n) k f h = elim (ℕ_discrete n k) [
  | yes e ↦ let here : f n ≡ f k = ap f e in omega arith
  | no d ↦ omega (arith, total_has n k f (omega (arith, d)))
]

pub waiting-has : (fq : FlowQman) (idx : ℕ) → idx < flow_queues → (fq.queues idx).avail ≤ waiting fq
unfolding waiting
waiting-has fq idx b = total_has flow_queues idx (λ i. (fq.queues i).avail) b
