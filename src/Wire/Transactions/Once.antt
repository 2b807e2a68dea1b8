-- ===== src/Wire/Transactions/Once.antt =====
-- What becomes of the transactions of lib/wire/transmanager.js.
use mathlib.Core.Path.{subst}
use mercury_farm.Base.{
  ℕ, ◌≡◌, refl, ap, ◌∙◌, ◌+◌, ◌<◌, Bool, true, List, [], ◌∷◌, ◌++◌, ◌==◌, ltb, if◌then◌else◌,
  if-cases, arith,
}
use mercury_farm.Wire.Transactions.{
  Outcome, done, timeout, Manager, new, begin, mem, without, settle, on_done, on_timeout, Step,
  begins, done_comes, times_out, step, run,
}

abbrev pub one : Bool → ℕ
one b = if b then 1 else 0

unfoldable pub among : ℕ → List ℕ → ℕ
among c [] = 0
among c (x ∷ xs) = one (x == c) + among c xs

unfoldable pub settlements : ℕ → List (ℕ × Outcome) → ℕ
settlements c [] = 0
settlements c (x ∷ xs) = one (x.0 == c) + settlements c xs

among-append : (c : ℕ) (xs ys : List ℕ) → among c (xs ++ ys) ≡ among c xs + among c ys
unfolding among
among-append c [] ys = omega arith
among-append c (x ∷ xs) ys = rw (among-append c xs ys) (omega arith)

settlements-append :
    (c : ℕ) (xs ys : List (ℕ × Outcome))
    → settlements c (xs ++ ys) ≡ settlements c xs + settlements c ys
unfolding settlements
settlements-append c [] ys = omega arith
settlements-append c (x ∷ xs) ys = rw (settlements-append c xs ys) (omega arith)

among-without :
    (c d : ℕ) (xs : List ℕ) → among c (without d xs) ≡ (if d == c then 0 else among c xs)
unfolding among without
among-without c d [] = ground arith
among-without c d (x ∷ xs) = ground (arith, among-without c d xs)

among-mem : (c : ℕ) (xs : List ℕ) → mem c xs ≡ true → 0 < among c xs
unfolding among mem
among-mem c [] h = ground arith
among-mem c (x ∷ xs) h = ground (arith, among-mem c xs)

-- each transaction that was begun waits or is settled, and that once; who waits is subscribed
pub record Accounts (s : Manager) : Type 0 where
  pub once : (c : ℕ) → among c s.waiting + settlements c s.settled ≡ one (ltb c s.begun)
  pub in_step : s.subscribed ≡ s.waiting

moved :
    (n m k b c d : ℕ)
    → n ≡ (if c == d then 0 else m)
    → m + k ≡ one (ltb d b)
    → (c ≡ d → 0 < m)
    → n + (k + (one (c == d) + 0)) ≡ one (ltb d b)
moved n m k b c d e once here = ground arith

settle-Accounts :
    (c : ℕ) (o : Outcome) (s : Manager)
    → mem c s.waiting ≡ true
    → Accounts s
    → Accounts (settle c o s)
unfolding settlements
settle-Accounts c o s h i = record {
  once = λ d.
      ap (λ n. among d (without c s.waiting) + n) (settlements-append d s.settled ((c, o) ∷ []))
      ∙ moved (among d (without c s.waiting)) (among d s.waiting) (settlements d s.settled) s.begun
          c d (among-without d c s.waiting) (i.once d)
          (λ e. subst (λ x. 0 < among x s.waiting) e (among-mem c s.waiting h));
  in_step = ap (without c) i.in_step;
}

fresh : (m k b c : ℕ) → m + k ≡ one (ltb c b) → (m + (one (b == c) + 0)) + k ≡ one (ltb c (b + 1))
fresh m k b c e = ground arith

begin-Accounts : (s : Manager) → Accounts s → Accounts (begin s)
unfolding begin among
begin-Accounts s i = record {
  once = λ c.
      ap (λ n. n + settlements c s.settled) (among-append c s.waiting (s.begun ∷ []))
      ∙ fresh (among c s.waiting) (settlements c s.settled) s.begun c (i.once c);
  in_step = ap (λ l. l ++ s.begun ∷ []) i.in_step;
}

step-Accounts : (e : Step) (s : Manager) → Accounts s → Accounts (step e s)
unfolding step on_done on_timeout
step-Accounts begins s i = begin-Accounts s i
step-Accounts (done_comes c success body) s i =
    if-cases Accounts (mem c s.waiting) (λ h. settle-Accounts c (done success body) s h i) (λ _. i)
step-Accounts (times_out c) s i =
    if-cases Accounts (mem c s.waiting) (λ h. settle-Accounts c timeout s h i) (λ _. i)

run-from : (steps : List Step) (s : Manager) → Accounts s → Accounts (run steps s)
unfolding run
run-from [] s i = i
run-from (e ∷ steps) s i = run-from steps (step e s) (step-Accounts e s i)

-- Over any transactions, done messages on their channels and timeouts: each transaction that was
-- begun waits or is settled, and that exactly once, and the channels that are subscribed to are
-- those of the transactions that wait.
pub run-Accounts : (steps : List Step) → Accounts (run steps new)
unfolding new among settlements
run-Accounts steps = run-from steps new (record { once = λ c. ground arith; in_step = refl })
