-- ===== src/Wire/Transactions/Crosstalk.antt =====
-- A done message, where the listeners of lib/wire/transmanager.js are by the type of the message.
use mathlib.Core.List.{append_assoc, append-nil}
use mercury_farm.Base.{ℕ, ◌≡◌, refl, sym, ap, ◌∙◌, List, [], ◌∷◌, ◌++◌, map, ◌==◌, if-cases, arith}
use mercury_farm.Wire.Transactions.{Outcome, Manager, without, settle, settle_all, on_done_dev}

abbrev pub without_all : List ℕ → List ℕ → List ℕ
without_all [] xs = xs
without_all (c ∷ cs) xs = without_all cs (without c xs)

settle_all-settled :
    (cs : List ℕ) (o : Outcome) (s : Manager)
    → (settle_all cs o s).settled ≡ s.settled ++ map (λ c. (c, o)) cs
unfolding settle_all
settle_all-settled [] o s = sym (append-nil s.settled)
settle_all-settled (c ∷ cs) o s =
    settle_all-settled cs o (settle c o s)
    ∙ append_assoc s.settled ((c, o) ∷ []) (map (λ c. (c, o)) cs)

settle_all-waiting :
    (cs : List ℕ) (o : Outcome) (s : Manager)
    → (settle_all cs o s).waiting ≡ without_all cs s.waiting
unfolding settle_all
settle_all-waiting [] o s = refl
settle_all-waiting (c ∷ cs) o s = settle_all-waiting cs o (settle c o s)

without_all-nil : (cs : List ℕ) → without_all cs [] ≡ []
unfolding without
without_all-nil [] = refl
without_all-nil (c ∷ cs) = without_all-nil cs

without_comm : (d c : ℕ) (xs : List ℕ) → without d (without c xs) ≡ without c (without d xs)
unfolding without
without_comm d c [] = refl
without_comm d c (x ∷ xs) = ground (arith, without_comm d c xs)

-- what is taken out first stays out
without_all-behind :
    (cs xs : List ℕ) (c : ℕ) → without_all cs (without c xs) ≡ without c (without_all cs xs)
without_all-behind [] xs c = refl
without_all-behind (d ∷ cs) xs c =
    ap (without_all cs) (without_comm d c xs) ∙ without_all-behind cs (without d xs) c

without_head : (c : ℕ) (xs : List ℕ) → without c (c ∷ xs) ≡ without c xs
unfolding without
without_head c xs =
    if-cases (λ r. r ≡ without c xs) (c == c) (λ _. refl) (λ h. absurd (ground arith))

without_all-all : (cs : List ℕ) → without_all cs cs ≡ []
unfolding without
without_all-all [] = refl
without_all-all (c ∷ cs) =
    ap (without_all cs) (without_head c cs)
    ∙ without_all-behind cs cs c
    ∙ ap (without c) (without_all-all cs)

-- Where listeners are by the type of the message, a done message, on whatever channel, settles
-- every transaction that waits with its outcome, and none is left.
pub on_done_dev-settles_all :
    (c : ℕ) (o : Outcome) (s : Manager)
    → ((on_done_dev c o s).settled ≡ s.settled ++ map (λ d. (d, o)) s.waiting)
      × ((on_done_dev c o s).waiting ≡ [])
unfolding on_done_dev
on_done_dev-settles_all c o s =
    (settle_all-settled s.waiting o s, settle_all-waiting s.waiting o s ∙ without_all-all s.waiting)
