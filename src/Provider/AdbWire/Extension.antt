-- ===== src/Provider/AdbWire/Extension.antt =====
-- The reading of a buffer in lib/units/provider/ADBObserver.js, as more bytes come in.
use mercury_farm.Base.{
  ℕ, ◌≡◌, refl, sym, ap, ◌∙◌, ◌≤◌, Option, none, some, List, [], ◌∷◌, ◌++◌, ltb, if◌then◌else◌,
  if-cases, length, take, drop, arith, take-append_le, drop-append_le, length-append, Bool-cases,
  inl, inr,
}
use mercury_farm.Provider.AdbWire.{Framed, complete, incomplete, nan, sized, framed}

-- what is left
abbrev left : Framed → List ℕ
left incomplete = []
left nan = []
left (complete p rest) = rest

sized-more :
    (n : Option ℕ) (bytes more payload rest : List ℕ)
    → sized n bytes ≡ complete payload rest
    → sized n (bytes ++ more) ≡ complete payload (rest ++ more)
unfolding sized
sized-more none bytes more payload rest e = cc
sized-more (some n) bytes more payload rest e = elim (Bool-cases (ltb (length bytes) n)) [
  | inl short ↦
      let e' : incomplete ≡ complete payload rest =
        sym (ap (λ b. if b then incomplete else complete (take n bytes) (drop n bytes)) short)
        ∙ e in
      cc
  | inr long ↦
      let fits : n ≤ length bytes = ground arith in
      let e' : complete (take n bytes) (drop n bytes) ≡ complete payload rest =
        sym (ap (λ b. if b then incomplete else complete (take n bytes) (drop n bytes)) long) ∙ e in
      let p : take n bytes ≡ payload = cc in
      let r : drop n bytes ≡ rest = cc in
      if-cases (λ r. r ≡ complete payload (rest ++ more)) (ltb (length (bytes ++ more)) n)
        (λ h. ground (arith, length-append bytes more))
        (λ h. (rw (take-append_le n bytes more fits, drop-append_le n bytes more fits, p, r) refl))
]

pub framed-more :
    (bytes more payload rest : List ℕ)
    → framed bytes ≡ complete payload rest
    → framed (bytes ++ more) ≡ complete payload (rest ++ more)
unfolding framed
framed-more (a ∷ b ∷ c ∷ d ∷ bytes) more payload rest e = sized-more _ bytes more payload rest e
framed-more (a ∷ b ∷ c ∷ []) more payload rest e = cc
framed-more (a ∷ b ∷ []) more payload rest e = cc
framed-more (a ∷ []) more payload rest e = cc
framed-more [] more payload rest e = cc

sized-nan :
    (n : Option ℕ) (bytes more : List ℕ) → sized n bytes ≡ nan → sized n (bytes ++ more) ≡ nan
unfolding sized
sized-nan none bytes more e = refl
sized-nan (some n) bytes more e = elim (Bool-cases (ltb (length bytes) n)) [
  | inl short ↦
      let e' : incomplete ≡ nan =
        sym (ap (λ b. if b then incomplete else complete (take n bytes) (drop n bytes)) short)
        ∙ e in
      cc
  | inr long ↦
      let e' : complete (take n bytes) (drop n bytes) ≡ nan =
        sym (ap (λ b. if b then incomplete else complete (take n bytes) (drop n bytes)) long) ∙ e in
      cc
]

framed-nan : (bytes more : List ℕ) → framed bytes ≡ nan → framed (bytes ++ more) ≡ nan
unfolding framed
framed-nan (a ∷ b ∷ c ∷ d ∷ bytes) more e = sized-nan _ bytes more e
framed-nan (a ∷ b ∷ c ∷ []) more e = cc
framed-nan (a ∷ b ∷ []) more e = cc
framed-nan (a ∷ []) more e = cc
framed-nan [] more e = cc

-- a proper part of what is read whole is not read
pub framed-part :
    (bytes more payload : List ℕ) (x : ℕ) (f : Framed)
    → framed bytes ≡ f
    → framed (bytes ++ x ∷ more) ≡ complete payload []
    → f ≡ incomplete
framed-part bytes more payload x incomplete e h = refl
framed-part bytes more payload x nan e h =
    let e' : nan ≡ complete payload [] = sym (framed-nan bytes (x ∷ more) e) ∙ h in cc
framed-part bytes more payload x (complete p rest) e h =
    let e' : complete p (rest ++ x ∷ more) ≡ complete payload [] =
      sym (framed-more bytes (x ∷ more) p rest e) ∙ h in
    let l : length (rest ++ x ∷ more) ≡ 0 = ap (λ f. length (left f)) e' in
    ground (arith, length-append rest (x ∷ more))
