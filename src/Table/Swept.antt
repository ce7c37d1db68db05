-- ===== src/Table/Swept.antt =====
-- A loop over the records that changes the first statuses, and the first empty record among them.
use app_com_util.Base.{
  ℕ, zero, suc, ◌+◌, ◌<◌, ◌≡◌, refl, ap, List, [], ◌∷◌, map, take, length, get_or, set, arith, ◌==◌,
  if◌then◌else◌, ◌&&◌,
}
use app_com_util.Table.Statuses.{first_zero}

-- The first `n` statuses are changed by `f`.
abbrev pub swept : (ℕ → ℕ) → ℕ → List ℕ → List ℕ
swept f zero ss = ss
swept f (suc n) [] = []
swept f (suc n) (s ∷ ss) = f s ∷ swept f n ss

pub get_or-swept : (f : ℕ → ℕ) (n : ℕ) (ss : List ℕ) → get_or (swept f n ss) n 0 ≡ get_or ss n 0
get_or-swept f zero ss = refl
get_or-swept f (suc n) [] = refl
get_or-swept f (suc n) (s ∷ ss) = get_or-swept f n ss

pub set-swept :
    (f : ℕ → ℕ) (n : ℕ) (ss : List ℕ)
    → set (swept f n ss) n (f (get_or ss n 0)) ≡ swept f (suc n) ss
set-swept f zero [] = refl
set-swept f zero (s ∷ ss) = refl
set-swept f (suc n) [] = refl
set-swept f (suc n) (s ∷ ss) = ap (λ l. f s ∷ l) (set-swept f n ss)

pub swept_all : (f : ℕ → ℕ) (ss : List ℕ) → swept f (length ss) ss ≡ map f ss
swept_all f [] = refl
swept_all f (s ∷ ss) = ap (λ l. f s ∷ l) (swept_all f ss)

pub length-swept : (f : ℕ → ℕ) (n : ℕ) (ss : List ℕ) → length (swept f n ss) ≡ length ss
length-swept f zero ss = refl
length-swept f (suc n) [] = refl
length-swept f (suc n) (s ∷ ss) = ap suc (length-swept f n ss)

pub take-swept :
    (f : ℕ → ℕ) (n : ℕ) (ss : List ℕ) → take n (swept f (suc n) ss) ≡ take n (swept f n ss)
take-swept f zero ss = refl
take-swept f (suc n) [] = refl
take-swept f (suc n) (s ∷ ss) = ap (λ l. f s ∷ l) (take-swept f n ss)

pub take_all : (ss : List ℕ) → take (length ss) ss ≡ ss
take_all [] = refl
take_all (s ∷ ss) = ap (λ l. s ∷ l) (take_all ss)

pub first_zero-take :
    (b n : ℕ) (ss : List ℕ)
    → n < length ss
    → first_zero b (take (suc n) ss) ≡ (
        if (first_zero b (take n ss) == 0) && (get_or ss n 0 == 0)
        then b + n + 1
        else first_zero b (take n ss))
first_zero-take b n [] h = absurd (omega arith)
first_zero-take b zero (s ∷ ss) h = ground arith
first_zero-take b (suc n) (s ∷ ss) h = ground (arith, first_zero-take (b + 1) n ss)

pub length-map : (f : ℕ → ℕ) (ss : List ℕ) → length (map f ss) ≡ length ss
length-map f [] = refl
length-map f (s ∷ ss) = ap suc (length-map f ss)
