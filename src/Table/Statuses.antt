-- ===== src/Table/Statuses.antt =====
-- Counting over the statuses of the records.
use app_com_util.Base.{
  ℕ, zero, suc, ◌+◌, ◌≤◌, ◌<◌, ◌≡◌, ◌≢◌, refl, ap, ◌||◌, List, [], ◌∷◌, ltb, leb, ◌==◌,
  if◌then◌else◌, length, get_or, set, drop, map, arith, ◌⊎◌, inl,
}
use app_com_util.Table.{Entry, first_empty, empty_entry}

abbrev pub statuses : List Entry → List ℕ
statuses = map (λ e. e.status)

-- The numbers of records in use and deleted.
abbrev pub in_use : List ℕ → ℕ
in_use [] = 0
in_use (s ∷ ss) = (if s == 1 then 1 else 0) + in_use ss

abbrev pub deleted : List ℕ → ℕ
deleted [] = 0
deleted (s ∷ ss) = (if leb 2 s then 1 else 0) + deleted ss

-- The number, from 1 on, of the first empty record from index `i` on; 0 if there is none.
abbrev pub first_zero : ℕ → List ℕ → ℕ
first_zero i [] = 0
first_zero i (s ∷ ss) = let further = first_zero (i + 1) ss in if s == 0 then i + 1 else further

pub first_empty-eq : (i : ℕ) (es : List Entry) → first_empty i es ≡ first_zero i (statuses es)
unfolding first_empty
first_empty-eq i [] = refl
first_empty-eq i (e ∷ es) = rw (first_empty-eq (i + 1) es)

pub in_use-set :
    (ss : List ℕ) (i s : ℕ)
    → i < length ss
    → in_use (set ss i s) + (if get_or ss i 0 == 1 then 1 else 0)
      ≡ in_use ss + (if s == 1 then 1 else 0)
in_use-set [] i s h = absurd (omega arith)
in_use-set (x ∷ ss) zero s h = omega arith
in_use-set (x ∷ ss) (suc i) s h = omega (arith, in_use-set ss i s (omega arith))

pub deleted-set :
    (ss : List ℕ) (i s : ℕ)
    → i < length ss
    → deleted (set ss i s) + (if leb 2 (get_or ss i 0) then 1 else 0)
      ≡ deleted ss + (if leb 2 s then 1 else 0)
deleted-set [] i s h = absurd (omega arith)
deleted-set (x ∷ ss) zero s h = omega arith
deleted-set (x ∷ ss) (suc i) s h = omega (arith, deleted-set ss i s (omega arith))

pub counts-le : (ss : List ℕ) → in_use ss + deleted ss ≤ length ss
counts-le [] = omega arith
counts-le (x ∷ ss) = ground (arith, counts-le ss)

-- A status that is not 0 stands inside the list.
pub status_inside : (ss : List ℕ) (i : ℕ) → get_or ss i 0 ≢ 0 → i < length ss
status_inside [] i h = absurd (h refl)
status_inside (x ∷ ss) zero h = omega arith
status_inside (x ∷ ss) (suc i) h = omega (arith, status_inside ss i h)

pub first_zero-bounds :
    (i : ℕ) (ss : List ℕ)
    → (first_zero i ss ≡ 0) ⊎ ((i < first_zero i ss) × (first_zero i ss ≤ i + length ss))
first_zero-bounds i [] = inl refl
first_zero-bounds i (x ∷ ss) = ground (arith, first_zero-bounds (i + 1) ss)

-- The record found is empty.
pub first_zero-empty :
    (i : ℕ) (ss : List ℕ) (k : ℕ) → first_zero i ss ≡ i + k + 1 → get_or ss k 0 ≡ 0
first_zero-empty i [] k e = refl
first_zero-empty i (x ∷ ss) zero e = ground (arith, first_zero-bounds (i + 1) ss)
first_zero-empty i (x ∷ ss) (suc k) e = ground (arith, first_zero-empty (i + 1) ss k)

-- A record that stays occupied does not move the first empty one.
pub first_zero-set_occupied :
    (i : ℕ) (ss : List ℕ) (k s : ℕ)
    → get_or ss k 0 ≢ 0
    → s ≢ 0
    → first_zero i (set ss k s) ≡ first_zero i ss
first_zero-set_occupied i [] k s h n = refl
first_zero-set_occupied i (x ∷ ss) zero s h n = ground arith
first_zero-set_occupied i (x ∷ ss) (suc k) s h n =
    ground (arith, first_zero-set_occupied (i + 1) ss k s h n)

-- Filling the first empty record: the next one is looked for behind it.
pub first_zero-set_first :
    (i : ℕ) (ss : List ℕ) (k s : ℕ)
    → first_zero i ss ≡ i + k + 1
    → s ≢ 0
    → first_zero i (set ss k s) ≡ first_zero (i + k + 1) (drop (k + 1) (set ss k s))
first_zero-set_first i [] k s e n = absurd (omega arith)
first_zero-set_first i (x ∷ ss) zero s e n =
    let at : i + 0 + 1 ≡ i + 1 = omega arith in
    let one : 0 + 1 ≡ suc 0 = omega arith in rw (at, one) (ground arith)
first_zero-set_first i (x ∷ ss) (suc k) s e n =
    let at : i + suc k + 1 ≡ i + 1 + k + 1 = omega arith in
    let one : suc k + 1 ≡ suc (k + 1) = omega arith in
    let tail : first_zero (i + 1) ss ≡ i + 1 + k + 1 = ground arith in
    rw (at, one) (ground (arith, first_zero-set_first (i + 1) ss k s tail n))

-- Filling any other record does not move it.
pub first_zero-set_other :
    (i : ℕ) (ss : List ℕ) (k s : ℕ)
    → first_zero i ss ≢ i + k + 1
    → s ≢ 0
    → first_zero i (set ss k s) ≡ first_zero i ss
first_zero-set_other i [] k s e n = refl
first_zero-set_other i (x ∷ ss) zero s e n = ground arith
first_zero-set_other i (x ∷ ss) (suc k) s e n = ground (arith, first_zero-set_other (i + 1) ss k s)

-- Emptying a record.
pub first_zero-set_empty :
    (i : ℕ) (ss : List ℕ) (k : ℕ)
    → k < length ss
    → first_zero i (set ss k 0) ≡ (
        if (first_zero i ss == 0) || ltb (i + k + 1) (first_zero i ss)
        then i + k + 1
        else first_zero i ss)
first_zero-set_empty i [] k h = absurd (omega arith)
first_zero-set_empty i (x ∷ ss) zero h = ground (arith, first_zero-bounds (i + 1) ss)
first_zero-set_empty i (x ∷ ss) (suc k) h =
    ground (arith, first_zero-set_empty (i + 1) ss k, first_zero-bounds (i + 1) ss)

-- Entries and their statuses.
pub map-set :
    (es : List Entry) (i : ℕ) (e : Entry) → statuses (set es i e) ≡ set (statuses es) i e.status
map-set [] i e = refl
map-set (x ∷ es) zero e = refl
map-set (x ∷ es) (suc i) e = ap (λ l. x.status ∷ l) (map-set es i e)

pub map-get_or :
    (es : List Entry) (i : ℕ) → get_or (statuses es) i 0 ≡ (get_or es i empty_entry).status
map-get_or [] i = refl
map-get_or (x ∷ es) zero = refl
map-get_or (x ∷ es) (suc i) = map-get_or es i

pub set-get_or : (ss : List ℕ) (i : ℕ) → set ss i (get_or ss i 0) ≡ ss
set-get_or [] i = refl
set-get_or (x ∷ ss) zero = refl
set-get_or (x ∷ ss) (suc i) = ap (λ l. x ∷ l) (set-get_or ss i)

pub set-set : (ss : List ℕ) (i a b : ℕ) → set (set ss i a) i b ≡ set ss i b
set-set [] i a b = refl
set-set (x ∷ ss) zero a b = refl
set-set (x ∷ ss) (suc i) a b = ap (λ l. x ∷ l) (set-set ss i a b)

pub length-statuses : (es : List Entry) → length (statuses es) ≡ length es
length-statuses [] = refl
length-statuses (x ∷ es) = ap suc (length-statuses es)

-- A write to an entry that keeps its status.
pub statuses-set_same :
    (es : List Entry) (i : ℕ) (e : Entry)
    → e.status ≡ (get_or es i empty_entry).status
    → statuses (set es i e) ≡ statuses es
statuses-set_same [] i e h = refl
statuses-set_same (x ∷ es) zero e h = ap (λ s. s ∷ statuses es) h
statuses-set_same (x ∷ es) (suc i) e h = ap (λ l. x.status ∷ l) (statuses-set_same es i e h)

pub statuses-drop : (n : ℕ) (es : List Entry) → statuses (drop n es) ≡ drop n (statuses es)
statuses-drop zero es = refl
statuses-drop (suc n) [] = refl
statuses-drop (suc n) (x ∷ es) = statuses-drop n es
