-- ===== src/Table/Oldest.antt =====
-- `hashtable_find_best_deleted_record` chooses the deleted record that is reused.
use app_com_util.Base.{
  ℕ, zero, suc, ◌+◌, ◌-◌, ◌≤◌, ◌<◌, ◌≡◌, refl, ap, ◌∙◌, Bool, true, false, ◌&&◌, ◌||◌, List, [],
  ◌∷◌, ◌==◌, ltb, Option, none, some, length, get_or, arith, Bool-cases, Option-cases, ltb→lt,
  ltb-false→le, ◌⊎◌, inl, inr, if◌then◌else◌,
}
use app_com_util.Table.{Table, Entry, empty_entry, has_record_timestamp}
use app_com_util.Table.Put.{Best, best_number, is_better, best_from, find_best_deleted_record}

-- A record with the first status and generation goes before one with the second ones.
abbrev goes_before : Bool → ℕ → ℕ → ℕ → ℕ → Bool
goes_before timed s g s' g' = ltb s' s || ((s == s') && timed && ltb g g')

abbrev is_before : Bool → Best → Entry → Bool
is_before timed b e = goes_before timed b.status b.generation e.status e.generation

-- The best record is one of the entries that stand from index `i` on, is deleted, and goes
-- before each deleted one in front of it.
record IsAt (timed : Bool) (i : ℕ) (es : List Entry) (b : Best) : Type 0 where
  low : i ≤ b.rec
  high : b.rec < i + length es
  status : b.status ≡ (get_or es (b.rec - i) empty_entry).status
  deleted : 2 ≤ b.status
  generation : b.generation ≡ (if timed then (get_or es (b.rec - i) empty_entry).generation else 0)
  first :
      (k : ℕ)
      → k < b.rec - i
      → 2 ≤ (get_or es k empty_entry).status
      → is_before timed b (get_or es k empty_entry) ≡ true

-- No deleted entry is better.
abbrev IsBest : Bool → List Entry → Best → Type 0
IsBest timed es b =
    (k : ℕ)
    → k < length es
    → 2 ≤ (get_or es k empty_entry).status
    → is_better timed (some b) (get_or es k empty_entry) ≡ false

-- What is no better than the first is no better than the second.
abbrev Improves : Bool → Best → Best → Type 0
Improves timed a b =
    (e : Entry) → is_better timed (some a) e ≡ false → is_better timed (some b) e ≡ false

-- What the loop makes of the best record so far.
abbrev IsChoice : Bool → ℕ → List Entry → Option Best → Option Best → Type 0
IsChoice timed i es none none = (k : ℕ) → k < length es → (get_or es k empty_entry).status < 2
IsChoice timed i es none (some b) = IsAt timed i es b × IsBest timed es b
IsChoice timed i es (some a) none = ⊥
IsChoice timed i es (some a) (some b) =
    ((b ≡ a)
      ⊎ (IsAt timed i es b
          × (goes_before timed b.status b.generation a.status a.generation ≡ true)))
    × IsBest timed es b
    × Improves timed a b

IsAt-cons :
    (timed : Bool) (i : ℕ) (e : Entry) (es : List Entry) (b : Best)
    → ((e.status < 2) ⊎ (is_before timed b e ≡ true))
    → IsAt timed (i + 1) es b
    → IsAt timed i (e ∷ es) b
IsAt-cons timed i e es b c h =
    let at : b.rec - i ≡ suc (b.rec - (i + 1)) = omega (arith, h.low) in
    record {
      low = omega (arith, h.low);
      high = omega (arith, h.high);
      status = rw at h.status;
      deleted = h.deleted;
      generation = rw at h.generation;
      first = λ k l d. split_index k l d c;
    }
  where
    split_index :
        (k : ℕ)
        → k < b.rec - i
        → 2 ≤ (get_or (e ∷ es) k empty_entry).status
        → ((e.status < 2) ⊎ (is_before timed b e ≡ true))
        → is_before timed b (get_or (e ∷ es) k empty_entry) ≡ true
    split_index zero l d (inl young) = absurd (omega arith)
    split_index zero l d (inr before) = before
    split_index (suc k) l d c = h.first k (omega arith) d

IsBest-cons :
    (timed : Bool) (e : Entry) (es : List Entry) (b : Best)
    → ((e.status < 2) ⊎ (is_better timed (some b) e ≡ false))
    → IsBest timed es b
    → IsBest timed (e ∷ es) b
IsBest-cons timed e es b (inl young) h zero l d = absurd (omega arith)
IsBest-cons timed e es b (inr worse) h zero l d = worse
IsBest-cons timed e es b c h (suc k) l d = h k (omega arith) d

abbrev at_index : Bool → ℕ → Entry → Best
at_index timed i e = record {
  rec = i;
  status = e.status;
  generation = if timed then e.generation else 0;
}

at_index-IsAt :
    (timed : Bool) (i : ℕ) (e : Entry) (es : List Entry)
    → 2 ≤ e.status
    → IsAt timed i (e ∷ es) (at_index timed i e)
at_index-IsAt timed i e es old =
    let here : i - i ≡ 0 = omega arith in
    record {
      low = omega arith;
      high = omega arith;
      status = rw here refl;
      deleted = old;
      generation = rw here refl;
      first = λ k l d. absurd (omega arith);
    }

not_better_self :
    (timed : Bool) (i : ℕ) (e : Entry) → is_better timed (some (at_index timed i e)) e ≡ false
unfolding is_better
not_better_self true i e = ground arith
not_better_self false i e = ground arith

better-Improves :
    (timed : Bool) (i : ℕ) (e : Entry) (a : Best)
    → is_better timed (some a) e ≡ true
    → Improves timed a (at_index timed i e)
unfolding is_better
better-Improves true i e a h x k = ground arith
better-Improves false i e a h x k = ground arith

skip_first :
    (timed : Bool) (i : ℕ) (e : Entry) (es : List Entry) (r : Option Best)
    → e.status < 2
    → IsChoice timed (i + 1) es none r
    → IsChoice timed i (e ∷ es) none r
skip_first timed i e es none young h = λ k l. split_index k l
  where
    split_index : (k : ℕ) → k < suc (length es) → (get_or (e ∷ es) k empty_entry).status < 2
    split_index zero l = young
    split_index (suc k) l = h k (omega arith)
skip_first timed i e es (some b) young h =
    (IsAt-cons timed i e es b (inl young) h.0, IsBest-cons timed e es b (inl young) h.1)

before_worse :
    (timed : Bool) (a b : Best) (e : Entry)
    → goes_before timed b.status b.generation a.status a.generation ≡ true
    → is_better timed (some a) e ≡ false
    → is_before timed b e ≡ true
unfolding is_better
before_worse true a b e h k = ground arith
before_worse false a b e h k = ground arith

skip_further :
    (timed : Bool) (i : ℕ) (e : Entry) (es : List Entry) (a : Best) (r : Option Best)
    → ((e.status < 2) ⊎ (is_better timed (some a) e ≡ false))
    → IsChoice timed (i + 1) es (some a) r
    → IsChoice timed i (e ∷ es) (some a) r
skip_further timed i e es a none c h = h
skip_further timed i e es a (some b) c h = (
  elim h.0 [
    | inl same ↦ inl same
    | inr (at, before) ↦ inr (
      IsAt-cons timed i e es b
          (elim c [
            | inl young ↦ inl young
            | inr worse ↦ inr (before_worse timed a b e before worse)
          ])
          at,
      before,
    )
  ],
  IsBest-cons timed e es b (elim c [ inl young ↦ inl young | inr worse ↦ inr (h.2 e worse) ]) h.1,
  h.2,
)

-- What the entry itself goes before, or what goes before it.
before_self :
    (timed : Bool) (i : ℕ) (e : Entry) (b : Best)
    → goes_before timed b.status b.generation
        (at_index timed i e).status
        (at_index timed i e).generation
      ≡ true
    → is_before timed b e ≡ true
before_self true i e b h = h
before_self false i e b h = ground arith

before_better :
    (timed : Bool) (i : ℕ) (e : Entry) (a b : Best)
    → is_better timed (some a) e ≡ true
    → (b ≡ at_index timed i e)
      ⊎ (goes_before timed b.status b.generation
            (at_index timed i e).status
            (at_index timed i e).generation
          ≡ true)
    → goes_before timed b.status b.generation a.status a.generation ≡ true
unfolding is_better
before_better true i e a b h (inl same) = rw same (ground arith)
before_better false i e a b h (inl same) = rw same (ground arith)
before_better true i e a b h (inr before) = ground arith
before_better false i e a b h (inr before) = ground arith

abbrev LaterThan : Bool → ℕ → Entry → List Entry → Best → Type 0
LaterThan timed i e es b =
    IsAt timed (i + 1) es b
    × (goes_before timed b.status b.generation (at_index timed i e).status
          (at_index timed i e).generation
        ≡ true)

pick_place :
    (timed : Bool) (i : ℕ) (e : Entry) (es : List Entry) (b : Best)
    → 2 ≤ e.status
    → (b ≡ at_index timed i e) ⊎ LaterThan timed i e es b
    → IsAt timed i (e ∷ es) b
pick_place timed i e es b old (inl same) = rw same (at_index-IsAt timed i e es old)
pick_place timed i e es b old (inr (at, before)) =
    IsAt-cons timed i e es b (inr (before_self timed i e b before)) at

pick_first :
    (timed : Bool) (i : ℕ) (e : Entry) (es : List Entry) (r : Option Best)
    → 2 ≤ e.status
    → IsChoice timed (i + 1) es (some (at_index timed i e)) r
    → IsChoice timed i (e ∷ es) none r
pick_first timed i e es none old h = elim h [ ]
pick_first timed i e es (some b) old h = (
  pick_place timed i e es b old h.0,
  IsBest-cons timed e es b (inr (h.2 e (not_better_self timed i e))) h.1,
)

pick_further :
    (timed : Bool) (i : ℕ) (e : Entry) (es : List Entry) (a : Best) (r : Option Best)
    → 2 ≤ e.status
    → is_better timed (some a) e ≡ true
    → IsChoice timed (i + 1) es (some (at_index timed i e)) r
    → IsChoice timed i (e ∷ es) (some a) r
pick_further timed i e es a none old better h = h
pick_further timed i e es a (some b) old better h = (
  inr (
    pick_place timed i e es b old h.0,
    before_better timed i e a b better
        (elim h.0 [ inl same ↦ inl same | inr (at, before) ↦ inr before ]),
  ),
  IsBest-cons timed e es b (inr (h.2 e (not_better_self timed i e))) h.1,
  λ x k. h.2 x (better-Improves timed i e a better x k),
)

best_from-IsChoice :
    (timed : Bool) (i : ℕ) (best : Option Best) (es : List Entry)
    → IsChoice timed i es best (best_from timed i none best es)
unfolding best_from
best_from-IsChoice timed i none [] = λ k l. absurd (omega arith)
best_from-IsChoice timed i (some a) [] = (inl refl, λ k l. absurd (omega arith), λ e h. h)
best_from-IsChoice timed i none (e ∷ es) = elim (Bool-cases (ltb e.status 2)) [
  | inl young ↦ rw young (
      skip_first timed i e es _ (ltb→lt e.status 2 young)
        (best_from-IsChoice timed (i + 1) none es))
  | inr old ↦ rw old (
      unfold is_better in
      pick_first timed i e es _ (ltb-false→le e.status 2 old)
        (best_from-IsChoice timed (i + 1) (some (at_index timed i e)) es))
]
best_from-IsChoice timed i (some a) (e ∷ es) = elim (Bool-cases (ltb e.status 2)) [
  | inl young ↦ rw young (
      skip_further timed i e es a _ (inl (ltb→lt e.status 2 young))
        (best_from-IsChoice timed (i + 1) (some a) es))
  | inr old ↦ elim (Bool-cases (is_better timed (some a) e)) [
    | inl better ↦
        rw (old, better)
          (pick_further timed i e es a _ (ltb-false→le e.status 2 old) better
            (best_from-IsChoice timed (i + 1) (some (at_index timed i e)) es))
    | inr worse ↦
        rw (old, worse)
          (skip_further timed i e es a _ (inr worse) (best_from-IsChoice timed (i + 1) (some a) es))
  ]
]

-- `a` goes before `b`: it was pushed more often since its deletion, or as often and, where records
-- carry a time, has the lower generation.
abbrev pub older : Bool → Entry → Entry → Bool
older timed a b =
    ltb b.status a.status || ((a.status == b.status) && timed && ltb a.generation b.generation)

-- Record number `n`, counted from 1, is the deleted one that goes first, and of those that go first
-- together the one with the lowest number; 0 says that none is deleted.
abbrev pub IsOldest : Bool → List Entry → ℕ → Type 0
IsOldest timed es zero = (k : ℕ) → k < length es → (get_or es k empty_entry).status < 2
IsOldest timed es (suc n) =
    (n < length es)
    × (2 ≤ (get_or es n empty_entry).status)
    × ((k : ℕ)
        → k < length es
        → 2 ≤ (get_or es k empty_entry).status
        → older timed (get_or es k empty_entry) (get_or es n empty_entry) ≡ false)
    × ((k : ℕ)
        → k < n
        → 2 ≤ (get_or es k empty_entry).status
        → older timed (get_or es n empty_entry) (get_or es k empty_entry) ≡ true)

older-is_better :
    (timed : Bool) (e e' : Entry) (b : Best)
    → b.status ≡ e.status
    → b.generation ≡ (if timed then e.generation else 0)
    → is_better timed (some b) e' ≡ false
    → older timed e' e ≡ false
unfolding is_better
older-is_better true e e' b s g h = ground arith
older-is_better false e e' b s g h = ground arith

older-before :
    (timed : Bool) (e e' : Entry) (b : Best)
    → b.status ≡ e.status
    → b.generation ≡ (if timed then e.generation else 0)
    → is_before timed b e' ≡ true
    → older timed e e' ≡ true
older-before true e e' b s g h = ground arith
older-before false e e' b s g h = ground arith

-- The record that `hashtable_find_best_deleted_record` reuses, with no marks of records to keep, is a
-- deleted one of the highest status; of those, where records carry a time, one of the lowest generation;
-- and of those the one with the lowest number. It answers 0 only if none is deleted.
pub find_best_deleted_record-IsOldest :
    (t : Table) → IsOldest (has_record_timestamp t) t.entries (find_best_deleted_record t none)
unfolding find_best_deleted_record
find_best_deleted_record-IsOldest t =
    let timed = has_record_timestamp t in
    let choice = best_from-IsChoice timed 0 none t.entries in
    elim (Option-cases (best_from timed 0 none none t.entries)) [
      | inl f ↦
          let answer : find_best_deleted_record t none ≡ 0 = ap best_number f in
          rw answer (rw f at choice)
      | inr (b, f) ↦
          let found : IsChoice timed 0 t.entries none (some b) = rw f at choice in
          let here : b.rec - 0 ≡ b.rec = omega arith in
          let next : b.rec + 1 ≡ suc b.rec = omega arith in
          let answer : find_best_deleted_record t none ≡ suc b.rec = ap best_number f ∙ next in
          let at = found.0 in
          rw answer (
            omega (arith, at.high),
            omega (arith, at.deleted, rw here at at.status),
            λ k l d.
                older-is_better timed (get_or t.entries b.rec empty_entry)
                  (get_or t.entries k empty_entry) b (rw here at at.status)
                  (rw here at at.generation) (found.1 k l d),
            λ k l d.
                older-before timed (get_or t.entries b.rec empty_entry)
                  (get_or t.entries k empty_entry) b (rw here at at.status)
                  (rw here at at.generation) (at.first k (omega (arith, here)) d),
          )
    ]
