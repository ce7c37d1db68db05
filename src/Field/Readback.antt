-- ===== src/Field/Readback.antt =====
-- A string written into a field is the string read from it, and the other strings stay.
use app_com_util.Base.{
  ℕ, suc, ◌+◌, ◌≤◌, ◌<◌, ◌≡◌, ◌≢◌, refl, ap, subst, sym, true, false, List, [], ◌∷◌, ◌⊎◌, inl, inr,
  length, get_or, take, drop, replicate, arith, get_or-set_self, get_or-set_ne, length-take,
  length-replicate, Bool-cases, ◌==◌,
}
use app_com_util.Bytes.{
  strlen, c_string, overwrite, take-drop-overwrite, take-drop-overwrite_before,
  drop-overwrite_behind,
}
use app_com_util.Field.{Field, no_ref, ref_at, field_at, string_size, store}
use app_com_util.Layout.{field_is_variable, fixed_string, variable_string}

-- Memory that starts with a string and its NUL reads as the string.
c_string-prefix :
    (input memory : List ℕ)
    → strlen input < length input
    → take (suc (strlen input)) memory ≡ take (suc (strlen input)) input
    → c_string memory ≡ c_string input
c_string-prefix [] memory h e = absurd (omega arith)
c_string-prefix (c ∷ cs) [] h e = absurd (omega (arith, ap length e))
c_string-prefix (c ∷ cs) (m ∷ ms) h e =
    let first : m ≡ c = ap (λ l. get_or l 0 0) e in
    elim (Bool-cases (c == 0)) [
      | inl z ↦ rw (first, z) refl
      | inr z ↦
          let read : strlen (c ∷ cs) ≡ suc (strlen cs) = rw z refl in
          let rest : take (suc (strlen cs)) ms ≡ take (suc (strlen cs)) cs =
            ap (drop 1) (rw read at e) in
          rw (first, z) (ap (λ l. c ∷ l) (c_string-prefix cs ms (omega (arith, h, read)) rest))
    ]

pub c_string-start :
    (input memory : List ℕ)
    → strlen input < length input
    → take (string_size input) memory ≡ take (string_size input) input
    → c_string memory ≡ c_string input
c_string-start input memory h e =
    let one : strlen input + 1 ≡ suc (strlen input) = omega arith in
    c_string-prefix input memory h (subst (λ n. take n memory ≡ take n input) one e)

pub take_copied :
    (memory input : List ℕ) (offset n : ℕ)
    → n ≤ length input
    → offset + n ≤ length memory
    → take n (drop offset (overwrite memory offset (take n input))) ≡ take n input
take_copied memory input offset n h k =
    let copied : length (take n input) ≡ n = omega (arith, length-take n input) in
    let e = take-drop-overwrite memory offset (take n input) (omega arith) in rw copied at e

-- In a field of variable strings, a string whose NUL stands in its input, stored for an existing record
-- at an offset where the storage has room for it, is the string that is read back.
pub store-field_at_variable :
    (f : Field) (rec : ℕ) (input : List ℕ) (offset : ℕ)
    → f.type ≡ variable_string
    → strlen input < length input
    → rec < length f.refs
    → offset + string_size input ≤ length f.storage
    → c_string (field_at (store f rec input offset) rec) ≡ c_string input
unfolding field_at store
store-field_at_variable f rec input offset e ends inside room =
    let variable : field_is_variable f.type ≡ true = unfold field_is_variable in rw e refl in
    let own =
      get_or-set_self f.refs rec (record { offset = offset; length = string_size input }) no_ref
        inside in
    rw (variable, variable, own)
      (c_string-start input _ ends
        (take_copied f.storage input offset (string_size input) (omega arith) room))

-- In a field of fixed strings, a string whose NUL stands in its input and that fits the slot with its
-- NUL, stored for an existing record, is the string that is read back.
pub store-field_at_fixed :
    (f : Field) (rec : ℕ) (input : List ℕ) (offset : ℕ)
    → f.type ≡ fixed_string
    → strlen input < length input
    → rec < length f.slots
    → string_size input ≤ f.size
    → c_string (field_at (store f rec input offset) rec) ≡ c_string input
unfolding field_at store
store-field_at_fixed f rec input offset e ends inside room =
    let plain : field_is_variable f.type ≡ false = unfold field_is_variable in rw e refl in
    let fixed : (f.type == fixed_string) ≡ true = rw e refl in
    let own =
      get_or-set_self f.slots rec
        (overwrite (replicate f.size 0) 0 (take (string_size input) input)) [] inside in
    rw (plain, fixed, plain, own)
      (c_string-start input _ ends (
        take_copied (replicate f.size 0) input 0 (string_size input) (omega arith)
          (omega (arith, length-replicate {A = ℕ} f.size 0))))

-- In a field of variable strings, a write for one record leaves the bytes of another one whose place
-- the written bytes do not overlap.
pub store-field_at_other :
    (f : Field) (rec other : ℕ) (input : List ℕ) (offset : ℕ)
    → f.type ≡ variable_string
    → other ≢ rec
    → ((ref_at f other).offset + (ref_at f other).length ≤ offset)
      ⊎ (offset + string_size input ≤ (ref_at f other).offset)
    → take (ref_at f other).length (field_at (store f rec input offset) other)
      ≡ take (ref_at f other).length (field_at f other)
unfolding field_at store
store-field_at_other f rec other input offset e distinct apart =
    let variable : field_is_variable f.type ≡ true = unfold field_is_variable in rw e refl in
    let kept =
      get_or-set_ne f.refs rec other (record { offset = offset; length = string_size input }) no_ref
        (λ z. distinct (sym z)) in
    let copied = length-take (string_size input) input in
    rw (variable, variable, kept)
      (elim apart [
        | inl before ↦
            take-drop-overwrite_before f.storage offset (ref_at f other).offset
              (ref_at f other).length (take (string_size input) input) before
        | inr after ↦ ap (take (ref_at f other).length) (
            drop-overwrite_behind f.storage offset (ref_at f other).offset
              (take (string_size input) input) (omega arith))
      ])
