-- ===== src/Field/Replace.antt =====
-- A live record gets another key or value: a search that counts its own bytes, the release and the store.
use app_com_util.Base.{
  ℕ, ◌<◌, ◌≡◌, ◌≢◌, refl, ap, ◌∙◌, Bool, true, false, List, some, ◌==◌, ==_iff, Bool-cases, inl,
  inr,
}
use app_com_util.Field.{Field, find_free, release, store}
use app_com_util.Field.Storage.{mark}
use app_com_util.Field.Sound.{
  IsSound, IsSound-fewer, IsInput, canon, content, release-IsSound, store-IsSound,
  release-SameSettings, store-SameSettings, SameSettings, find_free-HasRoom_released,
}

SameSettings-IsInput :
    {f f' : Field} {input : List ℕ} → SameSettings f f' → IsInput f input → IsInput f' input
SameSettings-IsInput s h = record {
  known = rw s.type_eq h.known;
  ends = rw s.type_eq h.ends;
  fits = rw (s.type_eq, s.size_eq) h.fits;
}

pub release-IsInput :
    (f : Field) (r : ℕ) (input : List ℕ) → IsInput f input → IsInput (release f r) input
release-IsInput f r input h = SameSettings-IsInput (release-SameSettings f r) h

pub replaced_type :
    (f : Field) (r : ℕ) (input : List ℕ) (offset : ℕ)
    → (store (release f r) r input offset).type ≡ f.type
replaced_type f r input offset =
    (store-SameSettings (release f r) r input offset).type_eq ∙ (release-SameSettings f r).type_eq

-- The record holds the new input, and what the others hold stays.
pub replace-IsSound :
    (n : ℕ) (live : ℕ → Bool) (f : Field) (r : ℕ) (input : List ℕ) (offset : ℕ)
    → IsSound n live f
    → r < n
    → live r ≡ true
    → IsInput f input
    → find_free f r true input ≡ some offset
    → IsSound n live (store (release f r) r input offset)
      × (content (store (release f r) r input offset) r ≡ canon f.type f.size input)
      × ((s : ℕ)
          → live s ≡ true
          → s ≢ r
          → content (store (release f r) r input offset) s ≡ content f s)
replace-IsSound n live f r input offset v inside now given found =
    let (released, kept) = release-IsSound n live f r v now in
    let settings = release-SameSettings f r in
    let self : (r == r) ≡ true = (==_iff r r).1 refl in
    let (sound, read, same) =
      store-IsSound n (mark live r false) (release f r) r input offset released inside
        (rw self refl) (release-IsInput f r input given)
        (find_free-HasRoom_released n live f r input offset v now found) in
    (
      IsSound-fewer n (mark (mark live r false) r true) live (store (release f r) r input offset)
          (λ s l. elim (Bool-cases (s == r)) [ inl e ↦ rw e refl | inr e ↦ rw e l ]) sound,
      read
          ∙ ap (λ type. canon type (release f r).size input) settings.type_eq
          ∙ ap (λ size. canon f.type size input) settings.size_eq,
      λ s l d.
          let other : (s == r) ≡ false = elim (Bool-cases (s == r)) [
            | inl e ↦ absurd (d ((==_iff s r).0 e))
            | inr e ↦ e
          ] in
          same s (rw other l) ∙ kept s l d,
    )
