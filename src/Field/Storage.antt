-- ===== src/Field/Storage.antt =====
-- The strings of a variable field: each live record has its own part of the storage, and the free list
-- has the rest.
use app_com_util.Base.{
  ℕ, ◌+◌, ◌≤◌, ◌<◌, ◌≡◌, ◌≢◌, refl, ap, subst, sym, ◌∙◌, Bool, true, false, List, [], ◌∷◌, ◌⊎◌, inl,
  inr, length, take, drop, arith, length-drop, Bool-cases, ◌==◌, ==_iff, if◌then◌else◌, ltb,
}
use app_com_util.Bytes.{
  strlen, c_string, overwrite, take-drop-overwrite_before, drop-overwrite_behind,
}
use app_com_util.Arena.{Block}
use app_com_util.Arena.Blocks.{IsFreeList, AllFree, NoneFree, total_free}
use app_com_util.Field.{Field, Ref, ref_at, string_size}
use app_com_util.Field.Readback.{c_string-start}

-- Which records have a key or a value: `mark` sets the mark of one record.
abbrev pub mark : (ℕ → Bool) → ℕ → Bool → ℕ → Bool
mark live r b s = if s == r then b else live s

pub mark-false :
    (live : ℕ → Bool) (r s : ℕ) → mark live r false s ≡ true → (live s ≡ true) × (s ≢ r)
mark-false live r s h = elim (Bool-cases (s == r)) [
  | inl e ↦ absurd (ground arith)
  | inr e ↦ (ground arith, λ same. absurd (ground arith))
]

pub mark-true :
    (live : ℕ → Bool) (r s : ℕ) → mark live r true s ≡ true → (s ≡ r) ⊎ ((live s ≡ true) × (s ≢ r))
mark-true live r s h = elim (Bool-cases (s == r)) [
  | inl e ↦ inl ((==_iff s r).0 e)
  | inr e ↦ inr (ground arith, λ same. absurd (ground arith))
]

-- Two ranges of bytes have none in common.
abbrev pub AreApart : ℕ → ℕ → ℕ → ℕ → Type 0
AreApart o l o' l' = (o + l ≤ o') ⊎ (o' + l' ≤ o)

-- The place of a live record: inside the storage, used, and exactly a string with its NUL.
pub record HasPlace (f : Field) (n r : ℕ) : Type 0 where
  pub below : r < n
  pub fits : (ref_at f r).offset + (ref_at f r).length ≤ f.storage_size
  pub occupied : NoneFree f.free (ref_at f r).offset (ref_at f r).length
  pub ends : string_size (drop (ref_at f r).offset f.storage) ≡ (ref_at f r).length

pub record IsStored (n : ℕ) (live : ℕ → Bool) (f : Field) : Type 0 where
  pub free_list : IsFreeList f.storage_size f.free
  pub bytes : length f.storage ≡ f.storage_size
  pub refs : length f.refs ≡ n
  pub used_eq : total_free f.free + f.used ≡ f.storage_size
  pub place : (r : ℕ) → live r ≡ true → HasPlace f n r
  pub apart :
      (r s : ℕ)
      → live r ≡ true
      → live s ≡ true
      → r ≢ s
      → AreApart (ref_at f r).offset (ref_at f r).length (ref_at f s).offset (ref_at f s).length

-- A string's length is that of its bytes before the NUL.
length-c_string : (s : List ℕ) → length (c_string s) ≡ strlen s
length-c_string [] = refl
length-c_string (c ∷ cs) = ground (arith, length-c_string cs)

-- The same first bytes, the NUL included, are the same string.
pub strlen-start :
    (input memory : List ℕ)
    → strlen input < length input
    → take (string_size input) memory ≡ take (string_size input) input
    → strlen memory ≡ strlen input
strlen-start input memory h e =
    sym (length-c_string memory)
    ∙ ap length (c_string-start input memory h e)
    ∙ length-c_string input

-- A write apart from a range leaves it.
pub take-drop-overwrite_apart :
    (memory : List ℕ) (offset : ℕ) (bytes : List ℕ) (o l : ℕ)
    → AreApart o l offset (length bytes)
    → take l (drop o (overwrite memory offset bytes)) ≡ take l (drop o memory)
take-drop-overwrite_apart memory offset bytes o l (inl before) =
    take-drop-overwrite_before memory offset o l bytes before
take-drop-overwrite_apart memory offset bytes o l (inr after) =
    ap (take l) (drop-overwrite_behind memory offset o bytes after)

-- Free bytes and used ones are apart.
pub free_used-AreApart :
    (bs : List Block) (o l o' l' : ℕ)
    → 0 < l
    → 0 < l'
    → NoneFree bs o l
    → AllFree bs o' l'
    → AreApart o l o' l'
free_used-AreApart bs o l o' l' p p' used all = elim (Bool-cases (ltb o o')) [
  | inl e ↦ let x = all o' in let y = used o' in ground arith
  | inr e ↦ let x = all o in let y = used o in ground arith
]

-- A record's string is read as before where its bytes are.
pub record Same (f f' : Field) (r : ℕ) : Type 0 where
  pub ref_eq : ref_at f' r ≡ ref_at f r
  pub bytes_eq :
      take (ref_at f r).length (drop (ref_at f r).offset f'.storage)
      ≡ take (ref_at f r).length (drop (ref_at f r).offset f.storage)

pub HasPlace-ends :
    (f : Field) (n r : ℕ)
    → length f.storage ≡ f.storage_size
    → HasPlace f n r
    → strlen (drop (ref_at f r).offset f.storage) < length (drop (ref_at f r).offset f.storage)
HasPlace-ends f n r b h =
    omega (arith, h.ends, h.fits, b, length-drop (ref_at f r).offset f.storage)

-- Its place stays its place, if its bytes stay used.
pub Same-HasPlace :
    (f f' : Field) (n r : ℕ)
    → length f.storage ≡ f.storage_size
    → f'.storage_size ≡ f.storage_size
    → Same f f' r
    → NoneFree f'.free (ref_at f r).offset (ref_at f r).length
    → HasPlace f n r
    → HasPlace f' n r
Same-HasPlace f f' n r b size same used h =
    let at = ap (λ (x : Ref). x.offset) same.ref_eq in
    let long = ap (λ (x : Ref). x.length) same.ref_eq in
    let old = drop (ref_at f r).offset f.storage in
    let new = drop (ref_at f r).offset f'.storage in
    let same_length : strlen new ≡ strlen old =
      strlen-start old new (HasPlace-ends f n r b h)
        (subst (λ k. take k new ≡ take k old) (sym h.ends) same.bytes_eq) in
    record {
      below = h.below;
      fits = rw (at, long, size) h.fits;
      occupied = rw (at, long) used;
      ends = rw (at, long) (omega (arith, same_length, h.ends));
    }

pub Same-c_string :
    (f f' : Field) (n r : ℕ)
    → length f.storage ≡ f.storage_size
    → Same f f' r
    → HasPlace f n r
    → c_string (drop (ref_at f' r).offset f'.storage)
      ≡ c_string (drop (ref_at f r).offset f.storage)
Same-c_string f f' n r b same h =
    let at = ap (λ (x : Ref). x.offset) same.ref_eq in
    let old = drop (ref_at f r).offset f.storage in
    let new = drop (ref_at f r).offset f'.storage in
    rw at (
      c_string-start old new (HasPlace-ends f n r b h)
        (subst (λ k. take k new ≡ take k old) (sym h.ends) same.bytes_eq))
