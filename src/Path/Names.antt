-- ===== src/Path/Names.antt =====
-- The name at the end of a path and its extension are what they should be.
use app_com_util.Base.{
  ℕ, ◌≡◌, refl, ap, sym, subst, ◌∙◌, Bool, true, false, ◌||◌, List, [], ◌∷◌, ◌++◌, ◌⊎◌, inl, inr,
  ◌==◌, length, arith, Bool-cases,
}
use app_com_util.Path.{is_sep, behind_last, basename, ends_with_sep}

-- Whether some byte is a separator.
abbrev pub has_sep : List ℕ → Bool
has_sep [] = false
has_sep (c ∷ cs) = is_sep c || has_sep cs

append_nil : (xs : List ℕ) → xs ++ [] ≡ xs
append_nil [] = refl
append_nil (x ∷ xs) = ap (λ l. x ∷ l) (append_nil xs)

append_assoc : (xs ys zs : List ℕ) → (xs ++ ys) ++ zs ≡ xs ++ (ys ++ zs)
append_assoc [] ys zs = refl
append_assoc (x ∷ xs) ys zs = ap (λ l. x ∷ l) (append_assoc xs ys zs)

ends-append : (xs : List ℕ) (c : ℕ) → ends_with_sep (xs ++ (c ∷ [])) ≡ is_sep c
ends-append [] c = refl
ends-append (x ∷ xs) c =
    let more : (length (xs ++ (c ∷ [])) == 0) ≡ false = not_empty xs c in rw more (ends-append xs c)
  where
    not_empty : (xs : List ℕ) (c : ℕ) → (length (xs ++ (c ∷ [])) == 0) ≡ false
    not_empty [] c = ground arith
    not_empty (x ∷ xs) c = ground arith

-- A split of a path at its last separator.
pub record IsSplit (path front base : List ℕ) : Type 0 where
  pub whole : front ++ base ≡ path
  pub clear : has_sep base ≡ false
  pub behind : (front ≡ []) ⊎ (ends_with_sep front ≡ true)

behind_last-IsSplit :
    (front base seen rest : List ℕ)
    → (front ≡ []) ⊎ (ends_with_sep front ≡ true)
    → base ≡ seen ++ rest
    → has_sep seen ≡ false
    → (front' : List ℕ) × IsSplit (front ++ base) front' (behind_last base rest)
unfolding behind_last
behind_last-IsSplit front base seen [] behind e clear =
    (front, record { whole = refl; clear = rw (e, append_nil seen) clear; behind = behind })
behind_last-IsSplit front base seen (c ∷ cs) behind e clear = elim (Bool-cases (is_sep c)) [
  | inr d ↦
      let further =
        behind_last-IsSplit front base (seen ++ (c ∷ [])) cs behind
          (e ∙ sym (append_assoc seen (c ∷ []) cs)) (no_sep seen c clear d) in
      rw d further
  | inl d ↦
      let front' = front ++ (seen ++ (c ∷ [])) in
      let joined : front' ++ cs ≡ front ++ base =
        append_assoc front (seen ++ (c ∷ [])) cs
        ∙ ap (λ l. front ++ l) (append_assoc seen (c ∷ []) cs ∙ sym e) in
      let last : ends_with_sep front' ≡ true =
        ap ends_with_sep (sym (append_assoc front seen (c ∷ [])))
        ∙ ends-append (front ++ seen) c
        ∙ d in
      let further = behind_last-IsSplit front' cs [] cs (inr last) refl refl in
      rw d (subst (λ l. (f : List ℕ) × IsSplit l f (behind_last cs cs)) joined further)
]
  where
    no_sep :
        (xs : List ℕ) (c : ℕ)
        → has_sep xs ≡ false
        → is_sep c ≡ false
        → has_sep (xs ++ (c ∷ [])) ≡ false
    no_sep [] c h d = ground arith
    no_sep (x ∷ xs) c h d = ground (arith, no_sep xs c (ground arith) d)

-- The name is the end of the path behind its last separator: it has no separator, and what stands before
-- it is nothing or ends with one.
pub basename-IsSplit : (path : List ℕ) → (front : List ℕ) × IsSplit path front (basename path)
unfolding basename
basename-IsSplit path = behind_last-IsSplit [] path [] path (inl refl) refl refl
