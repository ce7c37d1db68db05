-- ===== src/Table/Linked/Cut.antt =====
-- A link is redirected past a record: what that leaves of the chains.
use app_com_util.Base.{
  ℕ, ◌≡◌, refl, ap, sym, ◌∙◌, Bool, true, false, List, [], ◌∷◌, inl, inr, arith, Bool-cases, ◌==◌,
  ==_iff, if◌then◌else◌,
}
use app_com_util.Table.{Table, entry}
use app_com_util.Table.Put.{Link, head, next_of, read_link}
use app_com_util.Table.Chain.{IsChain, IsChain-frame, contains, AreDistinct, remove}

abbrev pub same_link : Link → Link → Bool
same_link (head i) (head j) = i == j
same_link (head i) (next_of r) = false
same_link (next_of r) (head i) = false
same_link (next_of r) (next_of s) = r == s

-- Whether the link is the `next` of a record of the chain.
abbrev pub in_links : Link → List ℕ → Bool
in_links (head i) rs = false
in_links (next_of r) rs = contains r rs

-- The link that names record `rec`, on the chain `rs` behind a link.
abbrev pub link_to : Link → List ℕ → ℕ → Link
link_to l [] rec = l
link_to l (r ∷ rs) rec = if r == rec then l else link_to (next_of r) rs rec

-- What a link says once `link` goes past record `rec`. The record's own link does not matter.
abbrev pub Cut : Table → Table → Link → ℕ → Type 0
Cut t t' link rec =
    (l : Link)
    → same_link l (next_of rec) ≡ false
    → read_link t' l ≡ (if same_link l link then (entry t rec).next else read_link t l)

same_link_refl : (l : Link) → same_link l l ≡ true
same_link_refl (head i) = (==_iff i i).1 refl
same_link_refl (next_of r) = (==_iff r r).1 refl

step_outside :
    (l : Link) (r : ℕ) (rs : List ℕ)
    → in_links l (r ∷ rs) ≡ false
    → (same_link l (next_of r) ≡ false) × (in_links l rs ≡ false)
step_outside (head i) r rs h = (refl, refl)
step_outside (next_of s) r rs h = (ground arith, ground arith)

-- The link found is the first or one of the chain.
pub link_to_outside :
    (l start : Link) (rs : List ℕ) (rec : ℕ)
    → same_link l start ≡ false
    → in_links l rs ≡ false
    → same_link l (link_to start rs rec) ≡ false
link_to_outside l start [] rec h k = h
link_to_outside l start (r ∷ rs) rec h k =
    let (apart, rest) = step_outside l r rs k in
    elim (Bool-cases (r == rec)) [
      | inl e ↦ rw e h
      | inr e ↦ rw e (link_to_outside l (next_of r) rs rec apart rest)
    ]

-- The chain loses the record.
pub Cut-IsChain :
    (t t' : Table) (start : Link) (rs : List ℕ) (rec : ℕ)
    → Cut t t' (link_to start rs rec) rec
    → AreDistinct rs
    → in_links start rs ≡ false
    → contains rec rs ≡ true
    → IsChain t.entries (read_link t start) rs
    → IsChain t'.entries (read_link t' start) (remove rec rs)
Cut-IsChain t t' start [] rec c d o k h = absurd (ground arith)
Cut-IsChain t t' start (r ∷ rs) rec c d o k h =
    let (apart, outside) = step_outside start r rs o in
    let self = same_link_refl start in
    elim (Bool-cases (r == rec)) [
      | inl e ↦
          let same = (==_iff r rec).0 e in
          let cut : Cut t t' start rec = rw e at c in
          let here = cut start (rw (sym same) apart) in
          let swapped : (rec == r) ≡ true = (==_iff rec r).1 (sym same) in
          rw (swapped, here, self, sym same)
            (IsChain-frame t.entries t'.entries (entry t r).next rs
              (λ s m.
                let other = next_of_outside start s rs outside m in
                let not_rec = member_apart s r rs d.0 m in
                cut (next_of s) (rw (sym same) not_rec) ∙ rw other refl)
              h.1)
      | inr e ↦
          let cut : Cut t t' (link_to (next_of r) rs rec) rec = rw e at c in
          let swapped : (rec == r) ≡ false = ground arith in
          let further : contains rec rs ≡ true = ground arith in
          let own = in_links_rec start rec rs outside further in
          let other = link_to_outside start (next_of r) rs rec apart outside in
          rw swapped (
            cut start own ∙ rw other h.0,
            Cut-IsChain t t' (next_of r) rs rec cut d.1 d.0 further h.1,
          )
    ]
  where
    member_apart :
        (s r : ℕ) (rs : List ℕ) → contains r rs ≡ false → contains s rs ≡ true → (s == r) ≡ false
    member_apart s r rs h m = elim (Bool-cases (s == r)) [
      | inl e ↦ absurd (cc (ap (λ x. contains x rs) ((==_iff s r).0 e), h, m))
      | inr e ↦ e
    ]

    next_of_outside :
        (l : Link) (s : ℕ) (rs : List ℕ)
        → in_links l rs ≡ false
        → contains s rs ≡ true
        → same_link (next_of s) l ≡ false
    next_of_outside (head i) s rs h m = refl
    next_of_outside (next_of p) s rs h m = member_apart s p rs h m

    in_links_rec :
        (l : Link) (rec : ℕ) (rs : List ℕ)
        → in_links l rs ≡ false
        → contains rec rs ≡ true
        → same_link l (next_of rec) ≡ false
    in_links_rec (head i) rec rs h m = refl
    in_links_rec (next_of p) rec rs h m = let e = member_apart rec p rs h m in ground arith

-- A chain elsewhere is not touched.
pub Cut-IsChain_other :
    (t t' : Table) (link start : Link) (rs : List ℕ) (rec : ℕ)
    → Cut t t' link rec
    → same_link start link ≡ false
    → same_link start (next_of rec) ≡ false
    → ((s : ℕ) → contains s rs ≡ true → same_link (next_of s) link ≡ false)
    → contains rec rs ≡ false
    → IsChain t.entries (read_link t start) rs
    → IsChain t'.entries (read_link t' start) rs
Cut-IsChain_other t t' link start rs rec c o own apart absent h =
    rw (c start own, o)
      (IsChain-frame t.entries t'.entries (read_link t start) rs
        (λ s m.
          let other = apart s m in
          let not_rec : (s == rec) ≡ false = elim (Bool-cases (s == rec)) [
            | inl e ↦ absurd (cc (ap (λ x. contains x rs) ((==_iff s rec).0 e), absent, m))
            | inr e ↦ e
          ] in
          c (next_of s) not_rec ∙ rw other refl)
        h)

pub remove_absent : (rec : ℕ) (rs : List ℕ) → contains rec rs ≡ false → remove rec rs ≡ rs
remove_absent rec [] h = refl
remove_absent rec (r ∷ rs) h =
    let apart : (rec == r) ≡ false = ground arith in
    rw apart (ap (λ l. r ∷ l) (remove_absent rec rs (ground arith)))
