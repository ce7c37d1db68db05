-- ===== src/Table/Linked/Walk.antt =====
-- The two loops that look for the link to a record, and the cut they make.
use app_com_util.Base.{
  ℕ, zero, suc, ◌+◌, ◌-◌, ◌≤◌, ◌<◌, ◌≡◌, refl, ap, sym, ◌∙◌, true, false, List, [], ◌∷◌, inl, inr,
  Option, none, some, length, arith, Bool-cases, ◌==◌, ==_iff, if◌then◌else◌, get_or-set_self,
  get_or-set_ne,
}
use app_com_util.Field.{field_at}
use app_com_util.Table.{Table, Entry, empty_entry, entry, set_next, key_equal}
use app_com_util.Table.Put.{Link, head, next_of, read_link, write_link, unlink_from}
use app_com_util.Table.Delete.{find_link, cut_record}
use app_com_util.Table.Chain.{IsChain, contains, AreDistinct}
use app_com_util.Table.Linked.{first_match}
use app_com_util.Table.Linked.Cut.{same_link, link_to, Cut}

-- With fuel for the chain the loop ends at the link to the record, and cuts there.
pub unlink_from-eq :
    (fuel : ℕ) (t : Table) (rec : ℕ) (link : Link) (rs : List ℕ)
    → IsChain t.entries (read_link t link) rs
    → length rs ≤ fuel
    → contains rec rs ≡ true
    → unlink_from fuel t rec link ≡ some (cut_record t (link_to link rs rec) rec)
unfolding unlink_from cut_record
unlink_from-eq fuel t rec link [] h k m = absurd (ground arith)
unlink_from-eq zero t rec link (r ∷ rs) h k m = absurd (omega arith)
unlink_from-eq (suc fuel) t rec link (r ∷ rs) h k m =
    let back : suc r - 1 ≡ r = omega arith in
    let positive : (suc r == 0) ≡ false = ground arith in
    elim (Bool-cases (r == rec)) [
      | inl e ↦
          let here : (suc r == rec + 1) ≡ true = ground arith in
          rw (h.0, back, positive, here, e) refl
      | inr e ↦
          let here : (suc r == rec + 1) ≡ false = ground arith in
          let further : contains rec rs ≡ true = ground arith in
          rw (h.0, back, positive, here, e)
            (unlink_from-eq fuel t rec (next_of r) rs h.1 (omega arith) further)
    ]

-- The link to a record given by its number, and the number; nothing for the number 0.
abbrev pub link_found : Link → List ℕ → ℕ → Option (Link × ℕ)
link_found link rs zero = none
link_found link rs (suc rec) = some (link_to link rs rec, suc rec)

first_match_member :
    (t : Table) (key : List ℕ) (rs : List ℕ) (rec : ℕ)
    → first_match t key rs ≡ suc rec
    → contains rec rs ≡ true
first_match_member t key [] rec e = absurd (omega arith)
first_match_member t key (r ∷ rs) rec e = elim (Bool-cases (key_equal t (field_at t.keys r) key)) [
  | inl d ↦ let same : suc r ≡ suc rec = rw d at e in ground arith
  | inr d ↦
      let same : first_match t key rs ≡ suc rec = rw d at e in
      let further = first_match_member t key rs rec same in ground arith
]

member_apart :
    (s r : ℕ) (rs : List ℕ) → contains r rs ≡ false → contains s rs ≡ true → (r == s) ≡ false
member_apart s r rs h m = elim (Bool-cases (r == s)) [
  | inl e ↦ absurd (cc (ap (λ x. contains x rs) ((==_iff r s).0 e), h, m))
  | inr e ↦ e
]

link_found_step :
    (l : Link) (r : ℕ) (rs : List ℕ) (n : ℕ)
    → contains r rs ≡ false
    → ((rec : ℕ) → n ≡ suc rec → contains rec rs ≡ true)
    → link_found (next_of r) rs n ≡ link_found l (r ∷ rs) n
link_found_step l r rs zero d m = refl
link_found_step l r rs (suc rec) d m =
    let other = member_apart rec r rs d (m rec refl) in rw other refl

-- With fuel for the chain the loop ends, at the first record with the key.
pub find_link-eq :
    (fuel : ℕ) (t : Table) (key : List ℕ) (link : Link) (rs : List ℕ)
    → IsChain t.entries (read_link t link) rs
    → AreDistinct rs
    → length rs ≤ fuel
    → find_link fuel t key link ≡ some (link_found link rs (first_match t key rs))
unfolding find_link
find_link-eq zero t key link [] h d k = rw h refl
find_link-eq (suc fuel) t key link [] h d k = rw h refl
find_link-eq zero t key link (r ∷ rs) h d k = absurd (omega arith)
find_link-eq (suc fuel) t key link (r ∷ rs) h d k =
    let back : suc r - 1 ≡ r = omega arith in
    let positive : (suc r == 0) ≡ false = ground arith in
    let further = find_link-eq fuel t key (next_of r) rs h.1 d.1 (omega arith) in
    let self : (r == r) ≡ true = (==_iff r r).1 refl in
    elim (Bool-cases (key_equal t (field_at t.keys r) key)) [
      | inl e ↦ rw (h.0, back, positive, e, self) refl
      | inr e ↦
          rw (h.0, back, positive, e, further)
            (ap some (
              link_found_step link r rs (first_match t key rs) d.0
                (λ rec same. first_match_member t key rs rec same)))
    ]

-- Whether the table has the link.
abbrev pub HasLink : Table → Link → Type 0
HasLink t (head i) = i < length t.bucket_head
HasLink t (next_of r) = r < length t.entries

pub read-write :
    (t : Table) (link l : Link) (v : ℕ)
    → HasLink t link
    → read_link (write_link t link v) l ≡ (if same_link l link then v else read_link t l)
read-write t (head i) (head j) v h = elim (Bool-cases (j == i)) [
  | inl e ↦ rw (e, (==_iff j i).0 e) (get_or-set_self t.bucket_head i v 0 h)
  | inr e ↦
      rw e
        (get_or-set_ne t.bucket_head i j v 0 (λ same. absurd (cc (e, (==_iff j i).1 (sym same)))))
]
read-write t (head i) (next_of r) v h = refl
read-write t (next_of r) (head i) v h = refl
read-write t (next_of r) (next_of s) v h =
    let e' : Entry = record (entry t r) { next = v } in
    elim (Bool-cases (s == r)) [
      | inl e ↦
          rw (e, (==_iff s r).0 e) (ap (λ x. x.next) (get_or-set_self t.entries r e' empty_entry h))
      | inr e ↦ rw e (
          ap (λ x. x.next)
            (get_or-set_ne t.entries r s e' empty_entry
              (λ same. absurd (cc (e, (==_iff s r).1 (sym same))))))
    ]

read-set_next :
    (t : Table) (rec : ℕ) (l : Link) (v : ℕ)
    → same_link l (next_of rec) ≡ false
    → read_link (set_next t rec v) l ≡ read_link t l
read-set_next t rec (head i) v h = refl
read-set_next t rec (next_of s) v h =
    ap (λ x. x.next)
      (get_or-set_ne t.entries rec s (record (entry t rec) { next = v }) empty_entry
        (λ same. absurd (cc (h, (==_iff s rec).1 (sym same)))))

pub cut_record-Cut :
    (t : Table) (link : Link) (rec : ℕ) → HasLink t link → Cut t (cut_record t link rec) link rec
unfolding cut_record
cut_record-Cut t link rec has l h =
    read-set_next (write_link t link (entry t rec).next) rec l 0 h
    ∙ read-write t link l (entry t rec).next has
