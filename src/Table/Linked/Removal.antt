-- ===== src/Table/Linked/Removal.antt =====
-- The cut of a record out of a linked table.
use app_com_util.Base.{
  ℕ, ◌<◌, ◌≡◌, refl, ap, sym, ◌∙◌, true, false, List, [], ◌∷◌, inl, inr, some, get_or, arith,
  Bool-cases, ◌==◌, ==_iff, subst,
}
use app_com_util.Field.{field_at}
use app_com_util.Field.Sound.{content}
use app_com_util.Table.{Table, hash_key}
use app_com_util.Table.Put.{Link, head, next_of, unlink_record}
use app_com_util.Table.Delete.{cut_record}
use app_com_util.Table.Chain.{IsChain, contains, remove}
use app_com_util.Table.Linked.{
  IsLinked, occupied, occupied_below, bucket, bucket-lt, hash_key-bucket, content-key_of,
  length-chain,
}
use app_com_util.Table.Linked.Cut.{
  link_to, link_to_outside, Cut, Cut-IsChain, Cut-IsChain_other, remove_absent,
}
use app_com_util.Table.Linked.Walk.{unlink_from-eq, HasLink, cut_record-Cut}

abbrev pub own_bucket : Table → ℕ → ℕ
own_bucket t rec = bucket t.config.capacity (content t.keys rec)

-- The link to an occupied record.
abbrev pub own_link : Table → (ℕ → List ℕ) → ℕ → Link
own_link t chains rec = link_to (head (own_bucket t rec)) (chains (own_bucket t rec)) rec

module _ {t : Table} {chains : ℕ → List ℕ} (v : IsLinked t chains) where
  own_bucket-lt : (rec : ℕ) → own_bucket t rec < t.config.capacity
  own_bucket-lt rec = bucket-lt t.config.capacity (content t.keys rec) v.capacity_pos

  -- A record stands in one chain only.
  elsewhere :
      (i r : ℕ)
      → i < t.config.capacity
      → (i == own_bucket t r) ≡ false
      → contains r (chains i) ≡ false
  elsewhere i r h apart = elim (Bool-cases (contains r (chains i))) [
    | inl e ↦ absurd (cc ((==_iff i (own_bucket t r)).1 (sym ((v.member i r h e).1)), apart))
    | inr e ↦ e
  ]

  chain_apart :
      (rec i s : ℕ)
      → i < t.config.capacity
      → (i == own_bucket t rec) ≡ false
      → contains s (chains i) ≡ true
      → contains s (chains (own_bucket t rec)) ≡ false
  chain_apart rec i s h apart m = elim (Bool-cases (contains s (chains (own_bucket t rec)))) [
    | inl e ↦
        let one = (v.member i s h m).1 in
        let other = (v.member (own_bucket t rec) s (own_bucket-lt rec) e).1 in
        absurd (cc ((==_iff i (own_bucket t rec)).1 (sym one ∙ other), apart))
    | inr e ↦ e
  ]

  -- All chains after the cut.
  pub Cut-chains :
      (t' : Table) (rec : ℕ)
      → occupied t rec ≡ true
      → Cut t t' (own_link t chains rec) rec
      → (i : ℕ) → i < t.config.capacity
      → IsChain t'.entries (get_or t'.bucket_head i 0) (remove rec (chains i))
  Cut-chains t' rec now cut i h =
      let idx = own_bucket t rec in
      elim (Bool-cases (i == idx)) [
        | inl e ↦
            let same = (==_iff i idx).0 e in
            subst (λ k. IsChain t'.entries (get_or t'.bucket_head k 0) (remove rec (chains k)))
              (sym same)
              (Cut-IsChain t t' (head idx) (chains idx) rec cut (v.distinct idx (own_bucket-lt rec))
                refl (v.listed rec now) (v.chain idx (own_bucket-lt rec)))
        | inr e ↦
            let absent = elsewhere i rec h e in
            rw (remove_absent rec (chains i) absent) (
              Cut-IsChain_other t t' (own_link t chains rec) (head i) (chains i) rec cut
                (link_to_outside (head i) (head idx) (chains idx) rec e refl) refl
                (λ s m.
                  link_to_outside (next_of s) (head idx) (chains idx) rec refl
                    (chain_apart rec i s h e m))
                absent (v.chain i h))
      ]

  link_to-HasLink :
      (rec : ℕ) (link : Link) (rs : List ℕ)
      → HasLink t link
      → ((r : ℕ) → contains r rs ≡ true → r < t.config.capacity)
      → HasLink t (link_to link rs rec)
  link_to-HasLink rec link [] has below = has
  link_to-HasLink rec link (r ∷ rs) has below = elim (Bool-cases (r == rec)) [
    | inl e ↦ rw e has
    | inr e ↦
        let self : (r == r) ≡ true = (==_iff r r).1 refl in
        let inside = below r (rw self refl) in
        rw e (
          link_to-HasLink rec (next_of r) rs (omega (arith, inside, v.entries_eq))
            (λ s m. below s (ground arith)))
  ]

  pub own_link-HasLink : (rec : ℕ) → HasLink t (own_link t chains rec)
  own_link-HasLink rec =
      let idx = own_bucket t rec in
      link_to-HasLink rec (head idx) (chains idx) (omega (arith, own_bucket-lt rec, v.heads_eq))
        (λ r m. occupied_below v r ((v.member idx r (own_bucket-lt rec) m).0))

  -- `hashtable_unlink_record` ends at the link to the record.
  pub unlink_record-eq :
      (rec : ℕ)
      → occupied t rec ≡ true
      → unlink_record t rec ≡ some (cut_record t (own_link t chains rec) rec)
  unfolding unlink_record
  unlink_record-eq rec now =
      let idx = own_bucket t rec in
      let at : hash_key t (field_at t.keys rec) ≡ idx =
        hash_key-bucket t (field_at t.keys rec)
        ∙ ap (bucket t.config.capacity) (sym (content-key_of v rec)) in
      rw at (
        unlink_from-eq t.config.capacity t rec (head idx) (chains idx)
          (v.chain idx (own_bucket-lt rec)) (length-chain v idx (own_bucket-lt rec))
          (v.listed rec now))

  pub own_link-Cut :
      (rec : ℕ) → Cut t (cut_record t (own_link t chains rec) rec) (own_link t chains rec) rec
  own_link-Cut rec = cut_record-Cut t (own_link t chains rec) rec (own_link-HasLink rec)
