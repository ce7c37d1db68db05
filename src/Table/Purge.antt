-- ===== src/Table/Purge.antt =====
-- The loop of `com_util_hashtable_purge_deleted` over the records.
use app_com_util.Base.{
  ℕ, zero, suc, ◌+◌, ◌<◌, ◌≡◌, refl, ap, subst, sym, ◌∙◌, List, [], ◌∷◌, map, take, length, get_or,
  set, arith, inl, inr, Bool-cases, true, false, leb, if◌then◌else◌,
}
use app_com_util.Table.{Table, entry}
use app_com_util.Table.Delete.{expire_record}
use app_com_util.Table.Sweep.{Sweep, purge_round, sweep, start_sweep, note_empty}
use app_com_util.Table.Swept.{
  swept, get_or-swept, set-swept, swept_all, length-swept, length-map, take-swept, take_all,
  first_zero-take,
}
use app_com_util.Table.Statuses.{in_use, deleted, first_zero, map-get_or, set-get_or}
use app_com_util.Table.Counts.{CountsAgree, expire_record-Sets, table_statuses}

-- The status of a record after the loop.
abbrev pub purged : ℕ → ℕ
purged s = if leb 2 s then 0 else s

-- The loop before round `i`, started with the table `t`.
record Purging (t : Table) (i : ℕ) (s : Sweep) : Type 0 where
  config_eq : s.table.config ≡ t.config
  in_use_eq : s.table.in_use_count ≡ t.in_use_count
  statuses_eq : table_statuses s.table ≡ swept purged i (table_statuses t)
  next_empty_eq : s.next_empty ≡ first_zero 0 (take i (swept purged i (table_statuses t)))

note_empty-Purging :
    (t : Table) (i : ℕ) (s : Sweep)
    → i < length (table_statuses t)
    → s.table.config ≡ t.config
    → s.table.in_use_count ≡ t.in_use_count
    → table_statuses s.table ≡ swept purged (suc i) (table_statuses t)
    → s.next_empty ≡ first_zero 0 (take i (swept purged i (table_statuses t)))
    → Purging t (suc i) (note_empty i s)
note_empty-Purging t i s inside c u ss n =
    let before = table_statuses t in
    let after = swept purged (suc i) before in
    let zero_add : 0 + i + 1 ≡ i + 1 = omega arith in
    let read : (entry s.table i).status ≡ get_or after i 0 =
      sym (map-get_or s.table.entries i) ∙ ap (λ l. get_or l i 0) ss in
    let step = first_zero-take 0 i after (omega (arith, length-swept purged (suc i) before)) in
    record {
      config_eq = c;
      in_use_eq = u;
      statuses_eq = ss;
      next_empty_eq = rw (n, read, ← take-swept purged i before) (sym (rw zero_add at step));
    }

purge_round-Purging :
    (t : Table) (i : ℕ) (s : Sweep)
    → i < length (table_statuses t)
    → Purging t i s
    → Purging t (suc i) (purge_round i s)
unfolding purge_round
purge_round-Purging t i s inside p =
    let before = table_statuses t in
    let read : (entry s.table i).status ≡ get_or before i 0 =
      sym (map-get_or s.table.entries i)
      ∙ ap (λ l. get_or l i 0) p.statuses_eq
      ∙ get_or-swept purged i before in
    let moved = set-swept purged i before in
    elim (Bool-cases (leb 2 (entry s.table i).status)) [
      | inl e ↦
          let x = expire_record-Sets s.table i in
          let emptied : purged (get_or before i 0) ≡ 0 =
            let here : leb 2 (get_or before i 0) ≡ true = subst (λ x. leb 2 x ≡ true) read e in
            rw here refl in
          rw e (
            note_empty-Purging t i (record s { table = expire_record s.table i }) inside
              (x.config_eq ∙ p.config_eq) (x.in_use_eq ∙ p.in_use_eq)
              (x.statuses_eq ∙ ap (λ l. set l i 0) p.statuses_eq ∙ (rw emptied at moved))
              p.next_empty_eq)
      | inr e ↦
          let kept : purged (get_or before i 0) ≡ get_or (swept purged i before) i 0 =
            let here : leb 2 (get_or before i 0) ≡ false = subst (λ x. leb 2 x ≡ false) read e in
            rw here (sym (get_or-swept purged i before)) in
          rw e (
            note_empty-Purging t i s inside p.config_eq p.in_use_eq
              (p.statuses_eq ∙ sym (set-get_or (swept purged i before) i) ∙ (rw kept at moved))
              p.next_empty_eq)
    ]

sweep-Purging :
    (t : Table) (rounds i : ℕ) (s : Sweep)
    → i + rounds ≡ length (table_statuses t)
    → Purging t i s
    → Purging t (length (table_statuses t)) (sweep purge_round rounds i s)
unfolding sweep
sweep-Purging t zero i s e p =
    let at : i ≡ length (table_statuses t) = omega arith in subst (λ k. Purging t k s) at p
sweep-Purging t (suc rounds) i s e p =
    let next : i + 1 ≡ suc i = omega arith in
    rw next (
      sweep-Purging t rounds (suc i) (purge_round i s) (omega arith)
        (purge_round-Purging t i s (omega arith) p))

in_use-purged : (ss : List ℕ) → in_use (map purged ss) ≡ in_use ss
in_use-purged [] = refl
in_use-purged (s ∷ ss) = ground (arith, in_use-purged ss)

deleted-purged : (ss : List ℕ) → deleted (map purged ss) ≡ 0
deleted-purged [] = refl
deleted-purged (s ∷ ss) = ground (arith, deleted-purged ss)

-- Where the counters of the header are true, the loop of `com_util_hashtable_purge_deleted` empties
-- the deleted records and no other, and with the `next_empty` that it noted and a `deleted_count` of 0,
-- which the function sets behind it, the counters are true again.
pub purge_sweep-CountsAgree :
    (t : Table)
    → CountsAgree t
    → let s = sweep purge_round t.config.capacity 0 (start_sweep t) in
      (table_statuses s.table ≡ map purged (table_statuses t))
      × CountsAgree (record s.table { next_empty = s.next_empty; deleted_count = 0 })
purge_sweep-CountsAgree t v =
    let ss = table_statuses t in
    let p : Purging t 0 (start_sweep t) = record {
      config_eq = refl;
      in_use_eq = refl;
      statuses_eq = refl;
      next_empty_eq = refl;
    } in
    let q = sweep-Purging t t.config.capacity 0 (start_sweep t) (omega (arith, v.length_eq)) p in
    let all = q.statuses_eq ∙ swept_all purged ss in
    let whole : take (length ss) (swept purged (length ss) ss) ≡ map purged ss =
      ap (take (length ss)) (swept_all purged ss)
      ∙ ap (λ n. take n (map purged ss)) (sym (length-map purged ss))
      ∙ take_all (map purged ss) in
    (
      all,
      record {
        length_eq =
            ap length all
            ∙ length-map purged ss
            ∙ v.length_eq
            ∙ sym (ap (λ c. c.capacity) q.config_eq);
        small = rw q.config_eq v.small;
        in_use_eq = q.in_use_eq ∙ v.in_use_eq ∙ sym (ap in_use all ∙ in_use-purged ss);
        deleted_eq = sym (ap deleted all ∙ deleted-purged ss);
        next_empty_eq = q.next_empty_eq ∙ ap (first_zero 0) (whole ∙ sym all);
      },
    )
