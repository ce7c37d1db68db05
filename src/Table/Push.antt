-- ===== src/Table/Push.antt =====
-- The loop of `com_util_hashtable_push_deleted` over the records.
use app_com_util.Base.{
  ℕ, zero, suc, ◌+◌, ◌≤◌, ◌<◌, ◌≡◌, refl, ap, subst, sym, ◌∙◌, List, [], ◌∷◌, map, take, length,
  get_or, set, arith, inl, inr, Bool-cases, Bool, true, false, leb, ltb, not, ◌==◌, if◌then◌else◌,
  ◌&&◌,
}
use app_com_util.Base.Words.{u64_mod, add64, sub64, add64-eq, sub64-eq}
use app_com_util.Table.{Table, entry, set_status}
use app_com_util.Table.Delete.{expire_record}
use app_com_util.Table.Sweep.{Sweep, push_round, sweep, start_sweep, note_empty}
use app_com_util.Table.Statuses.{in_use, deleted, counts-le, first_zero, map-get_or, set-get_or}
use app_com_util.Table.Counts.{
  CountsAgree, Sets-Sets, expire_record-Sets, set_status-Sets, table_statuses,
}
use app_com_util.Table.Swept.{
  length-map, swept, get_or-swept, set-swept, swept_all, length-swept, take-swept, take_all,
  first_zero-take,
}

-- The status of a record after one push, for the lifetime of the settings.
abbrev pub pushed : ℕ → ℕ → ℕ
pushed lifetime s =
    if leb 2 s && ltb s 255
    then if leb lifetime (s + 1) && not (lifetime == 255) then 0 else s + 1
    else s

-- Whether the push empties the record.
abbrev expires : ℕ → ℕ → Bool
expires lifetime s = leb 2 s && ltb s 255 && leb lifetime (s + 1) && not (lifetime == 255)

-- The number of the first `n` records that expire.
abbrev expired_below : ℕ → ℕ → List ℕ → ℕ
expired_below lifetime zero ss = 0
expired_below lifetime (suc n) [] = 0
expired_below lifetime (suc n) (s ∷ ss) =
    (if expires lifetime s then 1 else 0) + expired_below lifetime n ss

expired_below-next :
    (lifetime n : ℕ) (ss : List ℕ)
    → n < length ss
    → expired_below lifetime (suc n) ss
      ≡ expired_below lifetime n ss + (if expires lifetime (get_or ss n 0) then 1 else 0)
expired_below-next lifetime n [] h = absurd (omega arith)
expired_below-next lifetime zero (s ∷ ss) h = omega arith
expired_below-next lifetime (suc n) (s ∷ ss) h =
    omega (arith, expired_below-next lifetime n ss (omega arith))

expired_below-le : (lifetime n : ℕ) (ss : List ℕ) → expired_below lifetime n ss ≤ n
expired_below-le lifetime zero ss = omega arith
expired_below-le lifetime (suc n) [] = omega arith
expired_below-le lifetime (suc n) (s ∷ ss) = ground (arith, expired_below-le lifetime n ss)

deleted-pushed :
    (lifetime : ℕ) (ss : List ℕ)
    → deleted (map (pushed lifetime) ss) + expired_below lifetime (length ss) ss ≡ deleted ss
deleted-pushed lifetime [] = refl
deleted-pushed lifetime (s ∷ ss) = ground (arith, deleted-pushed lifetime ss)

in_use-pushed : (lifetime : ℕ) (ss : List ℕ) → in_use (map (pushed lifetime) ss) ≡ in_use ss
in_use-pushed lifetime [] = refl
in_use-pushed lifetime (s ∷ ss) = ground (arith, in_use-pushed lifetime ss)

-- The loop before round `i`, started with the table `t`.
record Pushing (t : Table) (i : ℕ) (s : Sweep) : Type 0 where
  config_eq : s.table.config ≡ t.config
  in_use_eq : s.table.in_use_count ≡ t.in_use_count
  deleted_eq : s.table.deleted_count ≡ t.deleted_count
  statuses_eq : table_statuses s.table ≡ swept (pushed t.config.lifetime) i (table_statuses t)
  next_empty_eq :
      s.next_empty ≡ first_zero 0 (take i (swept (pushed t.config.lifetime) i (table_statuses t)))
  expired_eq : s.expired ≡ expired_below t.config.lifetime i (table_statuses t)

note_empty-Pushing :
    (t : Table) (i : ℕ) (s : Sweep)
    → i < length (table_statuses t)
    → s.table.config ≡ t.config
    → s.table.in_use_count ≡ t.in_use_count
    → s.table.deleted_count ≡ t.deleted_count
    → table_statuses s.table ≡ swept (pushed t.config.lifetime) (suc i) (table_statuses t)
    → s.next_empty ≡ first_zero 0 (take i (swept (pushed t.config.lifetime) i (table_statuses t)))
    → s.expired ≡ expired_below t.config.lifetime (suc i) (table_statuses t)
    → Pushing t (suc i) (note_empty i s)
note_empty-Pushing t i s inside c u d ss n x =
    let f = pushed t.config.lifetime in
    let before = table_statuses t in
    let after = swept f (suc i) before in
    let zero_add : 0 + i + 1 ≡ i + 1 = omega arith in
    let read : (entry s.table i).status ≡ get_or after i 0 =
      sym (map-get_or s.table.entries i) ∙ ap (λ l. get_or l i 0) ss in
    let step = first_zero-take 0 i after (omega (arith, length-swept f (suc i) before)) in
    record {
      config_eq = c;
      in_use_eq = u;
      deleted_eq = d;
      statuses_eq = ss;
      next_empty_eq = rw (n, read, ← take-swept f i before) (sym (rw zero_add at step));
      expired_eq = x;
    }

abbrev ages : ℕ → Bool
ages s = leb 2 s && ltb s 255

abbrev is_over : ℕ → ℕ → Bool
is_over lifetime s = leb lifetime (s + 1) && not (lifetime == 255)

over_cases :
    (lifetime s : ℕ)
    → ages s ≡ true
    → is_over lifetime s ≡ true
    → (pushed lifetime s ≡ 0) × (expires lifetime s ≡ true)
over_cases lifetime s e f = (ground arith, ground arith)

ageing_cases :
    (lifetime s : ℕ)
    → ages s ≡ true
    → is_over lifetime s ≡ false
    → (pushed lifetime s ≡ s + 1) × (expires lifetime s ≡ false)
ageing_cases lifetime s e f = (ground arith, ground arith)

resting_cases :
    (lifetime s : ℕ) → ages s ≡ false → (pushed lifetime s ≡ s) × (expires lifetime s ≡ false)
resting_cases lifetime s e = (ground arith, ground arith)

push_round-Pushing :
    (t : Table) (i : ℕ) (s : Sweep)
    → i < length (table_statuses t)
    → length (table_statuses t) < u64_mod
    → Pushing t i s
    → Pushing t (suc i) (push_round i s)
unfolding push_round
push_round-Pushing t i s inside small p =
    let before = table_statuses t in
    let l = t.config.lifetime in
    let f = pushed l in
    let b = get_or before i 0 in
    let status = (entry s.table i).status in
    let read : status ≡ b =
      sym (map-get_or s.table.entries i)
      ∙ ap (λ l. get_or l i 0) p.statuses_eq
      ∙ get_or-swept f i before in
    let limit : s.table.config.lifetime ≡ l = ap (λ c. c.lifetime) p.config_eq in
    let moved = set-swept f i before in
    let more = expired_below-next l i before inside in
    elim (Bool-cases (ages status)) [
      | inr e ↦
          let cases = resting_cases l b (subst (λ x. ages x ≡ false) read e) in
          let kept : f b ≡ get_or (swept f i before) i 0 =
            cases.0 ∙ sym (get_or-swept f i before) in
          rw e (
            note_empty-Pushing t i s inside p.config_eq p.in_use_eq p.deleted_eq
              (p.statuses_eq ∙ sym (set-get_or (swept f i before) i) ∙ (rw kept at moved))
              p.next_empty_eq (rw (p.expired_eq, more, cases.1) (omega arith)))
      | inl e ↦
          let a = set_status-Sets s.table i (status + 1) in
          elim (Bool-cases (is_over s.table.config.lifetime status)) [
            | inl o ↦
                let over =
                  subst (λ x. is_over l x ≡ true) read
                    (subst (λ x. is_over x status ≡ true) limit o) in
                let cases = over_cases l b (subst (λ x. ages x ≡ true) read e) over in
                let x = Sets-Sets a (expire_record-Sets (set_status s.table i (status + 1)) i) in
                rw (e, o)
                  (note_empty-Pushing t i
                    (record s {
                      table = expire_record (set_status s.table i (status + 1)) i;
                      expired = add64 s.expired 1;
                    })
                    inside (x.config_eq ∙ p.config_eq) (x.in_use_eq ∙ p.in_use_eq)
                    (x.deleted_eq ∙ p.deleted_eq)
                    (x.statuses_eq ∙ ap (λ l. set l i 0) p.statuses_eq ∙ (rw (cases.0) at moved))
                    p.next_empty_eq
                    (rw (p.expired_eq, more, cases.1)
                      (add64-eq (expired_below l i before) 1
                        (omega (arith, expired_below-le l i before)))))
            | inr o ↦
                let under =
                  subst (λ x. is_over l x ≡ false) read
                    (subst (λ x. is_over x status ≡ false) limit o) in
                let cases = ageing_cases l b (subst (λ x. ages x ≡ true) read e) under in
                let aged : f b ≡ status + 1 = cases.0 ∙ ap (λ x. x + 1) (sym read) in
                rw (e, o)
                  (note_empty-Pushing t i (record s { table = set_status s.table i (status + 1) })
                    inside (a.config_eq ∙ p.config_eq) (a.in_use_eq ∙ p.in_use_eq)
                    (a.deleted_eq ∙ p.deleted_eq)
                    (a.statuses_eq
                      ∙ ap (λ l. set l i (status + 1)) p.statuses_eq
                      ∙ (rw aged at moved))
                    p.next_empty_eq (rw (p.expired_eq, more, cases.1) (omega arith)))
          ]
    ]

sweep-Pushing :
    (t : Table) (rounds i : ℕ) (s : Sweep)
    → length (table_statuses t) < u64_mod
    → i + rounds ≡ length (table_statuses t)
    → Pushing t i s
    → Pushing t (length (table_statuses t)) (sweep push_round rounds i s)
unfolding sweep
sweep-Pushing t zero i s small e p =
    let at : i ≡ length (table_statuses t) = omega arith in subst (λ k. Pushing t k s) at p
sweep-Pushing t (suc rounds) i s small e p =
    let next : i + 1 ≡ suc i = omega arith in
    rw next (
      sweep-Pushing t rounds (suc i) (push_round i s) small (omega arith)
        (push_round-Pushing t i s (omega arith) small p))

-- Where the counters of the header are true, the loop of `com_util_hashtable_push_deleted` ages every
-- deleted record below 255 by one, and empties those that reach a lifetime that is not 255; and with
-- the `next_empty` that it noted and a `deleted_count` lowered by the records it emptied, which the
-- function sets behind it, the counters are true again.
pub push_sweep-CountsAgree :
    (t : Table)
    → CountsAgree t
    → let s = sweep push_round t.config.capacity 0 (start_sweep t) in
      (table_statuses s.table ≡ map (pushed t.config.lifetime) (table_statuses t))
      × CountsAgree (record s.table {
        next_empty = s.next_empty;
        deleted_count = sub64 s.table.deleted_count s.expired;
      })
push_sweep-CountsAgree t v =
    let ss = table_statuses t in
    let f = pushed t.config.lifetime in
    let p : Pushing t 0 (start_sweep t) = record {
      config_eq = refl;
      in_use_eq = refl;
      deleted_eq = refl;
      statuses_eq = refl;
      next_empty_eq = refl;
      expired_eq = refl;
    } in
    let q =
      sweep-Pushing t t.config.capacity 0 (start_sweep t) (omega (arith, v.length_eq, v.small))
        (omega (arith, v.length_eq)) p in
    let all = q.statuses_eq ∙ swept_all f ss in
    let whole : take (length ss) (swept f (length ss) ss) ≡ map f ss =
      ap (take (length ss)) (swept_all f ss)
      ∙ ap (λ n. take n (map f ss)) (sym (length-map f ss))
      ∙ take_all (map f ss) in
    let spent = deleted-pushed t.config.lifetime ss in
    let room = counts-le ss in
    let left : sub64 t.deleted_count (expired_below t.config.lifetime (length ss) ss)
        ≡ deleted (map f ss) =
      sub64-eq t.deleted_count (expired_below t.config.lifetime (length ss) ss)
        (omega (arith, v.deleted_eq, v.length_eq, v.small)) (omega (arith, v.deleted_eq))
      ∙ omega (arith, v.deleted_eq) in
    (
      all,
      record {
        length_eq =
            ap length all ∙ length-map f ss ∙ v.length_eq ∙ sym (ap (λ c. c.capacity) q.config_eq);
        small = rw q.config_eq v.small;
        in_use_eq =
            q.in_use_eq ∙ v.in_use_eq ∙ sym (ap in_use all ∙ in_use-pushed t.config.lifetime ss);
        deleted_eq = rw (q.deleted_eq, q.expired_eq) (left ∙ sym (ap deleted all));
        next_empty_eq = q.next_empty_eq ∙ ap (first_zero 0) (whole ∙ sym all);
      },
    )
