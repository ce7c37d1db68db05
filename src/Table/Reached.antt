-- ===== src/Table/Reached.antt =====
-- The tables that calls lead to.
use app_com_util.Base.{ℕ, ◌≡◌, Bool, List, Option, some, subst}
use app_com_util.Layout.{Config}
use app_com_util.Status.{Status}
use app_com_util.Timespec.{Timespec}
use app_com_util.Table.{Table, outside, new_table}
use app_com_util.Table.Put.{Reply, put, update}
use app_com_util.Table.Delete.{delete}
use app_com_util.Table.Direct.{insert_direct}
use app_com_util.Table.Inserted.{insert_direct_bytes-InsertsAs}
use app_com_util.Table.Sweep.{clear}
use app_com_util.Table.Valid.{IsCreatable, IsValid}
use app_com_util.Table.Refilled.{IsTerminated}
use app_com_util.Table.Refined.{put_bytes-PutsAs, update_bytes-UpdatesAs}
use app_com_util.Table.Deleted.{delete_bytes-Deletes}
use app_com_util.Table.Created.{new_table-IsValid, clear-IsValid}

-- One call that changes a table. Strings end with a NUL.
pub data Step : Table → Table → Type 0 where
  put_step :
      (t : Table) (key value : List ℕ) (policy : ℕ) (allow_update : Bool) (now : Timespec)
      (r : Reply)
      → IsTerminated t.keys key
      → IsTerminated t.values value
      → put t (outside key) (outside value) policy allow_update now ≡ some r
      → Step t r.table
  update_step :
      (t : Table) (key value : List ℕ) (now : Timespec) (r : Status × Table)
      → IsTerminated t.values value
      → update t (outside key) (outside value) now ≡ some r
      → Step t r.1
  delete_step :
      (t : Table) (key : List ℕ) (now : Timespec) (r : Status × Table)
      → delete t (outside key) now ≡ some r
      → Step t r.1
  insert_step :
      (t : Table) (number : ℕ) (key : List ℕ) (status : ℕ) (value : List ℕ)
      (timestamp : Option Timespec) (generation : ℕ) (r : Status × Table)
      → IsTerminated t.keys key
      → IsTerminated t.values value
      → insert_direct t number (outside key) status (outside value) timestamp generation ≡ some r
      → Step t r.1
  clear_step : (t : Table) (now : Timespec) → Step t (clear t now)

pub data Reaches (c : Config) : Table → Type 0 where
  created : Reaches c (new_table c)
  next : {t u : Table} → Reaches c t → Step t u → Reaches c u

same_result : {A : Type 0} {a b : A} {o : Option A} → o ≡ some a → o ≡ some b → a ≡ b
same_result {A} {a} {b} e d = cc

Step-IsValid : {t u : Table} → Step t u → IsValid t → IsValid u
unfolding put update delete insert_direct
Step-IsValid (put_step t key value policy allow_update now r key_ends value_ends e) v =
    let (r', ends, valid, _) =
      put_bytes-PutsAs t key value policy allow_update now v key_ends value_ends in
    subst (λ x. IsValid x.table) (same_result ends e) valid
Step-IsValid (update_step t key value now r value_ends e) v =
    let (r', ends, valid, _) = update_bytes-UpdatesAs t key value now v value_ends in
    subst (λ x. IsValid x.1) (same_result ends e) valid
Step-IsValid (delete_step t key now r e) v =
    let (r', ends, valid, _) = delete_bytes-Deletes t key now v in
    subst (λ x. IsValid x.1) (same_result ends e) valid
Step-IsValid (insert_step t number key status value timestamp generation r key_ends value_ends e)
      v =
    let (r', ends, valid, _) =
      insert_direct_bytes-InsertsAs t number key status value timestamp generation v key_ends
        value_ends in
    subst (λ x. IsValid x.1) (same_result ends e) valid
Step-IsValid (clear_step t now) v = (clear-IsValid t now v).0

-- Where the settings are accepted and the capacity and the storage sizes fit 64 bits, every table that
-- puts, updates, direct inserts, deletes and clears make of a new table is valid: its counters are true, its chains are
-- in order, and its keys and values have their own places.
pub Reaches-IsValid : (c : Config) (t : Table) → IsCreatable c → Reaches c t → IsValid t
Reaches-IsValid c t h created = (new_table-IsValid c h).0
Reaches-IsValid c t h (next r s) = Step-IsValid s (Reaches-IsValid c _ h r)
