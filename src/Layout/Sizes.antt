-- ===== src/Layout/Sizes.antt =====
-- The sizes that the two layout functions compute, as sums of unbounded numbers.
use app_com_util.Base.{
  ℕ, ◌+◌, ◌*◌, ◌≤◌, ◌<◌, ◌≡◌, Option, none, some, ltb, ◌==◌, if◌then◌else◌, arith, Bool-cases, inl,
  inr, refl, ◌∙◌, true, false, Bool,
}
use app_com_util.Base.Words.{u64_mod}
use app_com_util.Layout.{
  Config, MgmtLayout, ◌>>=◌, add_checked, mul_checked, align_up_checked, header_size, ref_size,
  entry_key_offset, key_slot_size, field_is_variable, entry_stride_checked, free_list_region_size,
  mgmt_layout, data_region_size, value_stride_checked,
}
use app_com_util.Layout.Checked.{
  fit64, align_up, add_checked-eq, mul_checked-eq, align_up_checked-eq, align_up_lem, fit64->>=,
}

-- Settings as the fields of a C struct hold them, with a capacity that the check accepts.
pub record InRange (c : Config) : Type 0 where
  pub capacity_pos : 0 < c.capacity
  pub capacity_u64 : c.capacity < u64_mod
  pub key_size_u64 : c.key_size < u64_mod
  pub value_size_u64 : c.value_size < u64_mod

-- The bytes of one record.
abbrev pub entry_stride : Config → ℕ
entry_stride c = align_up (entry_key_offset c + key_slot_size c) 8

-- The bytes of a free list, which only a variable field has.
abbrev pub free_list_bytes : Bool → Config → ℕ
free_list_bytes variable c = if variable then (c.capacity + 1) * ref_size else 0

abbrev pub entries_offset : Config → ℕ
entries_offset c = header_size + c.capacity * 8

abbrev pub mgmt_bytes : Config → ℕ
mgmt_bytes c =
    entries_offset c
    + c.capacity * entry_stride c
    + free_list_bytes (field_is_variable c.key_type) c
    + c.key_storage_size

entry_key_offset-le : (c : Config) → entry_key_offset c ≤ 40
unfolding entry_key_offset
entry_key_offset-le c = ground arith

key_slot_size-u64 : (c : Config) → InRange c → key_slot_size c < u64_mod
unfolding key_slot_size
key_slot_size-u64 c v = ground (arith, v.key_size_u64)

le-mul_pos : (a b : ℕ) → 0 < a → b ≤ a * b
le-mul_pos a b h = grind arith

-- A checked sum whose result goes to a checked function that only raises it.
fit64-raise :
    (n m : ℕ) (f : ℕ → Option ℕ) → n ≤ m → (n < u64_mod → f n ≡ fit64 m) → (fit64 n >>= f) ≡ fit64 m
fit64-raise n m f h next = fit64->>= n m f m h next

pub entry_stride_checked-eq :
    (c : Config) → InRange c → entry_stride_checked c ≡ fit64 (entry_stride c)
unfolding entry_stride_checked
entry_stride_checked-eq c v =
    let raw = entry_key_offset c + key_slot_size c in
    rw
      (add_checked-eq (entry_key_offset c) (key_slot_size c) (omega (arith, entry_key_offset-le c)))
      (fit64-raise raw (entry_stride c) (λ n. align_up_checked n 8)
        ((align_up_lem raw 8 (omega arith)).0) (align_up_checked-eq raw 8))

pub free_list_region_size-eq :
    (c : Config) → InRange c → free_list_region_size c ≡ fit64 ((c.capacity + 1) * ref_size)
unfolding free_list_region_size
free_list_region_size-eq c v = rw (add_checked-eq c.capacity 1 v.capacity_u64) (
    fit64-raise (c.capacity + 1) ((c.capacity + 1) * ref_size) (λ n. mul_checked n ref_size)
      (omega arith) (λ _. mul_checked-eq (c.capacity + 1) ref_size))

-- The bytes of one fixed value.
abbrev pub value_stride : Config → ℕ
value_stride c = if c.value_align == 0 then c.value_size else align_up c.value_size c.value_align

value_stride_checked-eq : (c : Config) → InRange c → value_stride_checked c ≡ fit64 (value_stride c)
unfolding value_stride_checked
value_stride_checked-eq c v =
    ground (arith, align_up_checked-eq c.value_size c.value_align, v.value_size_u64)

add_chain :
    {A : Type 0} (a b total : ℕ) (f : ℕ → Option A) (r : A)
    → a < u64_mod
    → a + b ≤ total
    → (a + b < u64_mod → f (a + b) ≡ (if ltb total u64_mod then some r else none))
    → (add_checked a b >>= f) ≡ (if ltb total u64_mod then some r else none)
add_chain a b total f r small h next =
    rw (add_checked-eq a b small) (fit64->>= (a + b) total f r h next)

-- The end of the management area: the free list, if keys have one, and the key storage.
last_sum :
    {A : Type 0} (a b total : ℕ) (f : ℕ → A)
    → a < u64_mod
    → a + b ≡ total
    → (add_checked a b >>= λ n. some (f n)) ≡ (if ltb total u64_mod then some (f total) else none)
last_sum a b total f small e = rw (add_checked-eq a b small, e) (cases (ltb total u64_mod))
  where
    cases :
        (t : Bool)
        → ((if t then some total else none) >>= λ n. some (f n))
          ≡ (if t then some (f total) else none)
    cases true = refl
    cases false = refl

bind_assoc :
    {A B C : Type 0} (m : Option A) (f : A → Option B) (g : B → Option C)
    → (m >>= f >>= g) ≡ (m >>= λ a. f a >>= g)
bind_assoc none f g = refl
bind_assoc (some a) f g = refl

mgmt_tail :
    (c : Config)
    → InRange c
    → entries_offset c + c.capacity * entry_stride c < u64_mod
    → ((if field_is_variable c.key_type
          then (free_list_region_size c >>= λ region.
              add_checked (entries_offset c + c.capacity * entry_stride c) region)
          else some (entries_offset c + c.capacity * entry_stride c))
        >>= λ free_end. add_checked free_end c.key_storage_size >>= λ size. some (
            let l : MgmtLayout = record {
              bucket_head = header_size;
              entries = entries_offset c;
              mgmt_size = size;
            } in
            l))
      ≡ (if ltb (mgmt_bytes c) u64_mod
          then some (record {
            bucket_head = header_size;
            entries = entries_offset c;
            mgmt_size = mgmt_bytes c;
          })
          else none)
mgmt_tail c v small =
    let behind = entries_offset c + c.capacity * entry_stride c in
    let total = mgmt_bytes c in
    let region = (c.capacity + 1) * ref_size in
    let place = λ (n : ℕ).
      let l : MgmtLayout = record {
        bucket_head = header_size;
        entries = entries_offset c;
        mgmt_size = n;
      } in
      l in
    elim (Bool-cases (field_is_variable c.key_type)) [
      | inr e ↦ rw e (last_sum behind c.key_storage_size _ place small (omega arith))
      | inl e ↦
          let total' = behind + region + c.key_storage_size in
          rw (e, free_list_region_size-eq c v)
            (bind_assoc (fit64 region) (add_checked behind)
                (λ n. add_checked n c.key_storage_size >>= λ size. some (place size))
              ∙ fit64->>= region total' _ (place total') (omega arith) (λ _.
                add_chain behind region total' _ (place total') small (omega arith)
                  (λ s. last_sum (behind + region) c.key_storage_size _ place s refl)))
    ]

-- For settings that their C types hold and a capacity that is not 0, the offsets and the size of the
-- management area are exact, and they are refused exactly if 64 bits do not hold the size.
pub mgmt_layout-eq :
    (c : Config)
    → InRange c
    → mgmt_layout c ≡ (
        if ltb (mgmt_bytes c) u64_mod
        then some (record {
          bucket_head = header_size;
          entries = entries_offset c;
          mgmt_size = mgmt_bytes c;
        })
        else none)
unfolding mgmt_layout
mgmt_layout-eq c v =
    let cap = c.capacity in
    let total = mgmt_bytes c in
    let r : MgmtLayout = record {
      bucket_head = header_size;
      entries = entries_offset c;
      mgmt_size = mgmt_bytes c;
    } in
    let stride = entry_stride c in
    let once = le-mul_pos cap stride v.capacity_pos in
    rw (mul_checked-eq cap 8, entry_stride_checked-eq c v)
      (fit64->>= (cap * 8) total _ r (omega arith) (λ _.
        add_chain header_size (cap * 8) total _ r (omega arith) (omega arith) (λ small.
          fit64->>= stride total _ r (omega arith) (λ _. rw (mul_checked-eq cap stride) (
            fit64->>= (cap * stride) total _ r (omega arith) (λ _.
              add_chain (entries_offset c) (cap * stride) total _ r small (omega arith)
                (mgmt_tail c v)))))))

-- The bytes of the value area.
abbrev pub data_bytes : Config → ℕ
data_bytes c =
    if field_is_variable c.value_type
    then c.capacity * ref_size + (c.capacity + 1) * ref_size + c.value_storage_size
    else c.capacity * value_stride c

-- For settings that their C types hold and a capacity that is not 0, the size of the value area is
-- exact, and it is refused exactly if 64 bits do not hold it.
pub data_region_size-eq : (c : Config) → InRange c → data_region_size c ≡ fit64 (data_bytes c)
unfolding data_region_size
data_region_size-eq c v = elim (Bool-cases (field_is_variable c.value_type)) [
  | inr e ↦
      rw (e, value_stride_checked-eq c v)
        (fit64-raise (value_stride c) (c.capacity * value_stride c) (mul_checked c.capacity)
          (le-mul_pos c.capacity (value_stride c) v.capacity_pos)
          (λ _. mul_checked-eq c.capacity (value_stride c)))
  | inl e ↦
      let refs = c.capacity * ref_size in
      let region = (c.capacity + 1) * ref_size in
      let total = refs + region + c.value_storage_size in
      rw (e, mul_checked-eq c.capacity ref_size, free_list_region_size-eq c v)
        (fit64-raise refs total _ (omega arith) (λ s. fit64-raise region total _ (omega arith) (λ _.
          add_chain refs region total _ total s (omega arith)
            (add_checked-eq (refs + region) c.value_storage_size))))
]
