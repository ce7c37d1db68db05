-- ===== src/Field/Sound.antt =====
-- A field of any type behind a few laws: what its records hold, and what a search for room, a release
-- and a store do to it.
use app_com_util.Base.{
  ℕ, zero, suc, ◌+◌, ◌≤◌, ◌<◌, ◌≡◌, ◌≢◌, refl, ap, subst, sym, ◌∙◌, Bool, true, false, List, [],
  ◌∷◌, ◌⊎◌, inl, inr, some, length, take, replicate, arith, get_or-set_self, get_or-set_ne,
  length-set, Bool-cases, ◌==◌, ==_iff, if◌then◌else◌,
}
use app_com_util.Bytes.{strlen, c_string, overwrite}
use app_com_util.Arena.{Block, arena_find_fit, arena_give}
use app_com_util.Arena.Blocks.{IsFreeList, AllFree, NoneFree}
use app_com_util.Arena.Take.{Fits-le, AllFree-Fits}
use app_com_util.Arena.Fit.{Found, arena_find_fit-Found}
use app_com_util.Field.{Field, ref_at, field_at, string_size, find_free, release, store}
use app_com_util.Field.Readback.{store-field_at_variable, store-field_at_fixed}
use app_com_util.Field.Storage.{mark, IsStored, HasPlace, Same, Same-c_string}
use app_com_util.Field.Release.{release-IsStored, release-settings}
use app_com_util.Field.Fill.{store-IsStored, marked_apart}
use app_com_util.Layout.{field_is_variable, fixed_binary, fixed_string, variable_string}

-- What the library reads of bytes given as a key or a value: all of a binary one, a string up to its NUL.
abbrev pub canon : ℕ → ℕ → List ℕ → List ℕ
canon type size bytes = if type == fixed_binary then take size bytes else c_string bytes

-- What a record holds.
unfoldable pub content : Field → ℕ → List ℕ
content f r = canon f.type f.size (field_at f r)

abbrev pub IsSound : ℕ → (ℕ → Bool) → Field → Type 0
IsSound n live f =
    ((field_is_variable f.type ≡ true) × IsStored n live f)
    ⊎ ((field_is_variable f.type ≡ false) × (length f.slots ≡ n))

-- The input is a string where the field holds strings, and not too long for a fixed slot.
pub record IsInput (f : Field) (input : List ℕ) : Type 0 where
  pub known : f.type ≤ variable_string
  pub ends : (f.type == fixed_binary) ≡ false → strlen input < length input
  pub fits : f.type ≡ fixed_string → string_size input ≤ f.size

-- The storage has room for the input at the offset.
abbrev pub HasRoom : Field → List ℕ → ℕ → Type 0
HasRoom f input offset = field_is_variable f.type ≡ true → AllFree f.free offset (string_size input)

-- The settings of a field, which no operation changes.
pub record SameSettings (f f' : Field) : Type 0 where
  pub type_eq : f'.type ≡ f.type
  pub size_eq : f'.size ≡ f.size
  pub storage_size_eq : f'.storage_size ≡ f.storage_size

pub release-SameSettings : (f : Field) (r : ℕ) → SameSettings f (release f r)
unfolding release
release-SameSettings f r = elim (Bool-cases (field_is_variable f.type)) [
  | inl e ↦ rw e (record { type_eq = refl; size_eq = refl; storage_size_eq = refl })
  | inr e ↦ rw e (record { type_eq = refl; size_eq = refl; storage_size_eq = refl })
]

pub store-SameSettings :
    (f : Field) (r : ℕ) (input : List ℕ) (offset : ℕ) → SameSettings f (store f r input offset)
unfolding store
store-SameSettings f r input offset = elim (Bool-cases (field_is_variable f.type)) [
  | inl e ↦ rw e (record { type_eq = refl; size_eq = refl; storage_size_eq = refl })
  | inr e ↦ elim (Bool-cases (f.type == fixed_string)) [
    | inl d ↦ rw (e, d) (record { type_eq = refl; size_eq = refl; storage_size_eq = refl })
    | inr d ↦ rw (e, d) (record { type_eq = refl; size_eq = refl; storage_size_eq = refl })
  ]
]

-- Fewer records may be live.
pub IsSound-fewer :
    (n : ℕ) (live live' : ℕ → Bool) (f : Field)
    → ((s : ℕ) → live' s ≡ true → live s ≡ true)
    → IsSound n live f
    → IsSound n live' f
IsSound-fewer n live live' f h (inr v) = inr v
IsSound-fewer n live live' f h (inl (e, v)) = inl (
  e,
  record {
    free_list = v.free_list;
    bytes = v.bytes;
    refs = v.refs;
    used_eq = v.used_eq;
    place = λ r l. v.place r (h r l);
    apart = λ r s l m d. v.apart r s (h r l) (h s m) d;
  },
)

content-c_string :
    (f : Field) (r : ℕ) → (f.type == fixed_binary) ≡ false → content f r ≡ c_string (field_at f r)
unfolding content
content-c_string f r e = rw e refl

canon-c_string :
    (type size : ℕ) (bytes : List ℕ)
    → (type == fixed_binary) ≡ false
    → canon type size bytes ≡ c_string bytes
canon-c_string type size bytes e = rw e refl

variable_type : (type : ℕ) → field_is_variable type ≡ true → type ≡ variable_string
unfolding field_is_variable
variable_type type e = (==_iff type variable_string).0 e

Same-content :
    (f f' : Field) (n r : ℕ)
    → field_is_variable f.type ≡ true
    → f'.type ≡ f.type
    → length f.storage ≡ f.storage_size
    → Same f f' r
    → HasPlace f n r
    → content f' r ≡ content f r
unfolding content field_at
Same-content f f' n r e type b same h =
    let known = variable_type f.type e in
    let binary : (f.type == fixed_binary) ≡ false = ground arith in
    rw (type, binary, e) (Same-c_string f f' n r b same h)

found-AllFree :
    (size own len needed : ℕ) (bs : List Block) (offset : ℕ)
    → IsFreeList size bs
    → 0 < needed
    → own + len ≤ size
    → NoneFree bs own len
    → arena_find_fit bs own len needed ≡ some offset
    → AllFree (arena_give bs own len) offset needed
found-AllFree size own len needed bs offset v pos fit used e =
    let found =
      subst (λ o. Found needed (arena_give bs own len) o) e
        (arena_find_fit-Found size own len needed bs v pos fit used) in
    found.0

give_nothing : (bs : List Block) (own : ℕ) → arena_give bs own 0 ≡ bs
unfolding arena_give
give_nothing bs own = refl

-- A record that is not live finds room in free bytes.
pub find_free-HasRoom :
    (n : ℕ) (live : ℕ → Bool) (f : Field) (r : ℕ) (input : List ℕ) (offset : ℕ)
    → IsSound n live f
    → find_free f r false input ≡ some offset
    → HasRoom f input offset
unfolding find_free
find_free-HasRoom n live f r input offset (inr v) found e = cc
find_free-HasRoom n live f r input offset (inl (_, v)) found e =
    let searched : arena_find_fit f.free 0 0 (string_size input) ≡ some offset = rw e at found in
    subst (λ bs. AllFree bs offset (string_size input)) (give_nothing f.free 0)
      (found-AllFree f.storage_size 0 0 (string_size input) f.free offset v.free_list (omega arith)
        (omega arith) (λ x low high. absurd (omega arith)) searched)

-- A live record finds room in free bytes and its own.
pub find_free-HasRoom_released :
    (n : ℕ) (live : ℕ → Bool) (f : Field) (r : ℕ) (input : List ℕ) (offset : ℕ)
    → IsSound n live f
    → live r ≡ true
    → find_free f r true input ≡ some offset
    → HasRoom (release f r) input offset
unfolding find_free
find_free-HasRoom_released n live f r input offset (inr v) now found e =
    cc (v.0, ap field_is_variable (release-SameSettings f r).type_eq)
find_free-HasRoom_released n live f r input offset (inl (variable, v)) now found e =
    let own = v.place r now in
    let searched : arena_find_fit f.free (ref_at f r).offset (ref_at f r).length (string_size input)
        ≡ some offset =
      rw variable at found in
    rw ((release-settings n live f r variable).3) (
      found-AllFree f.storage_size (ref_at f r).offset (ref_at f r).length (string_size input)
        f.free offset v.free_list (omega arith) own.fits own.occupied searched)

-- A live record's bytes are given back; what the others hold stays.
pub release-IsSound :
    (n : ℕ) (live : ℕ → Bool) (f : Field) (r : ℕ)
    → IsSound n live f
    → live r ≡ true
    → IsSound n (mark live r false) (release f r)
      × ((s : ℕ) → live s ≡ true → s ≢ r → content (release f r) s ≡ content f s)
release-IsSound n live f r (inl (e, v)) now =
    let (sound, same) = release-IsStored n live f r e v now in
    let settings = release-SameSettings f r in
    (
      inl (rw settings.type_eq e, sound),
      λ s l d.
          Same-content f (release f r) n s e settings.type_eq v.bytes (same s l d) (v.place s l),
    )
release-IsSound n live f r (inr (e, slots)) now =
    let settings = release-SameSettings f r in
    (
      inr (
        rw settings.type_eq e,
        unfold release in rw e (length-set f.slots r (replicate f.size 0) ∙ slots),
      ),
      λ s l d.
          unfold content field_at release in
          rw (e, e, get_or-set_ne f.slots r s (replicate f.size 0) [] (λ x. d (sym x))) refl,
    )

take-take : (n : ℕ) (bytes : List ℕ) → take n (take n bytes) ≡ take n bytes
take-take zero bytes = refl
take-take (suc n) [] = refl
take-take (suc n) (b ∷ bytes) = ap (λ l. b ∷ l) (take-take n bytes)

-- In a sound field of `n` records, a record below `n` that is not live gets an input that suits the field,
-- at an offset where a string storage has room for it: the field is sound with the record live, the
-- record holds what the library reads of the input, and what the live records hold stays.
pub store-IsSound :
    (n : ℕ) (live : ℕ → Bool) (f : Field) (r : ℕ) (input : List ℕ) (offset : ℕ)
    → IsSound n live f
    → r < n
    → live r ≡ false
    → IsInput f input
    → HasRoom f input offset
    → IsSound n (mark live r true) (store f r input offset)
      × (content (store f r input offset) r ≡ canon f.type f.size input)
      × ((s : ℕ) → live s ≡ true → content (store f r input offset) s ≡ content f s)
store-IsSound n live f r input offset (inl (e, v)) inside fresh given room =
    let known = variable_type f.type e in
    let binary : (f.type == fixed_binary) ≡ false = ground arith in
    let ends = given.ends binary in
    let (sound, same) = store-IsStored n live f r input offset e ends v inside fresh (room e) in
    let settings = store-SameSettings f r input offset in
    let fits = Fits-le 0 f.storage_size offset (string_size input) f.free v.free_list.ordered (
      AllFree-Fits 0 f.storage_size offset (string_size input) f.free (omega arith)
        v.free_list.ordered (room e)) in
    let read =
      store-field_at_variable f r input offset known ends (omega (arith, v.refs))
        (omega (arith, v.bytes)) in
    (
      inl (rw settings.type_eq e, sound),
      content-c_string (store f r input offset) r
            (ap (λ k. k == fixed_binary) settings.type_eq ∙ binary)
          ∙ read
          ∙ sym (canon-c_string f.type f.size input binary),
      λ s l.
          Same-content f (store f r input offset) n s e settings.type_eq v.bytes (same s l)
            (v.place s l),
    )
store-IsSound n live f r input offset (inr (e, slots)) inside fresh given room =
    let settings = store-SameSettings f r input offset in
    elim (Bool-cases (f.type == fixed_string)) [
      | inl d ↦
          let known = (==_iff f.type fixed_string).0 d in
          let binary : (f.type == fixed_binary) ≡ false = ground arith in
          let read =
            store-field_at_fixed f r input offset known (given.ends binary) (omega arith)
              (given.fits known) in
          let slot = overwrite (replicate f.size 0) 0 (take (string_size input) input) in
          (
            inr (
              rw settings.type_eq e,
              unfold store in rw (e, d) (length-set f.slots r slot ∙ slots),
            ),
            content-c_string (store f r input offset) r
                  (ap (λ k. k == fixed_binary) settings.type_eq ∙ binary)
                ∙ read
                ∙ sym (canon-c_string f.type f.size input binary),
            λ s l.
                unfold content field_at store in
                rw
                  (
                    e,
                    d,
                    e,
                    get_or-set_ne f.slots r s slot [] (λ x. marked_apart live r s fresh l (sym x)),
                  )
                  refl,
          )
      | inr d ↦
          let binary : (f.type == fixed_binary) ≡ true =
            unfold field_is_variable in ground (arith, given.known) in
          let slot = take f.size input in
          (
            inr (
              rw settings.type_eq e,
              unfold store in rw (e, d) (length-set f.slots r slot ∙ slots),
            ),
            unfold content field_at store in
                rw (e, d, binary, e, get_or-set_self f.slots r slot [] (omega arith))
                  (take-take f.size input),
            λ s l.
                unfold content field_at store in
                rw
                  (
                    e,
                    d,
                    e,
                    get_or-set_ne f.slots r s slot [] (λ x. marked_apart live r s fresh l (sym x)),
                  )
                  refl,
          )
    ]
