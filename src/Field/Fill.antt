-- ===== src/Field/Fill.antt =====
-- `key_store` and `value_store` on a variable field.
use app_com_util.Base.{
  ℕ, ◌<◌, ◌≡◌, ◌≢◌, refl, ap, sym, ◌∙◌, Bool, true, false, List, inl, inr, length, take, drop,
  arith, get_or-set_self, get_or-set_ne, length-set, length-take,
}
use app_com_util.Base.Words.{add64-eq}
use app_com_util.Bytes.{strlen, overwrite, length-overwrite}
use app_com_util.Arena.{Block, arena_take}
use app_com_util.Arena.Blocks.{AllFree, NoneFree}
use app_com_util.Arena.Take.{Takes, arena_take-Takes, Fits-le, AllFree-Fits}
use app_com_util.Field.{Field, Ref, no_ref, ref_at, string_size, store}
use app_com_util.Field.Readback.{take_copied}
use app_com_util.Field.Storage.{
  mark, mark-true, AreApart, HasPlace, IsStored, Same, Same-HasPlace, take-drop-overwrite_apart,
  free_used-AreApart, strlen-start,
}
use app_com_util.Field.Release.{AreApart-sym}
use app_com_util.Layout.{field_is_variable}

-- Taking free bytes leaves used ones used, and makes those taken used.
NoneFree-take :
    (size o l o' l' : ℕ) (bs bs' : List Block)
    → Takes size o l bs bs'
    → NoneFree bs o' l'
    → NoneFree bs' o' l'
NoneFree-take size o l o' l' bs bs' t used x low high =
    let e = t.bytes x in let u = used x low high in ground arith

NoneFree-taken : (size o l : ℕ) (bs bs' : List Block) → Takes size o l bs bs' → NoneFree bs' o l
NoneFree-taken size o l bs bs' t x low high = let e = t.bytes x in ground arith

pub marked_apart : (live : ℕ → Bool) (r s : ℕ) → live r ≡ false → live s ≡ true → s ≢ r
marked_apart live r s f t = λ e. cc (ap live e)

module _ (n : ℕ) (live : ℕ → Bool) (f : Field) (r : ℕ) (input : List ℕ) (offset : ℕ)
    (variable : field_is_variable f.type ≡ true) (ends : strlen input < length input) where
  store-settings :
      ((store f r input offset).storage_size ≡ f.storage_size)
      × ((store f r input offset).free ≡ arena_take f.free offset (string_size input))
      × ((store f r input offset).storage
          ≡ overwrite f.storage offset (take (string_size input) input))
  unfolding store
  store-settings = rw variable (refl, refl, refl)

  store-ref_at : (s : ℕ) → s ≢ r → ref_at (store f r input offset) s ≡ ref_at f s
  unfolding store
  store-ref_at s h = rw variable (
      get_or-set_ne f.refs r s (record { offset = offset; length = string_size input }) no_ref
        (λ e. h (sym e)))

  store-ref_at_self :
      r < length f.refs
      → ref_at (store f r input offset) r ≡ record { offset = offset; length = string_size input }
  unfolding store
  store-ref_at_self inside = rw variable (
      get_or-set_self f.refs r (record { offset = offset; length = string_size input }) no_ref
        inside)

  written : length (take (string_size input) input) ≡ string_size input
  written = omega (arith, length-take (string_size input) input)

  store-Same :
      (s : ℕ)
      → s ≢ r
      → AreApart (ref_at f s).offset (ref_at f s).length offset (string_size input)
      → Same f (store f r input offset) s
  store-Same s h apart = record {
    ref_eq = store-ref_at s h;
    bytes_eq = rw (store-settings.2) (
        take-drop-overwrite_apart f.storage offset (take (string_size input) input)
          (ref_at f s).offset (ref_at f s).length (rw written apart));
  }

  -- The string written stands in its place.
  store-HasPlace :
      IsStored n live f
      → r < n
      → AllFree f.free offset (string_size input)
      → HasPlace (store f r input offset) n r
  store-HasPlace v inside all =
      let self = store-ref_at_self (omega (arith, v.refs)) in
      let at = ap (λ (x : Ref). x.offset) self in
      let long = ap (λ (x : Ref). x.length) self in
      let t =
        arena_take-Takes f.storage_size offset (string_size input) f.free v.free_list (omega arith)
          all in
      let fits = Fits-le 0 f.storage_size offset (string_size input) f.free v.free_list.ordered (
        AllFree-Fits 0 f.storage_size offset (string_size input) f.free (omega arith)
          v.free_list.ordered all) in
      let memory = overwrite f.storage offset (take (string_size input) input) in
      let read : strlen (drop offset memory) ≡ strlen input =
        strlen-start input (drop offset memory) ends (
          take_copied f.storage input offset (string_size input) (omega arith)
            (omega (arith, v.bytes))) in
      record {
        below = inside;
        fits = rw (at, long, store-settings.0) fits;
        occupied =
            rw (at, long, store-settings.1)
              (NoneFree-taken f.storage_size offset (string_size input) f.free
                (arena_take f.free offset (string_size input)) t);
        ends = rw (at, long, store-settings.2) (omega (arith, read));
      }

  -- A string stored where the storage is free keeps the storage well formed, leaves the other
  -- strings, and is the string that the record has then.
  pub store-IsStored :
      IsStored n live f
      → r < n
      → live r ≡ false
      → AllFree f.free offset (string_size input)
      → IsStored n (mark live r true) (store f r input offset)
        × ((s : ℕ) → live s ≡ true → Same f (store f r input offset) s)
  store-IsStored v inside fresh all =
      let t =
        arena_take-Takes f.storage_size offset (string_size input) f.free v.free_list (omega arith)
          all in
      let size = store-settings.0 in
      let taken = store-settings.1 in
      let after = arena_take f.free offset (string_size input) in
      let self = store-ref_at_self (omega (arith, v.refs)) in
      let at = ap (λ (x : Ref). x.offset) self in
      let long = ap (λ (x : Ref). x.length) self in
      let ne = λ (s : ℕ) (l : live s ≡ true). marked_apart live r s fresh l in
      let clear = λ (s : ℕ) (l : live s ≡ true).
        free_used-AreApart f.free (ref_at f s).offset (ref_at f s).length offset (string_size input)
          (omega (arith, (v.place s l).ends)) (omega arith) (v.place s l).occupied all in
      let same = λ (s : ℕ) (l : live s ≡ true). store-Same s (ne s l) (clear s l) in
      (
        record {
          free_list = rw (size, taken) t.valid;
          bytes =
              rw (store-settings.2, size)
                (length-overwrite f.storage offset (take (string_size input) input) ∙ v.bytes);
          refs =
              unfold store in
              rw variable (
                length-set f.refs r (record { offset = offset; length = string_size input })
                ∙ v.refs);
          used_eq =
              rw (size, taken)
                (unfold store in
                  rw
                    (
                      variable,
                      add64-eq f.used (string_size input)
                          (omega (arith, v.used_eq, v.free_list.small, t.total)),
                    )
                    (omega (arith, v.used_eq, t.total)));
          place = λ s h. elim (mark-true live r s h) [
            | inl e ↦ rw e (store-HasPlace v inside all)
            | inr (l, d) ↦
                Same-HasPlace f (store f r input offset) n s v.bytes size (same s l)
                  (rw taken (
                    NoneFree-take f.storage_size offset (string_size input) (ref_at f s).offset
                      (ref_at f s).length f.free after t ((v.place s l).occupied)))
                  (v.place s l)
          ];
          apart = λ s u h k e. elim (mark-true live r s h) [
            | inl es ↦ elim (mark-true live r u k) [
              | inl eu ↦ absurd (e (es ∙ sym eu))
              | inr (m, du) ↦
                  rw (es, at, long, store-ref_at u du)
                    (AreApart-sym (ref_at f u).offset (ref_at f u).length offset (string_size input)
                      (clear u m))
            ]
            | inr (l, ds) ↦ elim (mark-true live r u k) [
              | inl eu ↦ rw (eu, at, long, store-ref_at s ds) (clear s l)
              | inr (m, du) ↦ rw (store-ref_at s ds, store-ref_at u du) (v.apart s u l m e)
            ]
          ];
        },
        same,
      )
