-- ===== src/Field/Release.antt =====
-- `release_key` and `release_value` on a variable field.
use app_com_util.Base.{
  ℕ, ◌+◌, ◌≤◌, ◌≡◌, ◌≢◌, refl, sym, ◌∙◌, Bool, true, false, List, [], ◌∷◌, inl, inr, replicate,
  arith, get_or-set_ne, length-set, length-replicate,
}
use app_com_util.Base.Words.{sub64-eq}
use app_com_util.Bytes.{length-overwrite}
use app_com_util.Arena.{Block, arena_give}
use app_com_util.Arena.Blocks.{IsOrdered, NoneFree, total_free}
use app_com_util.Arena.Give.{Gives, arena_give-Gives}
use app_com_util.Field.{Field, no_ref, ref_at, release}
use app_com_util.Field.Storage.{
  mark, mark-false, AreApart, IsStored, Same, Same-HasPlace, take-drop-overwrite_apart,
}
use app_com_util.Layout.{field_is_variable}

-- A free list holds no more bytes than its storage has.
total_free-le :
    (low size : ℕ) (bs : List Block)
    → low ≤ size
    → IsOrdered low size bs
    → total_free bs + low ≤ size
total_free-le low size [] h o = omega arith
total_free-le low size (b ∷ []) h o = omega arith
total_free-le low size (b ∷ c ∷ bs) h o =
    omega (arith, total_free-le (b.offset + b.length + 1) size (c ∷ bs) (omega arith) o.3)

-- Giving bytes back leaves the ranges apart from them as they were.
NoneFree-give :
    (size o l o' l' : ℕ) (bs bs' : List Block)
    → Gives size o l bs bs'
    → AreApart o l o' l'
    → NoneFree bs o' l'
    → NoneFree bs' o' l'
NoneFree-give size o l o' l' bs bs' g apart used x low high =
    let e = g.bytes x in let u = used x low high in ground arith

pub AreApart-sym : (o l o' l' : ℕ) → AreApart o l o' l' → AreApart o' l' o l
AreApart-sym o l o' l' (inl h) = inr h
AreApart-sym o l o' l' (inr h) = inl h

module _ (n : ℕ) (live : ℕ → Bool) (f : Field) (r : ℕ)
    (variable : field_is_variable f.type ≡ true) where
  release-ref_at : (s : ℕ) → s ≢ r → ref_at (release f r) s ≡ ref_at f s
  unfolding release
  release-ref_at s h = rw variable (get_or-set_ne f.refs r s no_ref no_ref (λ e. h (sym e)))

  release-Same :
      (s : ℕ)
      → s ≢ r
      → AreApart (ref_at f r).offset (ref_at f r).length (ref_at f s).offset (ref_at f s).length
      → Same f (release f r) s
  release-Same s h apart = record {
    ref_eq = release-ref_at s h;
    bytes_eq =
        unfold release in
        rw variable (
          take-drop-overwrite_apart f.storage (ref_at f r).offset (replicate (ref_at f r).length 0)
            (ref_at f s).offset (ref_at f s).length
            (rw (length-replicate {A = ℕ} (ref_at f r).length 0) (
              AreApart-sym (ref_at f r).offset (ref_at f r).length (ref_at f s).offset
                (ref_at f s).length apart)));
  }

  pub release-settings :
      ((release f r).type ≡ f.type)
      × ((release f r).size ≡ f.size)
      × ((release f r).storage_size ≡ f.storage_size)
      × ((release f r).free ≡ arena_give f.free (ref_at f r).offset (ref_at f r).length)
  unfolding release
  release-settings = rw variable (refl, refl, refl, refl)

  -- Releasing a live record's string gives its bytes back, and leaves the other strings.
  pub release-IsStored :
      IsStored n live f
      → live r ≡ true
      → IsStored n (mark live r false) (release f r)
        × ((s : ℕ) → live s ≡ true → s ≢ r → Same f (release f r) s)
  release-IsStored v now =
      let own = v.place r now in
      let g =
        arena_give-Gives f.storage_size (ref_at f r).offset (ref_at f r).length f.free v.free_list
          own.fits own.occupied in
      let given = release-settings.3 in
      let size = release-settings.2 in
      let room =
        total_free-le 0 f.storage_size (arena_give f.free (ref_at f r).offset (ref_at f r).length)
          (omega arith) g.valid.ordered in
      let other : (s : ℕ) → mark live r false s ≡ true → (live s ≡ true) × (s ≢ r) =
        λ s h. mark-false live r s h in
      let apart = λ (s : ℕ) (l : live s ≡ true) (h : s ≢ r). v.apart r s now l (λ e. h (sym e)) in
      let same = λ (s : ℕ) (l : live s ≡ true) (h : s ≢ r). release-Same s h (apart s l h) in
      (
        record {
          free_list = rw (size, given) g.valid;
          bytes =
              unfold release in
              rw variable (
                length-overwrite f.storage (ref_at f r).offset (replicate (ref_at f r).length 0)
                ∙ v.bytes);
          refs = unfold release in rw variable (length-set f.refs r no_ref ∙ v.refs);
          used_eq =
              rw (size, given)
                (unfold release in
                  rw
                    (
                      variable,
                      sub64-eq f.used (ref_at f r).length
                          (omega (arith, v.used_eq, v.free_list.small))
                          (omega (arith, v.used_eq, g.total)),
                    )
                    (omega (arith, v.used_eq, g.total)));
          place = λ s h.
              let (l, ne) = other s h in
              Same-HasPlace f (release f r) n s v.bytes size (same s l ne)
                (rw given (
                  NoneFree-give f.storage_size (ref_at f r).offset (ref_at f r).length
                    (ref_at f s).offset (ref_at f s).length f.free
                    (arena_give f.free (ref_at f r).offset (ref_at f r).length) g (apart s l ne)
                    ((v.place s l).occupied)))
                (v.place s l);
          apart = λ s u h k e.
              let (l, ne) = other s h in
              let (m, ne') = other u k in
              rw (release-ref_at s ne, release-ref_at u ne') (v.apart s u l m e);
        },
        same,
      )
