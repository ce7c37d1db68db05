-- ===== src/Bytes.antt =====
-- C memory as lists of bytes: what a pointer can read from its address on is a list.
use app_com_util.Base.{
  ℕ, zero, suc, ◌+◌, ◌≤◌, ◌≡◌, refl, ap, Bool, true, false, ◌&&◌, ◌||◌, List, [], ◌∷◌, ◌==◌,
  if◌then◌else◌, length, take, drop, arith,
}

-- `strlen`. Where the list ends without a NUL the C code would read past the memory it may read.
abbrev pub strlen : List ℕ → ℕ
strlen [] = 0
strlen (c ∷ cs) = let rest = strlen cs in if c == 0 then 0 else suc rest

-- `memchr(p, '\0', n) != NULL`
abbrev pub has_nul : ℕ → List ℕ → Bool
has_nul zero cs = false
has_nul (suc n) [] = false
has_nul (suc n) (c ∷ cs) = (c == 0) || has_nul n cs

-- The bytes before the NUL.
abbrev pub c_string : List ℕ → List ℕ
c_string [] = []
c_string (c ∷ cs) = let rest = c ∷ c_string cs in if c == 0 then [] else rest

-- `strcmp(a, b) == 0` and `memcmp` compare lists of bytes.
abbrev pub bytes_equal : List ℕ → List ℕ → Bool
bytes_equal [] [] = true
bytes_equal (a ∷ as') (b ∷ bs) = (a == b) && bytes_equal as' bs
bytes_equal _ _ = false

-- `memcpy` and `memset`: the bytes from `offset` on are replaced; none is written past the end.
unfoldable pub overwrite : List ℕ → ℕ → List ℕ → List ℕ
overwrite [] offset bytes = []
overwrite (m ∷ memory) zero [] = m ∷ memory
overwrite (m ∷ memory) zero (b ∷ bytes) = b ∷ overwrite memory zero bytes
overwrite (m ∷ memory) (suc offset) bytes = m ∷ overwrite memory offset bytes

pub length-overwrite :
    (memory : List ℕ) (offset : ℕ) (bytes : List ℕ)
    → length (overwrite memory offset bytes) ≡ length memory
unfolding overwrite
length-overwrite [] offset bytes = refl
length-overwrite (m ∷ memory) zero [] = refl
length-overwrite (m ∷ memory) zero (b ∷ bytes) = ap suc (length-overwrite memory zero bytes)
length-overwrite (m ∷ memory) (suc offset) bytes = ap suc (length-overwrite memory offset bytes)

-- What was written is read back.
pub take-drop-overwrite :
    (memory : List ℕ) (offset : ℕ) (bytes : List ℕ)
    → offset + length bytes ≤ length memory
    → take (length bytes) (drop offset (overwrite memory offset bytes)) ≡ bytes
unfolding overwrite
take-drop-overwrite memory zero [] h = refl
take-drop-overwrite [] zero (b ∷ bytes) h = absurd (omega arith)
take-drop-overwrite (m ∷ memory) zero (b ∷ bytes) h =
    ap (λ t. b ∷ t) (take-drop-overwrite memory zero bytes (omega arith))
take-drop-overwrite [] (suc offset) [] h = absurd (omega arith)
take-drop-overwrite [] (suc offset) (b ∷ bytes) h = absurd (omega arith)
take-drop-overwrite (m ∷ memory) (suc offset) [] h = refl
take-drop-overwrite (m ∷ memory) (suc offset) (b ∷ bytes) h =
    take-drop-overwrite memory offset (b ∷ bytes) (omega arith)

-- A range before the bytes written, or behind them, reads as before.
pub take-drop-overwrite_before :
    (memory : List ℕ) (offset from n : ℕ) (bytes : List ℕ)
    → from + n ≤ offset
    → take n (drop from (overwrite memory offset bytes)) ≡ take n (drop from memory)
unfolding overwrite
take-drop-overwrite_before memory offset from zero bytes h = refl
take-drop-overwrite_before [] offset from (suc n) bytes h = refl
take-drop-overwrite_before (m ∷ memory) zero from (suc n) bytes h = absurd (omega arith)
take-drop-overwrite_before (m ∷ memory) (suc offset) zero (suc n) bytes h =
    ap (λ t. m ∷ t) (take-drop-overwrite_before memory offset zero n bytes (omega arith))
take-drop-overwrite_before (m ∷ memory) (suc offset) (suc from) (suc n) bytes h =
    take-drop-overwrite_before memory offset from (suc n) bytes (omega arith)

pub drop-overwrite_behind :
    (memory : List ℕ) (offset from : ℕ) (bytes : List ℕ)
    → offset + length bytes ≤ from
    → drop from (overwrite memory offset bytes) ≡ drop from memory
unfolding overwrite
drop-overwrite_behind [] offset from bytes h = refl
drop-overwrite_behind (m ∷ memory) zero from [] h = refl
drop-overwrite_behind (m ∷ memory) zero zero (b ∷ bytes) h = absurd (omega arith)
drop-overwrite_behind (m ∷ memory) zero (suc from) (b ∷ bytes) h =
    drop-overwrite_behind memory zero from bytes (omega arith)
drop-overwrite_behind (m ∷ memory) (suc offset) zero bytes h = absurd (omega arith)
drop-overwrite_behind (m ∷ memory) (suc offset) (suc from) bytes h =
    drop-overwrite_behind memory offset from bytes (omega arith)
