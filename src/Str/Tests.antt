-- ===== src/Str/Tests.antt =====
-- Runs of the growing strings, and instances of what is proved of them.
use mathlib.Core.Option.{some-injective}
use ek_utils.Base.{
  ℕ, zero, suc, ◌+◌, ◌≤◌, ◌≡◌, refl, sym, ap, ◌∙◌, arith, ◌⊎◌, true, Option, none, some, [], ◌∷◌,
  length, take, Bytes, blit, slice, ◌>>=◌,
}
use ek_utils.Err.{ok, nomem}
use ek_utils.Str.{
  Str, grow, new_block, ensure_cap, put_text, append_bytes, append_len, append, cat, append_fmt,
  create, clear, free, swap_ends, reverse, get_cstring, get_len, get_cap, cmp, ncmp, pos, negsuc,
  clamp, copy_part, slice_str,
}
use ek_utils.Str.Reverse.{IsReversal, reverse_lem}
use ek_utils.Str.Slice.{slice_str_lem}
use ek_utils.Str.Growth.{grow_one-stuck}
use ek_utils.Str.Append.{within, IsValid, Reads, Reallocates, append_len_lem, second_append-faults}

-- An allocator that always has a block of zeros.
abbrev zeros : ℕ → Bytes
zeros zero = []
zeros (suc n) = 0 ∷ zeros n

abbrev calloc : ℕ → Option Bytes
calloc n = some (zeros n)

abbrev resized : Bytes → ℕ → Bytes
resized b zero = []
resized [] (suc n) = 0 ∷ resized [] n
resized (x ∷ xs) (suc n) = x ∷ resized xs n

abbrev recalloc : Bytes → ℕ → Option Bytes
recalloc b n = some (resized b n)

length-resized : (b : Bytes) (n : ℕ) → length (resized b n) ≡ n
length-resized b zero = refl
length-resized [] (suc n) = ap suc (length-resized [] n)
length-resized (x ∷ xs) (suc n) = ap suc (length-resized xs n)

take-resized : (b : Bytes) (n : ℕ) → length b ≤ n → take (length b) (resized b n) ≡ b
take-resized [] n h = refl
take-resized (x ∷ xs) zero h = absurd (omega arith)
take-resized (x ∷ xs) (suc n) h = ap (◌∷◌ x) (take-resized xs n (omega arith))

recalloc-Reallocates : Reallocates recalloc
recalloc-Reallocates b n b' e h =
    let same : resized b n ≡ b' = some-injective _ _ e in
    (
      ap length (sym same) ∙ length-resized b n,
      ap (take (length b)) (sym same) ∙ take-resized b n h,
    )

-- "a" in a buffer of four bytes.
abbrev one : Bytes
one = 97 ∷ 0 ∷ 0 ∷ 0 ∷ []

one-IsValid : IsValid one 1
one-IsValid = record { inside = omega arith; grows = λ q. omega (arith, q); narrow = omega arith }

append_len_lem_example :
    (append_len calloc recalloc 9 (some (within one 1)) (some (98 ∷ 99 ∷ 100 ∷ [])) 3
      ≡ some (nomem, some (within one 1)))
    ⊎ ((b' : Bytes) × (append_len calloc recalloc 9
            (some (within one 1))
            (some (98 ∷ 99 ∷ 100 ∷ []))
            3
          ≡ some (ok, some (within b' 4)))
        × IsValid b' 4
        × Reads b' 4 (97 ∷ 98 ∷ 99 ∷ 100 ∷ []))
append_len_lem_example =
    append_len_lem calloc recalloc 9 one 1 (98 ∷ 99 ∷ 100 ∷ []) 3 recalloc-Reallocates one-IsValid
      (omega arith) (omega arith) (omega arith) (omega arith)

second_append-faults_example :
    (append_len calloc recalloc 9
        (some (record { buf = none; cap = 0; len = 0 }))
        (some (97 ∷ []))
        1
      >>= λ r. append_len calloc recalloc 9 r.1 (some (98 ∷ [])) 1)
    ≡ none
second_append-faults_example =
    second_append-faults calloc recalloc 9 97 98 (0 ∷ 0 ∷ []) (omega arith) refl refl

grow_one-stuck_example : grow 50 1 3 ≡ none
grow_one-stuck_example = grow_one-stuck 50 3 (omega arith)

-- A string through all the operations.
abbrev hello : Option (Option Str)
hello = create calloc recalloc 9 true (some (104 ∷ 101 ∷ 121 ∷ 0 ∷ []))

abbrev after : {A : Type 0} → (Option Str → A) → Option A
after f = do s ← hello; some (f s)

reads :
    (after get_cstring ≡ some (104 ∷ 101 ∷ 121 ∷ 0 ∷ []))
    × (after get_len ≡ some 3)
    × (after get_cap ≡ some 4)
    × (after (λ s. get_len (clear s)) ≡ some 0)
    × (after (λ s. cmp (λ a b. length a) s s) ≡ some 4)
    × (after (λ s. ncmp (λ a b n. n) s s 7) ≡ some 3)
    × (after (λ s. free (λ b h. h + 1) (λ t h. h + t.len) s 0) ≡ some 1)
unfolding create append append_len append_bytes ensure_cap new_block put_text grow get_cstring
    get_len get_cap clear cmp ncmp free blit
reads = (refl, refl, refl, refl, refl, refl, refl)

changes :
    ((hello >>= reverse) >>= (λ r. some (get_cstring r.1)) ≡ some (121 ∷ 101 ∷ 104 ∷ 0 ∷ []))
    × ((hello >>= λ s. slice_str calloc recalloc 9 true s (negsuc 1) (pos 9))
        ≡ some (some (record { buf = some (101 ∷ 121 ∷ 0 ∷ []); cap = 2; len = 2 })))
    × ((hello >>= λ s. cat calloc recalloc 9 s s) >>= (λ r. some (get_len r.1)) ≡ some 6)
    × ((hello >>= λ s. append_fmt calloc recalloc 9 s true (some (33 ∷ []))) ≡ none)
unfolding create append append_len append_bytes ensure_cap new_block put_text grow get_cstring
    get_len reverse swap_ends slice_str clamp copy_part cat append_fmt blit slice
changes = (refl, refl, refl, refl)

reverse_lem_example :
    (c : Bytes) × (reverse (some (within (97 ∷ 98 ∷ 99 ∷ 0 ∷ []) 3))
      ≡ some (ok, some (record { buf = some c; cap = 4; len = 3 })))
    × IsReversal 0 3 (97 ∷ 98 ∷ 99 ∷ 0 ∷ []) c
reverse_lem_example = reverse_lem (97 ∷ 98 ∷ 99 ∷ 0 ∷ []) 4 3 (omega arith)

slice_str_lem_example :
    (c : Bytes) × (slice_str calloc recalloc 9 true
        (some (within (97 ∷ 98 ∷ 99 ∷ 0 ∷ []) 3))
        (negsuc 1)
        (pos 8)
      ≡ some (some (record { buf = some c; cap = 2; len = 2 })))
    × Reads c 2 (slice (97 ∷ 98 ∷ 99 ∷ 0 ∷ []) 1 2)
unfolding clamp
slice_str_lem_example =
    slice_str_lem calloc recalloc 9 (97 ∷ 98 ∷ 99 ∷ 0 ∷ []) 4 3 (negsuc 1) (pos 8) (0 ∷ 0 ∷ 0 ∷ [])
      (omega arith) (omega arith) (omega arith) refl refl
