-- ===== src/Log/Laws.antt =====
-- src/ek_log.c: what a call of the log prints.
use Prim.Native.String.{String}
use ek_utils.Base.{
  ℕ, zero, suc, ◌+◌, ◌-◌, ◌≤◌, ◌<◌, ◌≡◌, refl, ap, ◌∙◌, arith, Bool, Bool-cases, inl, inr, false,
  slice, slice-blit_after, length-take, length-append, length-blit, List, [], ◌∷◌, ◌++◌, ◌==◌, ◌∉◌,
  if◌then◌else◌, Bytes, blit, length, take,
}
use ek_utils.Log.{
  Level, level_none, level_debug, level_info, level_warn, level_error, level_fatal, color, Log,
  Argument, text, number, type_name, buffer, log_printf, log_fatal, hangs,
}

-- The text of a buffer: the bytes before the first NUL.
abbrev pub c_string : Bytes → Bytes
c_string [] = []
c_string (x ∷ xs) = if x == 0 then [] else x ∷ c_string xs

-- What C promises of `vsnprintf`: of a message, as many bytes as the size leaves beside a NUL.
abbrev pub IsVsnprintf : (Bytes → ℕ → Bytes → Bytes) → Type 0
IsVsnprintf vsnprintf =
    (b : Bytes) (n : ℕ) (message : Bytes)
    → vsnprintf b (suc n) message ≡ blit b 0 (take n message ++ (0 ∷ []))

c_string-blit :
    (b t : Bytes) → 0 ∉ t → length t < length b → c_string (blit b 0 (t ++ (0 ∷ []))) ≡ t
unfolding blit
c_string-blit [] t n lt = absurd (omega arith)
c_string-blit (x ∷ xs) [] n lt = refl
c_string-blit (x ∷ xs) (y ∷ t) n lt =
    let ne : (y == 0) ≡ false = ground (arith, n) in
    rw ne (ap (◌∷◌ y) (c_string-blit xs t (ground (arith, n)) (omega arith)))

has-take : (n : ℕ) (xs : Bytes) → 0 ∉ xs → 0 ∉ take n xs
has-take zero xs h = refl
has-take (suc n) [] h = refl
has-take (suc n) (x ∷ xs) h =
    let rest : 0 ∉ xs = ground (arith, h) in ground (arith, has-take n xs rest, h)

snoc_three {ℓ} :
    {A : Type ℓ} (xs : List A) (a b c : A)
    → xs ++ (a ∷ []) ++ (b ∷ []) ++ (c ∷ []) ≡ xs ++ (a ∷ b ∷ c ∷ [])
snoc_three [] a b c = refl
snoc_three (x ∷ xs) a b c = ap (◌∷◌ x) (snoc_three xs a b c)

snoc_four {ℓ} :
    {A : Type ℓ} (xs : List A) (a b c d : A)
    → xs ++ (a ∷ []) ++ (b ∷ []) ++ (c ∷ []) ++ (d ∷ []) ≡ xs ++ (a ∷ b ∷ c ∷ d ∷ [])
snoc_four [] a b c d = refl
snoc_four (x ∷ xs) a b c d = ap (◌∷◌ x) (snoc_four xs a b c d)

-- The calls of `ek_printf` that a message takes.
abbrev pub line_of : Bool → String → String → ℕ → Level → ℕ → Bytes → List (String × List Argument)
line_of colored crlf tag line type tick b =
    let plain = text (type_name type) ∷ text tag ∷ number line ∷ number tick ∷ [] in
    if colored
    then (("%s[%s/%s L:%u,T:%u]:", text (color type) ∷ plain)
        ∷ ("%s", buffer b ∷ [])
        ∷ (color level_none, [])
        ∷ (crlf, [])
        ∷ [])
    else (("[%s/%s L:%u,T:%u]:", plain) ∷ ("%s", buffer b ∷ []) ∷ (crlf, []) ∷ [])

module _ (colored : Bool) (n : ℕ) (crlf : String) (vsnprintf : Bytes → ℕ → Bytes → Bytes) where
  after_printf :
      (tag : String) (line : ℕ) (type : Level) (tick : ℕ) (message : Bytes) (l : Log)
      → IsVsnprintf vsnprintf
      → (log_printf colored (n + 2) crlf vsnprintf tag line type tick message l).bytes
        ≡ blit l.bytes 0 (take n message ++ (0 ∷ []))
  unfolding log_printf
  after_printf tag line type tick message l v =
      let size : n + 2 - 1 ≡ suc n = omega arith in
      elim (Bool-cases colored) [
        | inl e ↦ rw (e, size) (v l.bytes n message)
        | inr e ↦ rw (e, size) (v l.bytes n message)
      ]

  printed_by :
      (tag : String) (line : ℕ) (type : Level) (tick : ℕ) (message : Bytes) (l : Log)
      → (let l' = log_printf colored (n + 2) crlf vsnprintf tag line type tick message l in
          l'.printed ≡ l.printed ++ line_of colored crlf tag line type tick l'.bytes)
  unfolding log_printf
  printed_by tag line type tick message l = elim (Bool-cases colored) [
    | inl e ↦ rw e (snoc_four l.printed _ _ _ _)
    | inr e ↦ rw e (snoc_three l.printed _ _ _)
  ]

  -- With a `vsnprintf` that does what C promises, a buffer of `n + 2` bytes, and a message without
  -- a NUL, `ek_log_printf` prints the head, the first `n` bytes of the message, and the end of the
  -- line, with the colour around them where colours are on, and leaves the last byte of the buffer
  -- as it was.
  pub log_printf_lem :
      (tag : String) (line : ℕ) (type : Level) (tick : ℕ) (message : Bytes) (l : Log)
      → IsVsnprintf vsnprintf
      → length l.bytes ≡ n + 2
      → 0 ∉ message
      → (l' : Log) × (log_printf colored (n + 2) crlf vsnprintf tag line type tick message l ≡ l')
        × (l'.printed ≡ l.printed ++ line_of colored crlf tag line type tick l'.bytes)
        × (c_string l'.bytes ≡ take n message)
        × (length l'.bytes ≡ n + 2)
        × (slice l'.bytes (n + 1) 1 ≡ slice l.bytes (n + 1) 1)
  log_printf_lem tag line type tick message l v len h =
      let e = after_printf tag line type tick message l v in
      let t = take n message in
      let short : length t ≤ n = omega (arith, length-take n message) in
      let with_nul : length (t ++ (0 ∷ [])) ≤ n + 1 =
        omega (arith, length-append t (0 ∷ []), short) in
      (
        _,
        refl,
        printed_by tag line type tick message l,
        ap c_string e ∙ c_string-blit l.bytes t (has-take n message h) (omega (arith, short, len)),
        ap length e ∙ length-blit l.bytes 0 (t ++ (0 ∷ [])) ∙ len,
        ap (λ b. slice b (n + 1) 1) e
            ∙ slice-blit_after l.bytes 0 (n + 1) 1 (t ++ (0 ∷ [])) (omega (arith, with_nul)),
      )

-- Whatever the level of its file, `EK_LOG_FATAL` prints its message and does not return.
pub log_fatal_lem :
    (colored : Bool) (size : ℕ) (crlf : String) (vsnprintf : Bytes → ℕ → Bytes → Bytes)
    (min : Level) (tag : String) (line tick : ℕ) (message : Bytes) (l : Log)
    → log_fatal colored size crlf vsnprintf min tag line tick message l
      ≡ hangs (log_printf colored size crlf vsnprintf tag line level_fatal tick message l)
unfolding log_fatal
log_fatal_lem c s e v level_none tag line tick message l = refl
log_fatal_lem c s e v level_debug tag line tick message l = refl
log_fatal_lem c s e v level_info tag line tick message l = refl
log_fatal_lem c s e v level_warn tag line tick message l = refl
log_fatal_lem c s e v level_error tag line tick message l = refl
log_fatal_lem c s e v level_fatal tag line tick message l = refl
