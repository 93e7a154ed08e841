-- ===== src/Log/Tests.antt =====
-- Runs of the log.
use ek_utils.Base.{ℕ, zero, suc, ◌≡◌, refl, false, [], ◌∷◌, ◌++◌, Bytes, blit, take, length, slice}
use ek_utils.Log.{level_info, level_warn, level_debug, Log, log_printf, log_at}
use ek_utils.Log.Laws.{IsVsnprintf, line_of, c_string, log_printf_lem}

-- Cuts the message to the size, with a NUL.
abbrev cut : Bytes → ℕ → Bytes → Bytes
cut b zero message = b
cut b (suc n) message = blit b 0 (take n message ++ (0 ∷ []))

cut-IsVsnprintf : IsVsnprintf cut
cut-IsVsnprintf b n message = refl

abbrev silent : Log
silent = record { bytes = 0 ∷ 0 ∷ 0 ∷ 0 ∷ 0 ∷ []; printed = [] }

-- A buffer of five bytes keeps three of a message of four.
log_printf_lem_example :
    (l' : Log) × (log_printf false 5 "\r\n" cut "main" 7 level_info 100
        (65 ∷ 66 ∷ 67 ∷ 68 ∷ [])
        silent
      ≡ l')
    × (l'.printed ≡ [] ++ line_of false "\r\n" "main" 7 level_info 100 l'.bytes)
    × (c_string l'.bytes ≡ 65 ∷ 66 ∷ 67 ∷ [])
    × (length l'.bytes ≡ 5)
    × (slice l'.bytes 4 1 ≡ slice silent.bytes 4 1)
log_printf_lem_example =
    log_printf_lem false 3 "\r\n" cut "main" 7 level_info 100 (65 ∷ 66 ∷ 67 ∷ 68 ∷ []) silent
      cut-IsVsnprintf refl refl

debug_in_warn_file :
    log_at false 5 "" cut level_warn "main" 7 level_debug 0 (65 ∷ []) silent ≡ silent
unfolding log_at
debug_in_warn_file = refl
