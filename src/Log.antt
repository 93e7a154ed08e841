-- ===== src/Log.antt =====
-- src/ek_log.c and inc/ek_log.h: the log. A call of `ek_printf` is kept as its format and arguments;
-- what a format and its arguments become in `ek_vsnprintf`, the message, is a parameter.
pub mod Laws
mod Tests
use Prim.Native.String.{String}
use ek_utils.Base.{ℕ, ◌-◌, Bool, List, [], ◌∷◌, ◌++◌, leb, if◌then◌else◌, Bytes}

-- `ek_log_level_t`
pub data Level : Type 0 where
  level_none level_debug level_info level_warn level_error level_fatal : Level

abbrev pub level_number : Level → ℕ
level_number level_none = 0
level_number level_debug = 1
level_number level_info = 2
level_number level_warn = 3
level_number level_error = 4
level_number level_fatal = 5

-- `s_log_type_table`
abbrev pub type_name : Level → String
type_name level_none = "None"
type_name level_debug = "Debug"
type_name level_info = "Info"
type_name level_warn = "Warn"
type_name level_error = "Error"
type_name level_fatal = "Fatal"

-- `s_log_color_table`
abbrev pub color : Level → String
color level_none = "\u{1b}[0;0m"
color level_debug = "\u{1b}[92m"
color level_info = "\u{1b}[94m"
color level_warn = "\u{1b}[33m"
color level_error = "\u{1b}[91m"
color level_fatal = "\u{1b}[30;41m"

-- An argument of `ek_printf`: a text, a number, or the bytes of a buffer.
pub data Argument : Type 0 where
  text : String → Argument
  number : ℕ → Argument
  buffer : Bytes → Argument

-- `s_log_buffer`, and the calls of `ek_printf` so far.
pub record Log : Type 0 where
  pub bytes : Bytes
  pub printed : List (String × List Argument)

abbrev pub print : String → List Argument → Log → Log
print format args l = record l { printed = l.printed ++ ((format, args) ∷ []) }

-- A statement of a program that came to its end, or that goes round for ever.
pub data Ending : Type 0 where
  returned hangs : Log → Ending

-- `colored` is `EKCFG_LOG_COLOR == 1`, `size` is `EKCFG_LOG_BUF_SIZE`, `crlf` the line end of the
-- platform. `vsnprintf` writes a message into a buffer, of which it may use so many bytes.
module _ (colored : Bool) (size : ℕ) (crlf : String) (vsnprintf : Bytes → ℕ → Bytes → Bytes) where
  -- The two ways to print what stands before the message.
  -- The head of a line. `PRIu32` is `u`, as where `uint32_t` is `unsigned int`.
  abbrev pub print_head : String → ℕ → Level → ℕ → Log → Log
  print_head tag line type tick l =
      if colored
      then print "%s[%s/%s L:%u,T:%u]:"
          (text (color type) ∷ text (type_name type) ∷ text tag ∷ number line ∷ number tick ∷ []) l
      else print "[%s/%s L:%u,T:%u]:"
          (text (type_name type) ∷ text tag ∷ number line ∷ number tick ∷ []) l

  unfoldable pub log_printf : String → ℕ → Level → ℕ → Bytes → Log → Log
  log_printf tag line type tick message l =
      let l = print_head tag line type tick l in
      let l = record l { bytes = vsnprintf l.bytes (size - 1) message } in
      let l = print "%s" (buffer l.bytes ∷ []) l in
      let l = if colored then print (color level_none) [] l else l in print crlf [] l

  -- `EK_LOG`, `EK_LOG_DEBUG`, `EK_LOG_INFO`, `EK_LOG_WARN` and `EK_LOG_ERROR` in a file of the level
  -- `min`.
  unfoldable pub log_at : Level → String → ℕ → Level → ℕ → Bytes → Log → Log
  log_at min tag line type tick message l =
      if leb (level_number min) (level_number type)
      then log_printf tag line type tick message l
      else l

  -- `EK_LOG_FATAL`
  unfoldable pub log_fatal : Level → String → ℕ → ℕ → Bytes → Log → Ending
  log_fatal min tag line tick message l =
      if leb (level_number min) (level_number level_fatal)
      then hangs (log_printf tag line level_fatal tick message l)
      else returned l
