-- ===== src/Err/Distinct.antt =====
-- inc/ek_err.h: the codes and the texts tell the errors apart.
use Prim.Native.Nat.{ℕ}
use Prim.Native.String.{String}
use text.Mathlib.Text.{◌==◌ as str_eq}
use ek_utils.Base.{◌≡◌, refl, sym, ap, ◌∙◌, ◌==◌, if◌then◌else◌}
use ek_utils.Err.{
  Err, ok, failed, timeout, busy, nomem, inval, notsup, notfound, full, empty, perm, notinit,
  inited, notready, disabled, aborted, overflow, underflow, outofrange, nodata, parse, checksum,
  nodev, io, fault, nxio, proto, link, reset, comm, nak, notack, framing, parity, noise, code,
  strerror,
}

-- The error whose code this is, as a table; `failed` for any other number.
of_code : ℕ → Err
of_code n =
    if n == 0
    then ok
    else if n == 200
    then failed
    else if n == 201
    then timeout
    else if n == 202
    then busy
    else if n == 203
    then nomem
    else if n == 204
    then inval
    else if n == 205
    then notsup
    else if n == 206
    then notfound
    else if n == 207
    then full
    else if n == 208
    then empty
    else if n == 209
    then perm
    else if n == 210
    then notinit
    else if n == 211
    then inited
    else if n == 212
    then notready
    else if n == 213
    then disabled
    else if n == 214
    then aborted
    else if n == 220
    then overflow
    else if n == 221
    then underflow
    else if n == 222
    then outofrange
    else if n == 223
    then nodata
    else if n == 224
    then parse
    else if n == 225
    then checksum
    else if n == 230
    then nodev
    else if n == 231
    then io
    else if n == 232
    then fault
    else if n == 233
    then nxio
    else if n == 234
    then proto
    else if n == 235
    then link
    else if n == 236
    then reset
    else if n == 240
    then comm
    else if n == 241
    then nak
    else if n == 242
    then notack
    else if n == 243
    then framing
    else if n == 244
    then parity
    else if n == 245
    then noise
    else failed

of_code-code : (e : Err) → of_code (code e) ≡ e
unfolding of_code code
of_code-code ok = refl
of_code-code failed = refl
of_code-code timeout = refl
of_code-code busy = refl
of_code-code nomem = refl
of_code-code inval = refl
of_code-code notsup = refl
of_code-code notfound = refl
of_code-code full = refl
of_code-code empty = refl
of_code-code perm = refl
of_code-code notinit = refl
of_code-code inited = refl
of_code-code notready = refl
of_code-code disabled = refl
of_code-code aborted = refl
of_code-code overflow = refl
of_code-code underflow = refl
of_code-code outofrange = refl
of_code-code nodata = refl
of_code-code parse = refl
of_code-code checksum = refl
of_code-code nodev = refl
of_code-code io = refl
of_code-code fault = refl
of_code-code nxio = refl
of_code-code proto = refl
of_code-code link = refl
of_code-code reset = refl
of_code-code comm = refl
of_code-code nak = refl
of_code-code notack = refl
of_code-code framing = refl
of_code-code parity = refl
of_code-code noise = refl

-- The error whose text this is, as a table; `failed` for any other text.
of_text : String → Err
of_text s =
    if str_eq s "OK"
    then ok
    else if str_eq s "Failed"
    then failed
    else if str_eq s "Timeout"
    then timeout
    else if str_eq s "Busy"
    then busy
    else if str_eq s "No memory"
    then nomem
    else if str_eq s "Invalid argument"
    then inval
    else if str_eq s "Not supported"
    then notsup
    else if str_eq s "Not found"
    then notfound
    else if str_eq s "Full"
    then full
    else if str_eq s "Empty"
    then empty
    else if str_eq s "Permission denied"
    then perm
    else if str_eq s "Not initialized"
    then notinit
    else if str_eq s "Already initialized"
    then inited
    else if str_eq s "Not ready"
    then notready
    else if str_eq s "Disabled"
    then disabled
    else if str_eq s "Aborted"
    then aborted
    else if str_eq s "Overflow"
    then overflow
    else if str_eq s "Underflow"
    then underflow
    else if str_eq s "Out of range"
    then outofrange
    else if str_eq s "No data"
    then nodata
    else if str_eq s "Parse error"
    then parse
    else if str_eq s "Checksum error"
    then checksum
    else if str_eq s "No such device"
    then nodev
    else if str_eq s "I/O error"
    then io
    else if str_eq s "Hardware fault"
    then fault
    else if str_eq s "Device not configured"
    then nxio
    else if str_eq s "Protocol error"
    then proto
    else if str_eq s "Link error"
    then link
    else if str_eq s "Device reset"
    then reset
    else if str_eq s "Communication error"
    then comm
    else if str_eq s "NAK received"
    then nak
    else if str_eq s "No acknowledgment"
    then notack
    else if str_eq s "Framing error"
    then framing
    else if str_eq s "Parity error"
    then parity
    else if str_eq s "Line noise"
    then noise
    else failed

of_text-strerror : (e : Err) → of_text (strerror (code e)) ≡ e
unfolding of_text code strerror
of_text-strerror ok = refl
of_text-strerror failed = refl
of_text-strerror timeout = refl
of_text-strerror busy = refl
of_text-strerror nomem = refl
of_text-strerror inval = refl
of_text-strerror notsup = refl
of_text-strerror notfound = refl
of_text-strerror full = refl
of_text-strerror empty = refl
of_text-strerror perm = refl
of_text-strerror notinit = refl
of_text-strerror inited = refl
of_text-strerror notready = refl
of_text-strerror disabled = refl
of_text-strerror aborted = refl
of_text-strerror overflow = refl
of_text-strerror underflow = refl
of_text-strerror outofrange = refl
of_text-strerror nodata = refl
of_text-strerror parse = refl
of_text-strerror checksum = refl
of_text-strerror nodev = refl
of_text-strerror io = refl
of_text-strerror fault = refl
of_text-strerror nxio = refl
of_text-strerror proto = refl
of_text-strerror link = refl
of_text-strerror reset = refl
of_text-strerror comm = refl
of_text-strerror nak = refl
of_text-strerror notack = refl
of_text-strerror framing = refl
of_text-strerror parity = refl
of_text-strerror noise = refl

-- Two errors with one code are the same error.
pub code-injective : (a b : Err) → code a ≡ code b → a ≡ b
code-injective a b h = sym (of_code-code a) ∙ ap of_code h ∙ of_code-code b

-- `ek_strerror` gives two errors one text only if they are the same error.
pub strerror-injective : (a b : Err) → strerror (code a) ≡ strerror (code b) → a ≡ b
strerror-injective a b h = sym (of_text-strerror a) ∙ ap of_text h ∙ of_text-strerror b
