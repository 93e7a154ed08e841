-- ===== src/Err.antt =====
-- inc/ek_err.h: the error codes of the library and their texts.
pub mod Distinct
mod Tests
use Prim.Native.Nat.{ℕ}
use Prim.Native.String.{String}
use ek_utils.Base.{Bool, true, false, ◌==◌, if◌then◌else◌}

-- The codes that the library returns. `ek_err_t` is an `int`; `code` gives its value.
pub data Err : Type 0 where
  ok failed timeout busy nomem inval notsup notfound full empty perm notinit inited notready : Err
  disabled aborted overflow underflow outofrange nodata parse checksum nodev io fault nxio proto :
      Err
  link reset comm nak notack framing parity noise : Err

unfoldable pub code : Err → ℕ
code ok = 0
code failed = 200
code timeout = 201
code busy = 202
code nomem = 203
code inval = 204
code notsup = 205
code notfound = 206
code full = 207
code empty = 208
code perm = 209
code notinit = 210
code inited = 211
code notready = 212
code disabled = 213
code aborted = 214
code overflow = 220
code underflow = 221
code outofrange = 222
code nodata = 223
code parse = 224
code checksum = 225
code nodev = 230
code io = 231
code fault = 232
code nxio = 233
code proto = 234
code link = 235
code reset = 236
code comm = 240
code nak = 241
code notack = 242
code framing = 243
code parity = 244
code noise = 245

-- The test `err == EK_OK` by which callers branch.
abbrev pub is_ok : Err → Bool
is_ok ok = true
is_ok _ = false

-- The `switch` of `ek_strerror`, over any value of the `int`.
unfoldable pub strerror : ℕ → String
strerror n =
    if n == 0
    then "OK"
    else if n == 200
    then "Failed"
    else if n == 201
    then "Timeout"
    else if n == 202
    then "Busy"
    else if n == 203
    then "No memory"
    else if n == 204
    then "Invalid argument"
    else if n == 205
    then "Not supported"
    else if n == 206
    then "Not found"
    else if n == 207
    then "Full"
    else if n == 208
    then "Empty"
    else if n == 209
    then "Permission denied"
    else if n == 210
    then "Not initialized"
    else if n == 211
    then "Already initialized"
    else if n == 212
    then "Not ready"
    else if n == 213
    then "Disabled"
    else if n == 214
    then "Aborted"
    else if n == 220
    then "Overflow"
    else if n == 221
    then "Underflow"
    else if n == 222
    then "Out of range"
    else if n == 223
    then "No data"
    else if n == 224
    then "Parse error"
    else if n == 225
    then "Checksum error"
    else if n == 230
    then "No such device"
    else if n == 231
    then "I/O error"
    else if n == 232
    then "Hardware fault"
    else if n == 233
    then "Device not configured"
    else if n == 234
    then "Protocol error"
    else if n == 235
    then "Link error"
    else if n == 236
    then "Device reset"
    else if n == 240
    then "Communication error"
    else if n == 241
    then "NAK received"
    else if n == 242
    then "No acknowledgment"
    else if n == 243
    then "Framing error"
    else if n == 244
    then "Parity error"
    else if n == 245
    then "Line noise"
    else "Unknown error"
