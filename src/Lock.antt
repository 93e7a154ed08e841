-- ===== src/Lock.antt =====
-- inc/ek_conf_internal.h: the lock macros. With an RTOS they are the user's, so they are a
-- parameter: `EK_LOCK_TRY`, `EK_LOCK_RELEASE`, `EK_LOCK_INIT` and
-- `EK_LOCK_DEINIT` over a type of locks.
use ek_utils.Base.{◌≡◌, refl, Bool, true, false, not}

pub record LockOps (Lock : Type 0) : Type 0 where
  pub try : Lock → Bool × Lock
  pub release : Lock → Lock
  pub init : Lock → Lock
  pub deinit : Lock → Lock

-- A lock just made or given back can be taken, and a refused attempt changes nothing. It holds of
-- a FreeRTOS mutex, the example in the comment of the header, and of the empty macros.
pub record IsLock {Lock : Type 0} (ops : LockOps Lock) : Type 0 where
  pub init_frees : (l : Lock) → (ops.try (ops.init l)).0 ≡ true
  pub release_frees : (l : Lock) → (ops.try (ops.release l)).0 ≡ true
  pub refused_same : (l : Lock) → (ops.try l).0 ≡ false → (ops.try l).1 ≡ l

-- A lock that was taken cannot be taken again. It holds of a mutex, and not of the empty macros.
abbrev pub Excludes : {Lock : Type 0} → LockOps Lock → Type 0
Excludes {Lock} ops = (l : Lock) → (ops.try l).0 ≡ true → (ops.try (ops.try l).1).0 ≡ false

-- Without an RTOS: `EK_LOCK_TRY` is `(1)`, and the others do nothing.
abbrev pub bare : LockOps (Unit {0})
bare = record { try = λ l. (true, l); release = λ l. l; init = λ l. l; deinit = λ l. l }

pub bare-IsLock : IsLock bare
bare-IsLock = record {
  init_frees = λ l. refl;
  release_frees = λ l. refl;
  refused_same = λ l h. refl;
}

-- A mutex as a flag that says whether it is held.
abbrev pub mutex : LockOps Bool
mutex = record {
  try = λ held. (not held, true);
  release = λ held. false;
  init = λ held. false;
  deinit = λ held. held;
}

refused : (held : Bool) → not held ≡ false → true ≡ held
refused true h = refl
refused false h = cc

pub mutex-IsLock : IsLock mutex
mutex-IsLock = record { init_frees = λ l. refl; release_frees = λ l. refl; refused_same = refused }

pub mutex-Excludes : Excludes mutex
mutex-Excludes l h = refl
