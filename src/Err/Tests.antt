-- ===== src/Err/Tests.antt =====
-- The theorem on the texts of errors at a concrete input.
use ek_utils.Base.{◌≡◌, refl}
use ek_utils.Err.{strerror}

unknown_text : strerror 199 ≡ "Unknown error"
unfolding strerror
unknown_text = refl
