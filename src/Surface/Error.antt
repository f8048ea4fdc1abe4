-- ===== src/Surface/Error.antt =====
-- solx-surface/src/error.rs: the shared error type. The texts of the messages are left out.
use solx_core.Prelude.{Result}

pub data SolxError : Type 0 where
  not_found invalid validation conflict io db exec config unauthorized other : SolxError

abbrev pub Fallible : Type 0 → Type 0
Fallible A = Result A SolxError
