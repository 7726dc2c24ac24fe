-- ===== src/Egress/Monad.antt =====
-- The calls of the egress tool, which raise `ToolError`.
use grok_build_auth.Egress.Base.{ToolError}
use grok_build_auth.Effect.{Effect}
pub use grok_build_auth.Effect.{continue, ◌>>>=◌, pure, raise, lift, handled, try_except, attempt}

abbrev pub Tool : Type 0 → Type 0 → Type 0
Tool W A = Effect ToolError W A
