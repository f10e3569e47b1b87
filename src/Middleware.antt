-- ===== src/Middleware.antt =====
-- pkg/middleware: what stands before the handlers. `Gate` is what a middleware does with a
-- request: it aborts with a reply, or hands the request on with what it has put into the context.
pub mod Signature
pub mod Auth
pub mod Window
pub mod Replay
pub mod Admission
pub mod Numerals
use go_pay.Prelude.{⊤}
use go_pay.Response.{Reply}

pub data Gate (A : Type 0) : Type 0 where
  abort : Reply ⊤ → Gate A
  next : A → Gate A
