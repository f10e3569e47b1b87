-- ===== src/NotifyService.antt =====
-- internal/service/notify_service.go: its modules. `Post` sends one notification, `Retry` is the
-- loop around it, and `Pool` starts goroutines and runs them.
pub mod Post
pub mod Retry
pub mod Pool
pub mod Rounds
pub mod Tokens
