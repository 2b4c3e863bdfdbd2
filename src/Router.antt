-- ===== src/Router.antt =====
-- The router: tree.go, and the parts of gpp.go, router.go and context.go that register handlers,
-- choose them for a request and run them.
pub mod Tree
pub mod Engine
pub mod Chain
