-- ===== src/User.antt =====
-- The accounts of xiaobaios/apps/user/cleonos_user.c.
pub mod Compress
pub mod Sha
pub mod Records
pub mod Kernel
pub mod Database
pub mod Accounts
