-- ===== src/Runtime.antt =====
-- The runtime that the shell's commands share, xiaobaios/apps/cmd_runtime.c.
pub mod Resolve
pub mod Words
pub mod Access
