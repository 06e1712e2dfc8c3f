-- ===== src/Editor.antt =====
-- The editor of xiaobaios/apps/vim_main.c.
pub mod State
pub mod Edits
pub mod Key
pub mod Keys
pub mod Files
pub mod Commands
pub mod Lists
pub mod Valid
