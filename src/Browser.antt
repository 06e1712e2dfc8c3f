-- ===== src/Browser.antt =====
-- The browser of xiaobaios/apps/browser.
pub mod Url
