-- ===== src/Json.antt =====
-- The JSON reader of the package manager, xiaobaios/apps/pkg_cjson_min.c.
pub mod Value
pub mod Result
pub mod Text
pub mod Number
pub mod Parse
pub mod Access
pub mod Print
pub mod RoundTrip
pub mod Bounds
