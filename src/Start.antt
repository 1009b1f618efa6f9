-- ===== src/Start.antt =====
-- The program around the catalog and the notifications, in the directory's root: its configuration and
-- its announcement.
pub mod Packages
pub mod Config
pub mod Discovery
pub mod Router
pub mod Main
pub mod Pages
pub mod Serving
