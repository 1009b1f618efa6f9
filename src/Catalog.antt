-- ===== src/Catalog.antt =====
-- The package catalog: Thing Descriptions, their storage, the controller and the HTTP handlers.
pub mod Storage
pub mod Registration
pub mod Events
pub mod Controller
pub mod Expiry
pub mod Stored
pub mod Filter
pub mod Responses
pub mod Http
