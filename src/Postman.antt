-- ===== src/Postman.antt =====
-- Postman collections (backend/app/services): the resolution of a collection's variables.
pub mod Resolver
