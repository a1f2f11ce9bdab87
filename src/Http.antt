-- ===== src/Http.antt =====
-- internal/transport/http: what the handlers of the lists share, and the event hub's clients.
pub mod Pagination
pub mod Spoilers
pub mod ResponseCache
