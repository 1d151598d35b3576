-- ===== src/Ui.antt =====
-- client/src/ui: the overlay.
pub mod Modal
