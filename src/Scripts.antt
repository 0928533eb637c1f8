-- ===== src/Scripts.antt =====
-- scripts: the initializer of a project that was made from the template.
pub mod Init
