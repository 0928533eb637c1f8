-- ===== src/Scripts/Init.antt =====
-- scripts/init.py. The questions, the files of the repository, the placeholders and the package's
-- new name; what is printed on the way is left out, but for the questions.
pub mod Questions
pub mod Files
pub mod Placeholders
pub mod Imports
pub mod Tree
