-- ===== src/Ingestion.antt =====
-- The ingestion of files: src/sample/ingestion/preprocessor.py, the extractors beside it and
-- services/preprocessor/worker.py.
pub mod Extractors
pub mod Preprocessor
pub mod Worker
