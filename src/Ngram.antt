-- ===== src/Ngram.antt =====
-- sabah/runtime/ngram_prefetch.py: read-only access to the n-gram table, and the page hints that
-- keep its working set a few pages wide.
pub mod Runs
pub mod Table
