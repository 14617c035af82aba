-- ===== src/Tests.antt =====
-- The theorems at concrete inputs: a small shop that the verifier passes, and the texts that the
-- generator and the scanner handle.
mod Sample
mod Desk
mod Verdicts
mod Names
mod Scans
mod Cursors
mod Permissions
mod Comparisons
mod Evaluations
mod Accounts
mod Errors
mod Pages
mod Rows
mod Shelf
mod Spellings
