-- ===== src/Sql.antt =====
-- core/db/sql_policy.py. A text is the list of the codes of its characters, which are ASCII.
pub mod Chars
pub mod Regex
pub mod Policy
