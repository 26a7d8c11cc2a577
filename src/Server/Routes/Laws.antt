-- ===== src/Server/Routes/Laws.antt =====
-- What the HTTP interface promises: the states that requests reach, and who is let through.
pub mod Reached
pub mod Access
pub mod Manage
pub mod Admitted
