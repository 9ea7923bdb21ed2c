-- ===== src/Server.antt =====
-- The parts of the server that the scripts of the page talk to.
pub mod Csrf
