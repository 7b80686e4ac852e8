-- ===== src/Usc.antt =====
-- src/usc: the client, which turns the words of its command line into requests.
pub mod Words
pub mod Parse
