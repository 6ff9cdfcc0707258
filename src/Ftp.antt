-- ===== src/Ftp.antt =====
-- The FTP client of src/FTPClient.cpp.
pub mod Net
pub mod Lines
pub mod Control
pub mod Puts
pub mod Written
pub mod Cuts
pub mod Reading
pub mod Answers
pub mod Texts
