-- ===== src/Smb1/Trans2/Budget.antt =====
-- The reply budget against the server's buffer.
