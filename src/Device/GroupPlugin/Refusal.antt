-- ===== src/Device/GroupPlugin/Refusal.antt =====
-- What a caller is told whose group does not get the device of group.js.
