-- ===== src/Uuid/Canonical.antt =====
-- Reading a text with `uuidToBytes` of sdk/ts/src/uuid.ts and printing it with `bytesToUuid`.
