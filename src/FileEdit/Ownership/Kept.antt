-- ===== src/FileEdit/Ownership/Kept.antt =====
-- The line edits behind the blocks leave the lines of the blocks alone.
