-- ===== src/Lsm/Lookup.antt =====
-- A seek finds the newest version of its key in the snapshot.
