-- ===== src/Filename/Destination/Inside.antt =====
-- crates/swiftload-core/src/util/filename.rs: a destination is always one new component of the
-- directory.
