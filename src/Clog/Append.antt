-- ===== src/Clog/Append.antt =====
-- The entries of the buffer behind `append` (storage/clog/log_buffer.cpp).
use miniob4cqu_db_exp.Clog.Entry
use miniob4cqu_db_exp.Clog.Entry.{entry_bytes}
