-- ===== src/FileDatabase/Stale.antt =====
-- core/file_database.cpp: the `unlink_all` functions write the contents back under the revision that
-- they have fetched, in the slot that holds it.
use deeplog.Errc.{Errc}
