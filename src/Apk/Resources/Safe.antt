-- ===== src/Apk/Resources/Safe.antt =====
-- `resolve_resource_string` stays inside of the resource table, and ends unless it has a chunk of
-- size 0.
use muplar.Apk.Runs.{Runs}
