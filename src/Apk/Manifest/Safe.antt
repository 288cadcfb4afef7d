-- ===== src/Apk/Manifest/Safe.antt =====
-- What is read of a manifest, a text or a binary one, is read inside of it.
use muplar.Apk.Runs.{Runs}
