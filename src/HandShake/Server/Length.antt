-- ===== src/HandShake/Server/Length.antt =====
-- The length that the server's answer declares, upgrades included.
use wlgows.Base.Bytes.{Bytes}
