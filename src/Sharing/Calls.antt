-- ===== src/Sharing/Calls.antt =====
-- What a step of the service has the core do.
use dolssh.Sharing.Service.{Service}
