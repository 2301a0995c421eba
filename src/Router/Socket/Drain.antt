-- ===== src/Router/Socket/Drain.antt =====
-- src/router.rs: the forwarding task of a connection, which takes what is queued to the client.
use myx_im.Base.{List}
