-- ===== src/Router/Server/Integrity.antt =====
-- The empty tables that the server starts with.
use myx_im.Dao.Integrity.{IsIntact}
use myx_im.Router.Server.{started}

pub started-IsIntact : IsIntact started.pool.db
started-IsIntact = record {
  user_rows = (tt, tt);
  chat_rows = (tt, tt, tt);
  cursor_rows = tt;
  group_rows = (tt, tt, tt);
  member_rows = (tt, tt);
  message_rows = (tt, tt, tt, tt);
  read_rows = (tt, tt);
  friend_rows = (tt, tt);
}
