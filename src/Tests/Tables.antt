-- ===== src/Tests/Tables.antt =====
-- The tables of the small database meet the keys and references of init.sql.
use myx_im.Base.{refl, arith}
use myx_im.Dao.Integrity.{IsIntact}
use myx_im.Tests.{db}

pub db-IsIntact : IsIntact db
db-IsIntact = record {
  user_rows = ((refl, (refl, (refl, (refl, tt)))), (refl, (refl, (refl, (refl, tt)))));
  chat_rows = ((omega arith, tt), (refl, tt), (refl, tt));
  cursor_rows = tt;
  group_rows = ((refl, tt), (refl, tt), (refl, tt));
  member_rows = ((refl, (refl, (refl, tt))), ((refl, refl), ((refl, refl), ((refl, refl), tt))));
  message_rows = (
    (omega arith, (omega arith, tt)),
    (refl, (refl, tt)),
    (refl, (refl, tt)),
    ((refl, refl), ((refl, refl), tt)),
  );
  read_rows = ((refl, tt), ((refl, refl), tt));
  friend_rows = (tt, tt);
}
