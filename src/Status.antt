-- ===== src/Status.antt =====
-- src/xps.h: the error constants that the functions return.
pub data Code : Type 0 where
  ok e_fail e_again e_next e_notfound e_permission e_eof : Code
