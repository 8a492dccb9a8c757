-- ===== src/Errno/Tests.antt =====
-- The texts of JNI/Common/errno.c at concrete numbers.
use piwxrx.Prelude.{◌≡◌, refl, some}
use piwxrx.Errno.{geterrno}

refused : geterrno 111 ≡ some "Connection refused"
unfolding geterrno
refused = refl
