-- ===== src/Config.antt =====
-- The build options of src/Makefile and the kernel's error numbers that the code returns.
use lbz.Prelude.{Bool}

-- CONFIG_LBZ_NAT_SIT_SUPPORT, CONFIG_LBZ_NAT_SIT_FREE_SUPPORT, CONFIG_LBZ_NAT_SIT_STREAM_SUPPORT
pub record Config : Type 0 where
  pub nat_sit_support : Bool
  pub free_support : Bool
  pub stream_support : Bool

pub data Errno : Type 0 where
  eio eagain enoent eexist enomem einval eperm enxio efault : Errno
