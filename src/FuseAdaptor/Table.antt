-- ===== src/FuseAdaptor/Table.antt =====
-- fuse_adaptor/operations.h: the operations that the adaptor hands to libfuse.
use dogbox.Base.{ℕ, Option, List, Bytes}
use dogbox.Base.Int.{ℤ}
use dogbox.Base.Action.{Action}
use dogbox.BlobStorage.Interface.{BlobStore}
use dogbox.FuseAdaptor.Attributes.{Stat, UserState, adaptor_getattr, adaptor_readdir}
use dogbox.FuseAdaptor.Files.{adaptor_open, adaptor_release, adaptor_read}

-- The members of `fuse_operations` that are set. The others are null.
pub record FuseOperations (B : BlobStore) : Type 0 where
  pub getattr : Bytes → Action (UserState B) (ℤ × Option Stat)
  pub readdir : Bytes → Action (UserState B) (ℤ × List (Bytes × Stat))
  pub open_file : Bytes → Action (UserState B) (ℤ × Option ℕ)
  pub release : ℕ → Action (UserState B) ℤ
  pub read : ℕ → ℤ → ℕ → Action (UserState B) (ℤ × Bytes)

abbrev pub make_operations : (B : BlobStore) → FuseOperations B
make_operations B = record {
  getattr = adaptor_getattr B;
  readdir = adaptor_readdir B;
  open_file = adaptor_open B;
  release = adaptor_release B;
  read = adaptor_read B;
}
