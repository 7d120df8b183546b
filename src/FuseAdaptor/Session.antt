-- ===== src/FuseAdaptor/Session.antt =====
-- fuse_adaptor/adaptor.h, adaptor.cpp and unmount.cpp: mounting, and the order in which the handles of
-- libfuse are given back.
pub mod Closing
use dogbox.Base.{
  ℕ, ◌≡◌, refl, Bool, true, false, Option, none, some, List, [], ◌∷◌, ◌++◌, ◌==◌, ◌||◌,
}
use dogbox.Base.{if◌then◌else◌, Bytes, bytes_eq, codes, Result, ok, throw, to_do, filesystem_error}
use dogbox.Base.Action.{Action, pure, raise, guard, ◌>>=◌, ◌>>◌}
use dogbox.HashCode.{Sha256HashCode}
use dogbox.Trees.ReadCaching.{ReadCaching}
use dogbox.FuseAdaptor.Attributes.{UserData}
use dogbox.FuseAdaptor.Mounted.{mounted}
use dogbox.Ownership.Channel.{Channel, channel_of, destructor}

-- What the calls return: the exit code of `fusermount -zu` and the first line of its output, whether
-- `create_directories` succeeds, and the handles of libfuse, where they are not null.
pub record System : Type 0 where
  pub fusermount : Bytes → ℕ × Bytes
  pub creates : Bytes → Bool
  pub fuse_mount : Bytes → Option ℕ
  pub fuse_new : Option ℕ → Option ℕ

-- The calls of libfuse that gave or took a handle, the last one first.
pub data Call : Type 0 where
  mount : Bytes → ℕ → Call
  new : Option ℕ → ℕ → Call
  unmount : Bytes → ℕ → Call
  destroy : ℕ → Call

pub record Adaptor : Type 0 where
  pub user_data : UserData
  pub fuse_handle : Option ℕ
  pub channel : Channel

abbrev pub not_mounted : Bytes → Bytes
not_mounted mount_point =
    codes "/bin/fusermount: entry for " ++ mount_point ++ codes " not found in /etc/mtab"

-- `delete` of the members that hold a handle: ~channel(), and the deleter of `fuse_handle`.
abbrev close_channel : Option (ℕ × Bytes) → List Call → List Call
close_channel none calls = calls
close_channel (some (handle, mount_point)) calls = unmount mount_point handle ∷ calls

abbrev close_fuse : Option ℕ → List Call → List Call
close_fuse none calls = calls
close_fuse (some handle) calls = destroy handle ∷ calls

-- Members are destroyed in the opposite of the order in which they are declared.
unfoldable pub destroy_adaptor : Adaptor → List Call → List Call
destroy_adaptor self calls =
    close_fuse self.fuse_handle (close_channel (destructor self.channel) calls)

-- The lambda that initializes the channel, behind the call of fuse_mount.
abbrev pub mount_at : Bytes → Option ℕ → Action (List Call) Channel
mount_at mount_point none calls = (throw to_do, calls)
mount_at mount_point (some handle) calls =
    (ok (channel_of handle mount_point), mount mount_point handle ∷ calls)

-- The body of the constructor, behind the call of fuse_new. An exception leaves it through the destructors of the members.
abbrev pub start : UserData → Channel → Option ℕ → Action (List Call) Adaptor
start user_data channel none calls = (
  throw to_do,
  destroy_adaptor (record { user_data = user_data; fuse_handle = none; channel = channel }) calls,
)
start user_data channel (some fuse) calls = (
  ok (record { user_data = user_data; fuse_handle = some fuse; channel = channel }),
  new channel.handle fuse ∷ calls,
)

module _ (S : System) where
  unfoldable pub unmount_all : Bytes → Action (List Call) Unit
  unmount_all mount_point =
      let (exit_code, output) = S.fusermount mount_point in
      guard (exit_code == 0 || bytes_eq output (not_mounted mount_point)) to_do

  unfoldable pub mount_channel : Bytes → Action (List Call) Channel
  unfolding unmount_all
  mount_channel mount_point = do
    unmount_all mount_point
    guard (S.creates mount_point) filesystem_error
    mount_at mount_point (S.fuse_mount mount_point)

  unfoldable pub adaptor : Bytes → Sha256HashCode → ReadCaching → Action (List Call) Adaptor
  unfolding mount_channel destroy_adaptor
  adaptor mount_point root read_cache_mode = do
    channel ← mount_channel mount_point
    start (mounted root read_cache_mode) channel (S.fuse_new channel.handle)
