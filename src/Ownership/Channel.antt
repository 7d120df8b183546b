-- ===== src/Ownership/Channel.antt =====
-- The owner of a mount: channel of fuse_adaptor/channel.h.
use dogbox.Base.{ℕ, ◌+◌, ◌≡◌, refl, Bool, ◌&&◌, ◌==◌, Option, none, some, [], Bytes, bytes_eq}
use dogbox.Ownership.{Owner, Pool, Reachable, Reachable-owned, owned, count}

-- The handle is a pointer to a channel of libfuse, or null.
pub record Channel : Type 0 where
  pub handle : Option ℕ
  pub mount_point : Bytes

-- channel(fuse_chan &handle_, std::filesystem::path mount_point_)
abbrev pub channel_of : ℕ → Bytes → Channel
channel_of handle mount_point = record { handle = some handle; mount_point = mount_point }

-- channel(), which leaves `handle` as it is in memory: null, or anything else.
abbrev pub default_channel : Option ℕ → Channel
default_channel in_memory = record { handle = in_memory; mount_point = [] }

pub data Construction : Type 0 where
  default : Option ℕ → Construction
  mounted : ℕ → Bytes → Construction

abbrev pub construct : Construction → Channel
construct (default in_memory) = default_channel in_memory
construct (mounted handle mount_point) = channel_of handle mount_point

-- What a channel takes for its mount: what it was handed, or what was in memory.
abbrev handed : Construction → Option (ℕ × Bytes)
handed (default none) = none
handed (default (some garbage)) = some (garbage, [])
handed (mounted handle mount_point) = some (handle, mount_point)

abbrev unmounted : Option ℕ → Bytes → Option (ℕ × Bytes)
unmounted none mount_point = none
unmounted (some handle) mount_point = some (handle, mount_point)

-- ~channel(): the arguments of fuse_unmount, if it is called.
abbrev pub destructor : Channel → Option (ℕ × Bytes)
destructor self = unmounted self.handle self.mount_point

pub release-construct : (a : Construction) → destructor (construct a) ≡ handed a
release-construct (default none) = refl
release-construct (default (some garbage)) = refl
release-construct (mounted handle mount_point) = refl

-- channel(channel &&other): the new object, and `other` behind it.
abbrev pub move_constructor : Channel → Channel × Channel
move_constructor other = (
  record { handle = other.handle; mount_point = other.mount_point },
  record { handle = none; mount_point = [] },
)

-- operator=(channel &&other): the object, and `other` behind it.
abbrev pub move_assignment : Channel → Channel → Channel × Channel
move_assignment self other = (
  record { handle = other.handle; mount_point = other.mount_point },
  record { handle = self.handle; mount_point = self.mount_point },
)

abbrev pub channel : Owner Channel Construction (ℕ × Bytes)
channel = record {
  handed = handed;
  construct = construct;
  release = destructor;
  move_construct = move_constructor;
  move_assign = move_assignment;
  release-construct = release-construct;
  release-move_construct = λ o. (refl, refl);
  release-move_assign = λ o from. (refl, refl);
}

abbrev pub is_mount : ℕ → Bytes → ℕ × Bytes → Bool
is_mount handle mount_point (h, m) = h == handle && bytes_eq m mount_point

-- However channels are constructed, with a mount or by the default constructor, moved from, assigned to one
-- another and destroyed: each time a mount was handed to a constructor, fuse_unmount has been called since
-- with the handle and the mount point, or an object owns it, whose destructor will make the call, once.
-- Where the default constructor, which does not initialize the handle, left one that is not null, that
-- counts like a mount with an empty path, so that fuse_unmount is called with it. A channel is not
-- assigned to itself.
pub unmounted_once :
    (handle : ℕ) (mount_point : Bytes) {p : Pool channel}
    → Reachable channel p
    → owned channel (is_mount handle mount_point) p.objects
        + count channel (is_mount handle mount_point) p.released
      ≡ count channel (is_mount handle mount_point) p.acquired
unmounted_once handle mount_point r = Reachable-owned channel (is_mount handle mount_point) r
