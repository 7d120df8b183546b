-- ===== src/FuseAdaptor/Session/Closing.antt =====
-- What an adaptor takes it gives back, in the order that libfuse wants.
use dogbox.Base.{
  ℕ, ◌≡◌, refl, Bool, true, false, ◌&&◌, ◌||◌, ◌==◌, Option, none, some, List, [], ◌∷◌,
}
use dogbox.Base.{arith, Bytes, bytes_eq, bytes_eq_refl, to_do, filesystem_error, Result, ok, throw}
use dogbox.HashCode.{Sha256HashCode}
use dogbox.Trees.ReadCaching.{ReadCaching}
use dogbox.Base.Action.{guard, ◌>>=◌, ◌>>◌}
use dogbox.FuseAdaptor.Attributes.{UserData}
use dogbox.FuseAdaptor.Mounted
use dogbox.Ownership.Channel.{channel_of}
use dogbox.FuseAdaptor.Session.{mount_at, start, mount_channel, unmount_all, not_mounted}
use dogbox.FuseAdaptor.Session.{
  System, Call, mount, new, unmount, destroy, Adaptor, adaptor, destroy_adaptor,
}

-- What libfuse holds: nothing, a mount, a mount with a session, or a session whose mount is gone.
pub data Held : Type 0 where
  idle : Held
  mounted : Bytes → ℕ → Held
  running : Bytes → ℕ → ℕ → Held
  detached : ℕ → Held

-- The calls that are right, and what is held after them: a session is made from the mount's handle,
-- only what is held is given back, the mount before the session.
abbrev keep_if : Bool → Held → Option Held
keep_if true held = some held
keep_if false held = none

abbrev same_handle : Option ℕ → ℕ → Bool
same_handle none h = false
same_handle (some h') h = h' == h

abbrev pub call : Held → Call → Option Held
call idle (mount m h) = some (mounted m h)
call (mounted m h) (new h' f) = keep_if (same_handle h' h) (running m h f)
call (mounted m h) (unmount m' h') = keep_if (bytes_eq m m' && h == h') idle
call (running m h f) (unmount m' h') = keep_if (bytes_eq m m' && h == h') (detached f)
call (detached f) (destroy f') = keep_if (f == f') idle
call _ _ = none

abbrev next : Option Held → Call → Option Held
next none c = none
next (some held) c = call held c

abbrev pub held_after : List Call → Option Held
held_after [] = some idle
held_after (c ∷ calls) = next (held_after calls) c

-- What the constructor leaves: nothing, if it throws; otherwise a mount with a session, until the
-- destructor has given both back.
abbrev pub Closes : Bytes → Result Adaptor × List Call → Type 0
Closes mount_point (throw e, calls) = held_after calls ≡ some idle
Closes mount_point (ok self, calls) =
    (handle fuse : ℕ) × (held_after calls ≡ some (running mount_point handle fuse))
    × (held_after (destroy_adaptor self calls) ≡ some idle)

same_mount : (m : Bytes) (h : ℕ) → (bytes_eq m m && h == h) ≡ true
same_mount m h = rw (bytes_eq_refl m) (ground arith)

start-Closes :
    (user : UserData) (mount_point : Bytes) (handle : ℕ) (fuse : Option ℕ)
    → Closes mount_point
        (start user (channel_of handle mount_point) fuse (mount mount_point handle ∷ []))
unfolding destroy_adaptor
start-Closes user mount_point handle none = rw (same_mount mount_point handle) refl
start-Closes user mount_point handle (some fuse) =
    let same : (handle == handle) ≡ true = ground arith in
    let same' : (fuse == fuse) ≡ true = ground arith in
    (handle, fuse, rw same refl, rw (same, same_mount mount_point handle, same') refl)

mounted-Closes :
    (S : System) (user : UserData) (mount_point : Bytes) (handle : Option ℕ)
    → Closes mount_point (
        (mount_at mount_point handle >>= λ channel. start user channel (S.fuse_new channel.handle))
          [])
mounted-Closes S user mount_point none = refl
mounted-Closes S user mount_point (some handle) =
    start-Closes user mount_point handle (S.fuse_new (some handle))

-- Whatever the calls return: if the constructor throws, it has given back what it had taken; otherwise a
-- mount and a session of it are held, and the destructor gives back both, the mount first. Each call of
-- libfuse is one that it allows then.
pub adaptor-Closes :
    (S : System) (mount_point : Bytes) (root : Sha256HashCode) (read_cache_mode : ReadCaching)
    → Closes mount_point (adaptor S mount_point root read_cache_mode [])
unfolding adaptor mount_channel unmount_all
adaptor-Closes S mount_point root read_cache_mode =
    let (exit_code, output) = S.fusermount mount_point in
    guarded (exit_code == 0 || bytes_eq output (not_mounted mount_point)) (S.creates mount_point)
  where
    user : UserData
    user = Mounted.mounted root read_cache_mode

    guarded :
        (gone creates : Bool)
        → Closes mount_point (
            (guard gone to_do
                >> (guard creates filesystem_error
                    >> mount_at mount_point (S.fuse_mount mount_point))
                >>= λ channel. start user channel (S.fuse_new channel.handle))
              [])
    guarded false creates = refl
    guarded true false = refl
    guarded true true = mounted-Closes S user mount_point (S.fuse_mount mount_point)
