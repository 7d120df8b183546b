-- ===== src/Tests/Owners.antt =====
-- The theorems on owners, with objects that were moved, and on a session.
use dogbox.Base.{ℕ, ◌+◌, ◌≡◌, refl, ◌==◌, true, none, some, [], ◌∷◌, arith}
use dogbox.Base.{codes}
use dogbox.Base.Int.{pos, negsuc}
use dogbox.Trees.ReadCaching.{ReadCaching}
use dogbox.Ownership.{Reachable, construct, move, assign, destroy, start, later, owned, count}
use dogbox.Ownership.FileDescriptor.{file_descriptor, no_descriptor, closed_once}
use dogbox.Ownership.Channel.{mounted, channel, channel_of, is_mount, unmounted_once}
use dogbox.FuseAdaptor.Session.{System, adaptor}
use dogbox.FuseAdaptor.Session.Closing.{Closes, adaptor-Closes}
use dogbox.Tests.HashCodes.{sample}

-- An object of the descriptor 3 is moved from, then an object without a descriptor is assigned to, and
-- the object that has the descriptor now is destroyed.
descriptors : Reachable file_descriptor (record {
  objects = record { handle = negsuc 0 } ∷ record { handle = negsuc 0 } ∷ [];
  acquired = 3 ∷ [];
  released = 3 ∷ [];
})
descriptors =
    later
      (later
        (later
          (later (later (start refl) (construct (some (pos 3)) refl))
            (move 0 (record { handle = pos 3 }) refl refl))
          (construct none refl))
        (assign 0 1 no_descriptor (record { handle = pos 3 }) (λ e. absurd (omega (arith, e))) refl
          refl refl))
      (destroy 0 (record { handle = pos 3 }) refl refl)

closed_once_example :
    owned file_descriptor
        (λ (x : ℕ). x == 3)
        (record { handle = negsuc 0 } ∷ record { handle = negsuc 0 } ∷ [])
      + count file_descriptor (λ (x : ℕ). x == 3) (3 ∷ [])
    ≡ count file_descriptor (λ (x : ℕ). x == 3) (3 ∷ [])
closed_once_example = closed_once 3 descriptors

-- A channel is moved from, and both are destroyed.
channels :
    Reachable channel
      (record { objects = []; acquired = (7, codes "/m") ∷ []; released = (7, codes "/m") ∷ [] })
channels =
    later
      (later
        (later (later (start refl) (construct (mounted 7 (codes "/m")) refl))
          (move 0 (channel_of 7 (codes "/m")) refl refl))
        (destroy 0 (channel_of 7 (codes "/m")) refl refl))
      (destroy 0 (record { handle = none; mount_point = [] }) refl refl)

unmounted_once_example :
    owned channel (is_mount 7 (codes "/m")) []
      + count channel (is_mount 7 (codes "/m")) ((7, codes "/m") ∷ [])
    ≡ count channel (is_mount 7 (codes "/m")) ((7, codes "/m") ∷ [])
unmounted_once_example = unmounted_once 7 (codes "/m") channels

-- Mounting works, and making the session does not.
abbrev system : System
system = record {
  fusermount = λ mount_point. (0, []);
  creates = λ mount_point. true;
  fuse_mount = λ mount_point. some 7;
  fuse_new = λ handle. none;
}

adaptor-Closes_example :
    Closes (codes "/m") (adaptor system (codes "/m") sample ReadCaching.none [])
adaptor-Closes_example = adaptor-Closes system (codes "/m") sample ReadCaching.none
