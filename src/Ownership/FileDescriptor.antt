-- ===== src/Ownership/FileDescriptor.antt =====
-- The owner of a descriptor: file_descriptor of common/file_descriptor.h.
use dogbox.Base.{ℕ, ◌+◌, ◌≡◌, refl, ◌==◌, Option, none, some}
use dogbox.Base.Int.{ℤ, pos, negsuc}
use dogbox.Ownership.{Owner, Pool, Reachable, Reachable-owned, owned, count}

pub record FileDescriptor : Type 0 where
  pub handle : ℤ

-- file_descriptor()
abbrev pub no_descriptor : FileDescriptor
no_descriptor = record { handle = negsuc 0 }

-- file_descriptor(int handle_)
abbrev pub descriptor_of : ℤ → FileDescriptor
descriptor_of handle = record { handle = handle }

-- The constructor, by its argument if it has one.
abbrev pub construct : Option ℤ → FileDescriptor
construct none = no_descriptor
construct (some handle) = descriptor_of handle

-- A number that is not below 0 is a descriptor.
abbrev handed : Option ℤ → Option ℕ
handed none = none
handed (some (negsuc _)) = none
handed (some (pos fd)) = some fd

abbrev closed : ℤ → Option ℕ
closed (negsuc _) = none
closed (pos fd) = some fd

-- ~file_descriptor(): the descriptor that it closes.
abbrev pub destructor : FileDescriptor → Option ℕ
destructor self = closed self.handle

pub release-construct : (a : Option ℤ) → destructor (construct a) ≡ handed a
release-construct none = refl
release-construct (some (negsuc _)) = refl
release-construct (some (pos fd)) = refl

-- file_descriptor(file_descriptor &&other): the new object, and `other` behind it.
abbrev pub move_constructor : FileDescriptor → FileDescriptor × FileDescriptor
move_constructor other = (record { handle = other.handle }, record { handle = negsuc 0 })

-- operator=(file_descriptor &&other): the object, and `other` behind it.
abbrev pub move_assignment : FileDescriptor → FileDescriptor → FileDescriptor × FileDescriptor
move_assignment self other = (record { handle = other.handle }, record { handle = self.handle })

abbrev pub file_descriptor : Owner FileDescriptor (Option ℤ) ℕ
file_descriptor = record {
  handed = handed;
  construct = construct;
  release = destructor;
  move_construct = move_constructor;
  move_assign = move_assignment;
  release-construct = release-construct;
  release-move_construct = λ o. (refl, refl);
  release-move_assign = λ o from. (refl, refl);
}

-- However objects of file_descriptor are constructed, with any number or without one, moved from, assigned
-- to one another and destroyed: each time a number that is not below 0 was handed to a constructor, it has
-- been closed since by a destructor, or an object owns it, whose destructor will close it. It is neither
-- lost nor closed twice. An object is not assigned to itself.
pub closed_once :
    (fd : ℕ) {p : Pool file_descriptor}
    → Reachable file_descriptor p
    → owned file_descriptor (λ (x : ℕ). x == fd) p.objects
        + count file_descriptor (λ (x : ℕ). x == fd) p.released
      ≡ count file_descriptor (λ (x : ℕ). x == fd) p.acquired
closed_once fd r = Reachable-owned file_descriptor (λ (x : ℕ). x == fd) r
