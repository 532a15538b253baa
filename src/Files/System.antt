-- ===== src/Files/System.antt =====
-- What the program asks the file system, as an interface: each question may be refused with a
-- message, which `std::filesystem` throws.
use ufo_torrent.Common.{
  ℕ, Bool, List, Bytes, Outcome, ok, throws, filesystem_error, ◌≡◌, refl, ◌⊎◌, inl, inr,
}

pub data Attempt {ℓ} (A : Type ℓ) : Type ℓ where
  answer : A → Attempt A
  refused : Bytes → Attempt A

pub data Kind : Type 0 where
  regular directory other : Kind

-- An entry of a directory: its name, and its kind.
pub record DirEntry : Type 0 where
  pub name : Bytes
  pub kind : Attempt Kind

-- `walk` lists the paths under a directory, and `relative` gives the parts of one path as seen
-- from another.
pub record FileSystem : Type 0 where
  pub exists : Bytes → Attempt Bool
  pub is_regular_file : Bytes → Attempt Bool
  pub is_directory : Bytes → Attempt Bool
  pub file_size : Bytes → Attempt ℕ
  pub listing : Bytes → Attempt (List DirEntry)
  pub walk : Bytes → Attempt (List (Bytes × Attempt Bool))
  pub relative : Bytes → Bytes → Attempt (List Bytes)

-- The exception of a refusal.
abbrev pub asked {ℓ} : {A : Type ℓ} → Attempt A → Outcome A
asked (answer a) = ok a
asked (refused what) = throws filesystem_error

pub Attempt-cases {ℓ} :
    {A : Type ℓ} (m : Attempt A)
    → ((a : A) × (m ≡ answer a)) ⊎ ((what : Bytes) × (m ≡ refused what))
Attempt-cases (answer a) = inl (a, refl)
Attempt-cases (refused what) = inr (what, refl)
