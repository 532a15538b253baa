-- ===== src/Files/Laws.antt =====
-- Reading what was written.
use ufo_torrent.Common.{
  Bool, true, false, ◌&&◌, [], ◌∷◌, Bytes, some, beq, if◌then◌else◌, ok, throws, runtime_error, ◌≡◌,
  refl, inl, inr, arith, Bool-cases, beq_refl, eq_of_beq,
}
use ufo_torrent.PieceManager.State.{lookup, insert}
use ufo_torrent.Files.{Disk, create_file, read}

pub lookup-insert :
    (k j v : Bytes) (disk : Disk)
    → lookup j (insert k v disk) ≡ (if beq k j then some v else lookup j disk)
unfolding lookup insert
lookup-insert k j v [] = refl
lookup-insert k j v ((i, w) ∷ disk) = elim (Bool-cases (beq i k)) [
  | inl same ↦
      let e = eq_of_beq i k same in
      rw (same, e)
        (elim (Bool-cases (beq k j)) [ inl found ↦ rw found refl | inr other ↦ rw other refl ])
  | inr other ↦
      rw (other, lookup)
        (elim (Bool-cases (beq i j)) [
          | inl here ↦ elim (Bool-cases (beq k j)) [
            | inl both ↦
                absurd (ground (arith, other, beq_refl i, eq_of_beq i j here, eq_of_beq k j both))
            | inr apart ↦ rw (here, apart) refl
          ]
          | inr past ↦ rw (past, lookup-insert k j v disk) refl
        ])
]

-- After `createFile` of a path, every path reads as before but this one: it has the content where the write went through, it is empty where the write failed, and nothing has changed where the file did not open; the call throws in both of these cases.
pub read-create_file :
    (opens writes : Bool) (path other content : Bytes) (disk : Disk)
    → ((create_file opens writes path content disk).1
        ≡ (if opens && writes then ok tt else throws runtime_error))
      × (read (create_file opens writes path content disk).0 other ≡ (
          if opens && beq path other then ok (if writes then content else []) else read disk other))
unfolding create_file read
read-create_file false writes path other content disk = (refl, refl)
read-create_file true false path other content disk = (
  refl,
  rw (read, lookup-insert path other [] disk)
      (elim (Bool-cases (beq path other)) [ inl same ↦ rw same refl | inr apart ↦ rw apart refl ]),
)
read-create_file true true path other content disk = (
  refl,
  rw (read, lookup-insert path other content disk)
      (elim (Bool-cases (beq path other)) [ inl same ↦ rw same refl | inr apart ↦ rw apart refl ]),
)
