-- ===== src/Operators/Provisioning/Storage.antt =====
-- validate_storage: a layout that it accepts is contiguous, on the disk, and without a clash.
use ansible_roles.Prelude.{
  ℕ, ◌+◌, ◌/◌, ◌≤◌, ◌<◌, ◌≡◌, subst, true, false, List, [], ◌∷◌, nat_eq, any, All, All-map, Apart,
  ltb-false, arith,
}
use ansible_roles.Result.{ok, bind-eq-ok}
use ansible_roles.Json.{ℤ, pos, negsuc, Json, int, object, array, Dict, get_or, truthy, eqb}
use ansible_roles.Operators.Provisioning.{path, get_path}
use ansible_roles.Operators.Provisioning.Disk.{
  mib, Partition, whole, end_after, is_beyond, partition_of, with_mount, lay_out, count_role,
  entries_of, validate_storage,
}

-- Each partition starts where the one before it ends.
abbrev pub Contiguous : ℕ → List Partition → Type 0
Contiguous start [] = Unit
Contiguous start (p ∷ ps) = (p.start_mib ≡ start) × Contiguous p.end_mib ps

-- The partition has an extent, and ends before the last MiB of a disk of `size` bytes.
abbrev pub Fits : ℕ → Partition → Type 0
Fits size p = (p.start_mib < p.end_mib) × (p.end_mib < size / mib)

abbrev pub Numbered : Partition → Partition → Type 0
Numbered p q = eqb q.number p.number ≡ false

abbrev pub Mounted : Partition → Partition → Type 0
Mounted p q = truthy p.mount_point ≡ true → eqb q.mount_point p.mount_point ≡ false

-- The earlier partition ends at or before the start of the later one.
abbrev pub Before : Partition → Partition → Type 0
Before p q = p.end_mib ≤ q.start_mib

abbrev pub IsLayout : ℕ → List Partition → Type 0
IsLayout size ps =
    Contiguous 1 ps × All (Fits size) ps × Apart Before ps × Apart Numbered ps × Apart Mounted ps

pub end_after_lem : (start : ℕ) (n : ℤ) (e : ℕ) → end_after start n ≡ ok e → start < e
unfolding end_after
end_after_lem start (pos m) e h = ground arith
end_after_lem start (negsuc m) e h = ground arith

pub is_beyond_lem : (e size : ℕ) → is_beyond e (pos size) ≡ false → e < size / mib
unfolding is_beyond
is_beyond_lem e size h = let le = ltb-false (size / mib) (e + 1) h in omega arith

module _ (facts : Dict) (size : ℕ)
    (sized : path (object facts) ("disk" ∷ "size" ∷ []) ≡ ok (int (pos size))) where
  abbrev Placed : ℕ → List Json → List Json → Partition → Type 0
  Placed previous_end numbers mounts p =
      (p.start_mib ≡ previous_end)
      × (previous_end < p.end_mib)
      × (p.end_mib < size / mib)
      × (any (eqb p.number) numbers ≡ false)
      × (any (eqb p.mount_point) mounts ≡ false)

  size_of :
      (z : ℤ) (v : Json)
      → path (object facts) ("disk" ∷ "size" ∷ []) ≡ ok v
      → whole v ≡ ok z
      → z ≡ pos size
  unfolding whole
  size_of z v h w = ground arith

  partition_of-Placed :
      (previous_end : ℕ) (numbers mounts : List Json) (entry : Json) (p : Partition)
      → partition_of facts previous_end numbers mounts entry ≡ ok p
      → Placed previous_end numbers mounts p
  unfolding partition_of
  partition_of-Placed previous_end numbers mounts entry p h =
      let after : (n : ℤ) (e : ℕ) → end_after previous_end n ≡ ok e → previous_end < e =
        end_after_lem previous_end in
      let inside : (e : ℕ) → is_beyond e (pos size) ≡ false → e < size / mib =
        λ e. is_beyond_lem e size in
      let known : (z : ℤ) (v : Json)
          → path (object facts) ("disk" ∷ "size" ∷ []) ≡ ok v
          → whole v ≡ ok z
          → z ≡ pos size =
        size_of in
      grind arith

  -- What the loop keeps of the partitions still to come, given what it has seen.
  abbrev Rest : ℕ → List Json → List Json → List Partition → Type 0
  Rest previous_end numbers mounts ps =
      Contiguous previous_end ps
      × All (Fits size) ps
      × Apart Before ps
      × Apart Numbered ps
      × Apart Mounted ps
      × All (λ p. previous_end ≤ p.start_mib) ps
      × All (λ p. any (eqb p.number) numbers ≡ false) ps
      × All (λ p. any (eqb p.mount_point) mounts ≡ false) ps

  with_mount_old :
      (q mount : Json) (mounts : List Json)
      → any (eqb q) (with_mount mount mounts) ≡ false
      → any (eqb q) mounts ≡ false
  unfolding with_mount
  with_mount_old q mount mounts h = ground arith

  with_mount_new :
      (q mount : Json) (mounts : List Json)
      → any (eqb q) (with_mount mount mounts) ≡ false
      → truthy mount ≡ true
      → eqb q mount ≡ false
  unfolding with_mount
  with_mount_new q mount mounts h t = ground arith

  Rest-cons :
      (previous_end : ℕ) (numbers mounts : List Json) (p : Partition) (ps : List Partition)
      → Placed previous_end numbers mounts p
      → Rest p.end_mib (p.number ∷ numbers) (with_mount p.mount_point mounts) ps
      → Rest previous_end numbers mounts (p ∷ ps)
  Rest-cons previous_end numbers mounts p ps (start, extent, inside, new, free)
        (contiguous, fits, before, numbered, mounted, later, others, points) =
      (
        (start, contiguous),
        ((omega arith, inside), fits),
        (later, before),
        (All-map _ (Numbered p) (λ q h. ground arith) ps others, numbered),
        (
          All-map _ (Mounted p) (λ q. with_mount_new q.mount_point p.mount_point mounts) ps points,
          mounted,
        ),
        (omega arith, All-map _ (λ q. previous_end ≤ q.start_mib) (λ q h. omega arith) ps later),
        (new, All-map _ (λ q. any (eqb q.number) numbers ≡ false) (λ q h. ground arith) ps others),
        (
          free,
          All-map _ (λ q. any (eqb q.mount_point) mounts ≡ false)
              (λ q. with_mount_old q.mount_point p.mount_point mounts) ps points,
        ),
      )

  lay_out-Rest :
      (previous_end : ℕ) (numbers mounts entries : List Json) (ps : List Partition)
      → lay_out facts previous_end numbers mounts entries ≡ ok ps
      → Rest previous_end numbers mounts ps
  unfolding lay_out
  lay_out-Rest previous_end numbers mounts [] ps h =
      subst (Rest previous_end numbers mounts) {x = []} (ground arith)
        (tt, tt, tt, tt, tt, tt, tt, tt)
  lay_out-Rest previous_end numbers mounts (entry ∷ entries) ps h =
      let (p, placed, h1) = bind-eq-ok (partition_of facts previous_end numbers mounts entry) _ h in
      let (qs, laid, h2) =
        bind-eq-ok
          (lay_out facts p.end_mib (p.number ∷ numbers) (with_mount p.mount_point mounts) entries) _
          h1 in
      subst (Rest previous_end numbers mounts) {x = p ∷ qs} (ground arith) (
        Rest-cons previous_end numbers mounts p qs
          (partition_of-Placed previous_end numbers mounts entry p placed)
          (lay_out-Rest p.end_mib (p.number ∷ numbers) (with_mount p.mount_point mounts) entries qs
            laid))

  -- On a disk of `size` bytes, a layout that validate_storage returns starts at MiB 1 and leaves no
  -- gap; every partition has an extent and ends before the disk's last MiB; no two partitions
  -- overlap, carry equal numbers, or share a mount point; and exactly one is the root and one the
  -- EFI partition.
  pub validate_storage-IsLayout :
      (run_status : Dict) (ps : List Partition)
      → validate_storage run_status facts ≡ ok ps
      → IsLayout size ps × (count_role "root" ps ≡ 1) × (count_role "efi" ps ≡ 1)
  unfolding validate_storage
  validate_storage-IsLayout run_status ps h =
      let (layout, _, h1) = bind-eq-ok (get_path (object run_status) ("storagePlan" ∷ [])) _ h in
      let (entries, _, h2) = bind-eq-ok (entries_of (get_or layout "partitions" (array []))) _ h1 in
      let (qs, laid, h3) = bind-eq-ok (lay_out facts 1 [] [] entries) _ h2 in
      let same : qs ≡ ps = ground arith in
      let (contiguous, fits, before, numbered, mounted, _, _, _) =
        lay_out-Rest 1 [] [] entries ps
          (subst (λ ps. lay_out facts 1 [] [] entries ≡ ok ps) same laid) in
      ((contiguous, fits, before, numbered, mounted), ground arith, ground arith)
