-- ===== src/Operators/Provisioning/Disk.antt =====
-- operators/provisioning.py: what is required of the probed disk and of the pinned layout.
use ansible_roles.Prelude.{
  ℕ, suc, ◌+◌, ◌-◌, ◌*◌, ◌/◌, String, Bool, true, false, not, ◌&&◌, ◌||◌, List, [], ◌∷◌, ◌==◌,
  nat_eq, if◌then◌else◌, leb, ltb, any, length,
}
use ansible_roles.Result.{Error, Result, ok, err, type_error, raise_if, ◌>>=◌, ◌>>◌}
use ansible_roles.Json.{
  ℤ, pos, negsuc, Json, bool, int, str, arr, Dict, list_of, object, array, get, get_or, index,
  subscript, truthy, eqb, of_bool,
}
use ansible_roles.Operators.Provisioning.{blocked, as_dict, path, get_path}

-- `v is False`
unfoldable pub is_false : Json → Bool
is_false (bool false) = true
is_false _ = false

-- Unsafe firmware, or a live session that stands on the disk that it would erase.
unfoldable pub validate_disk : Dict → Bool → Result (Unit {0})
validate_disk facts live_required = do
  uefi ← index facts "uefi"
  insecure ← (if truthy uefi then (do s ← index facts "secureBoot"; ok (is_false s)) else ok false)
  raise_if (not insecure) (
      blocked
        "Unsigned v1 GRUB/iPXE path requires UEFI with Secure Boot off; do not change firmware automatically")
  (if live_required
      then (do
        live ← index facts "live"
        mounted ← (if truthy live then index facts "mounted" else ok (bool true))
        on_target ← (if truthy mounted then ok (bool true) else index facts "rootOnTarget")
        raise_if (truthy on_target) (
            blocked
              "Installation requires live execution independent of the unmounted target disk"))
      else ok tt)
  raise_if (truthy (get facts "firmwareBootNext") || truthy (get facts "competingBootServices"))
      (blocked "Clear/reconcile competing firmware BootNext services before provisioning")

abbrev pub mib : ℕ
mib = 1048576

-- A partition of the normalized layout.
pub record Partition : Type 0 where
  pub number : Json
  pub role : Json
  pub filesystem : Json
  pub mount_point : Json
  pub start_mib : ℕ
  pub end_mib : ℕ

abbrev pub partition_json : Partition → Json
partition_json p = object (
    ("number", p.number)
    ∷ ("role", p.role)
    ∷ ("filesystem", p.filesystem)
    ∷ ("mountPoint", p.mount_point)
    ∷ ("startMiB", int (pos p.start_mib))
    ∷ ("endMiB", int (pos p.end_mib))
    ∷ [])

abbrev pub geometry_error : Error
geometry_error = blocked "Invalid pinned partition geometry"

-- A value that Python orders with integers.
unfoldable pub whole : Json → Result ℤ
whole (int n) = ok n
whole (bool b) = ok (of_bool b)
whole _ = err type_error

-- `end <= start` refuses, where `start` is a natural number.
unfoldable pub end_after : ℕ → ℤ → Result ℕ
end_after start (pos e) = if leb e start then err geometry_error else ok e
end_after start (negsuc e) = err geometry_error

-- `end > size // (1024 * 1024) - 1`
unfoldable pub is_beyond : ℕ → ℤ → Bool
is_beyond e (pos size) = ltb (size / mib) (e + 1)
is_beyond e (negsuc size) = true

-- One pass of the loop of validate_storage, up to `partitions.append`.
unfoldable pub partition_of : Dict → ℕ → List Json → List Json → Json → Result Partition
partition_of facts previous_end numbers mounts entry = do
  v ← subscript entry "spec"
  start ← subscript entry "startMiB"
  last_mib ← subscript entry "endMiB"
  raise_if (not (eqb start (int (pos previous_end)))) geometry_error
  n ← whole last_mib
  e ← end_after previous_end n
  disk ← path (object facts) ("disk" ∷ "size" ∷ [])
  size ← whole disk
  raise_if (is_beyond e size) geometry_error
  spec ← as_dict v
  number ← index spec "number"
  raise_if (any (eqb number) numbers || any (eqb (get_or spec "mountPoint" (str ""))) mounts)
      geometry_error
  role ← index spec "role"
  filesystem ← index spec "filesystem"
  ok (record {
    number = number;
    role = role;
    filesystem = filesystem;
    mount_point = get_or spec "mountPoint" (str "");
    start_mib = previous_end;
    end_mib = e;
  })

-- `if spec.get('mountPoint'): mounts.add(…)`
unfoldable pub with_mount : Json → List Json → List Json
with_mount mount mounts = if truthy mount then mount ∷ mounts else mounts

-- The loop of validate_storage.
unfoldable pub lay_out : Dict → ℕ → List Json → List Json → List Json → Result (List Partition)
lay_out facts previous_end numbers mounts [] = ok []
lay_out facts previous_end numbers mounts (entry ∷ entries) = do
  p ← partition_of facts previous_end numbers mounts entry
  ps ← lay_out facts p.end_mib (p.number ∷ numbers) (with_mount p.mount_point mounts) entries
  ok (p ∷ ps)

-- `roles.count(role)`
unfoldable pub count_role : String → List Partition → ℕ
count_role role [] = 0
count_role role (p ∷ ps) = let n = count_role role ps in if eqb p.role (str role) then suc n else n

unfoldable pub entries_of : Json → Result (List Json)
entries_of (arr xs) = ok (list_of xs)
entries_of _ = err type_error

unfoldable pub validate_storage : Dict → Dict → Result (List Partition)
validate_storage run_status facts = do
  layout ← get_path (object run_status) ("storagePlan" ∷ [])
  entries ← entries_of (get_or layout "partitions" (array []))
  ps ← lay_out facts 1 [] [] entries
  raise_if (not (count_role "root" ps == 1) || not (count_role "efi" ps == 1))
      (blocked "A pinned root and EFI partition are required")
  ok ps

-- `a - b` and `a * 1048576` on integers.
unfoldable pub minus : ℤ → ℤ → ℤ
minus (pos a) (pos b) = if leb b a then pos (a - b) else negsuc (b - a - 1)
minus (pos a) (negsuc b) = pos (a + b + 1)
minus (negsuc a) (pos b) = negsuc (a + b)
minus (negsuc a) (negsuc b) = if leb a b then pos (b - a) else negsuc (a - b - 1)

unfoldable pub in_bytes : ℤ → ℤ
in_bytes (pos a) = pos (a * mib)
in_bytes (negsuc a) = negsuc (suc a * mib - 1)

-- `{partition['number']: partition for …}`: of equal numbers the last is kept.
unfoldable pub put : Json → Dict → List (Json × Dict) → List (Json × Dict)
put n d [] = (n, d) ∷ []
put n d ((m, e) ∷ ds) = if eqb n m then (m, d) ∷ ds else (m, e) ∷ put n d ds

unfoldable pub by_number : List Json → List (Json × Dict) → Result (List (Json × Dict))
by_number [] observed = ok observed
by_number (v ∷ vs) observed = do
  n ← subscript v "number"
  d ← as_dict v
  by_number vs (put n d observed)

-- `observed.get(number, {})`
unfoldable pub find_number : Json → List (Json × Dict) → Dict
find_number n [] = []
find_number n ((m, d) ∷ ds) = if eqb n m then d else find_number n ds

unfoldable pub geometry_matches : Json → Dict → Result Bool
geometry_matches partition actual = do
  s ← subscript partition "startMiB"
  start ← whole s
  elim (eqb (get actual "startBytes") (int (in_bytes start))) [
    | false ↦ ok false
    | true ↦ (do
      e ← subscript partition "endMiB"
      last_mib ← whole e
      ok (eqb (get actual "size") (int (in_bytes (minus last_mib start)))))
  ]

unfoldable pub filesystem_matches : Json → Dict → Result Bool
filesystem_matches partition actual = do
  filesystem ← subscript partition "filesystem"
  ok (
      eqb (get actual "filesystem") filesystem
      && truthy (get actual "uuid")
      && truthy (get actual "partUUID"))

unfoldable pub is_mounted : Json → Dict → Result Bool
is_mounted partition actual = do
  role ← subscript partition "role"
  elim (eqb role (str "swap")) [
    | true ↦ ok (truthy (get actual "activeSwap"))
    | false ↦ (do
      mount ← subscript partition "mountPoint"
      mounts ← entries_of (get_or actual "mountPoints" (array []))
      ok (any (eqb mount) mounts))
  ]

-- The message leaves out the number of the partition.
unfoldable pub check_partition : List (Json × Dict) → Json → Result (Unit {0})
check_partition observed partition = do
  n ← subscript partition "number"
  g ← geometry_matches partition (find_number n observed)
  f ← filesystem_matches partition (find_number n observed)
  m ← is_mounted partition (find_number n observed)
  raise_if (not g || not f || not m) (blocked "Installed partition differs from the plan")

unfoldable pub check_partitions : List (Json × Dict) → List Json → Result (Unit {0})
check_partitions observed [] = ok tt
check_partitions observed (p ∷ ps) = check_partition observed p >> check_partitions observed ps

-- Exact geometry, filesystems and mounts of every partition, and no other partition.
unfoldable pub verify_installed_storage : Dict → Dict → Result (Unit {0})
verify_installed_storage storage facts = do
  found ← entries_of (get_or facts "partitions" (array []))
  observed ← by_number found []
  planned ← entries_of (get_or storage "partitions" (array []))
  raise_if (not (length observed == length planned) || not (length observed == length found))
      (blocked "Installed partition set differs from the plan")
  check_partitions observed planned
